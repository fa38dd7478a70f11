-- ===== src/Charts.antt =====
-- The two charts of the dashboard, web-dashboard/src/components/NetworkTrafficChart.tsx and
-- ProtocolPieChart.tsx.
pub mod Traffic
pub mod Protocols
