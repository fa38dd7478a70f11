-- ===== src/Lib.antt =====
-- AetherLens: a network monitor of a capture engine (core-engine, Rust), an API server
-- (api-server, C#) and a dashboard (web-dashboard, TypeScript). The engine reports packets and
-- suspicious connections to the server, the server aggregates them and calls the dashboard's
-- hub methods, and the dashboard keeps what arrives in a store from which its panels are drawn.
-- This library models the dashboard's own logic, the engine's way from a frame to a report, and
-- the server's services.
--
-- Which file models what:
--   Types: web-dashboard/src/types/index.ts, the four messages.
--   Store: web-dashboard/src/store/aether-store.ts, the state and its five actions; Store.run is a
--     row of actions, as the handlers call them.
--   Camelize: `camelizeKey` and `camelize` of web-dashboard/src/lib/signalr.ts, over JavaScript values.
--   Wire: the messages as api-server/Hubs/Contracts.cs sends them, and as the dashboard reads them.
--   Signalr: the hook `useSignalR` of web-dashboard/src/lib/signalr.ts, its connection and handlers.
--   Console: web-dashboard/src/components/LiveConsole.tsx, the log and the four listeners.
--   Charts: NetworkTrafficChart.tsx and ProtocolPieChart.tsx of web-dashboard/src/components.
--   Panels: web-dashboard/src/lib/utils.ts, and AnomalyFeed.tsx, ProcessTracker.tsx, SystemHealth.tsx
--     and LatencyMonitor.tsx of web-dashboard/src/components.
--   Endpoints, Clock: web-dashboard/src/lib/runtime-endpoints.ts and components/UtcClock.tsx.
--   Engine: core-engine/src. Of network/stream.rs, Engine.Scoring is `score_suspicious`, Engine.Capture
--     `parse_packet`, and Engine.Capture.Loop and Engine.Interfaces are the loop and the choice of the
--     interface in `run_sniffer_loop`. Engine.Processes is network/process_map.rs and Engine.Demo
--     network/demo_stream.rs, and Engine.Start is main.rs; of engine/processor.rs, Engine.Messages is what is
--     broadcast, Engine.Statistics the counters, in wrapping 64-bit integers, and Engine.Processor the two tasks.
--   Server: api-server. Server.Limiter is Middleware/RateLimitMiddleware.cs, Server.Stream
--     Services/GrpcStreamService.cs, Server.Suspicions Services/SuspiciousGrpcStreamService.cs, Server.Health
--     Services/SystemMonitorService.cs, Server.Origins the test of origins of Program.cs, Server.Start
--     its settings and services, and Server.Hub Hubs/NetworkMonitorHub.cs; of
--     Persistence, Server.Consumer is PacketConsumerService.cs, with its batches in Server.Batches, Server.Alerts
--     SuspiciousConsumerService.cs, Server.Persistence PacketPersistenceWorker.cs, which knows of the database only whether an
--     attempt succeeds, and Server.Database AetherDb.cs.
--     Server.Metrics is Services/MetricsSnapshot.cs.
--   View: what all components and the pages of web-dashboard/src/app render, as trees of elements with
--     the class names of the source. View.Page puts the components together as page.tsx does.
--   Pipeline: the parts one behind the other, from what the engine broadcasts to the dashboard's store.
--   System: all parts together, as a state with the queues, channels and connections between them and a
--     step for each piece of work that a part may do next and for each loss.
--   Number: JavaScript numbers, their division and `toFixed`. Prelude: shared lists, tests and texts.
--
-- How it is modelled. A function that changes state returns the new state. Texts are lists of
-- UTF-16 code units; where the program changes the case of a letter, the letters are ASCII, as
-- all keys, protocol names and hosts of the program are. Numbers are not negative and below 2 ^
-- 53: byte counts and times are natural numbers, and a floating-point number is an integer over
-- a power of two, with division rounded to 53 bits. The fuel of that division is 1074, the
-- smallest scale of a double, and a number is printed with as much fuel as its value plus one,
-- more than it has digits. Clocks, random draws, identifiers and what the SignalR library
-- answers are arguments, and so are `Uri.TryCreate`, `Math.Round`, the stopwatch, what SQLite
-- answers and the operating system's tables of connections. SignalR's groups are an interface:
-- joining a group makes a client a member and removes nobody. The stable sort of the interfaces
-- is an insertion sort, since all stable sorts give the same result.
--
-- Loops that serve events are runs over a row of events, and two loops that share state are a
-- row of their atomic steps in any order. Server.Limiter subtracts on natural numbers: a cutoff
-- before the first tick evicts nothing, as 0 does.
--
-- In System a step is one piece of work of one part, and the order of the steps is free; the
-- clocks, the database's answers and the rates of a snapshot are chosen by the step. What can
-- be lost, a report without a subscriber, a message that a slow subscriber misses, all that is
-- on a connection that breaks, is lost by a step of its own. A packet and its report are sent
-- in one step, and a report that is not sent is one without a subscriber.
--
-- Not modelled: the schema of the database and the running of tasks and services; pnet, tonic,
-- tokio, ASP.NET, the gRPC client and SQLite, which are libraries; animations, what the buttons
-- do and next.config.ts; how class names are joined and how a number that is no integer is
-- printed; clsx, tailwind-merge, zustand, React and Recharts, which are libraries; `__proto__`
-- and array indices as keys of a message; and core-engine/build.rs, which only sets up the
-- build.
pub mod Prelude
pub mod Number
pub mod Types
pub mod Store
pub mod Camelize
pub mod Wire
pub mod Signalr
pub mod Console
pub mod Charts
pub mod Panels
pub mod Endpoints
pub mod Clock
pub mod Engine
pub mod Server
pub mod View
pub mod Pipeline
pub mod System
mod Tests
