-- ===== src/View/Page/Status.antt =====
-- The texts in the header of web-dashboard/src/app/page.tsx and in the health panel, against the
-- actions that reached the store.
use aether_lens.Prelude.{
  ◌≡◌, refl, Bool, false, Option, none, List, ◌++◌, append_assoc, append-nil, Text, codes,
  if◌then◌else◌,
}
use aether_lens.Number.{to_fixed}
use aether_lens.Types.{SystemHealthData}
use aether_lens.Store.{Action, initial, run}
use aether_lens.Store.History.{last_health, last_connected, run-initial-Shows}
use aether_lens.Panels.Health.{or_default, health_view}
use aether_lens.View.{text_content}
use aether_lens.View.Health.{
  Runtime, metric_card, status_dot, health_header, latency_bar, system_health, compact_latency,
  latency_monitor, utc_clock,
}
use aether_lens.View.Page.{Screen, online_text, online_status, page_header}

-- What the health panel reads, line by line.
abbrev pub health_text : SystemHealthData → Text
health_text h =
    let avg = to_fixed 1 h.avg_latency_ms ++ codes "ms" in
    codes "System HealthSignalRgRPC"
    ++ (codes "THROUGHPUT"
        ++ (to_fixed 1 h.packets_per_second
            ++ (codes " PPS"
                ++ (codes "AVG LATENCY"
                    ++ (avg
                        ++ (codes "MAX LATENCY"
                            ++ (to_fixed 1 h.max_latency_ms
                                ++ (codes "ms"
                                    ++ (codes "UPTIME"
                                        ++ (h.uptime
                                            ++ (codes "LATENCY TARGET: 100ms" ++ avg)))))))))))

text_content-system_health :
    (r : Runtime) (health : Option SystemHealthData) (connected : Bool)
    → text_content (system_health r health connected) ≡ health_text (or_default health)
unfolding text_content system_health metric_card status_dot health_header latency_bar health_view
text_content-system_health r health connected = simp (append-nil, append_assoc)

text_content-page_header :
    (s : Screen)
    → text_content (page_header s)
      ≡ codes "AETHERLENS v1.0 LAB"
        ++ (s.clock
            ++ (s.runtime.print s.display_latency ++ (codes "ms" ++ online_text s.store.connected)))
unfolding text_content page_header online_status utc_clock latency_monitor compact_latency
text_content-page_header s = simp (append-nil, append_assoc)

-- After any row of actions on the initial store the header reads as the title, the clock, the latency
-- and whether the connection was last set to be up, and the health panel reads as the figures of the
-- health that was last set, or as the default figures if none was.
pub run-initial-texts :
    (actions : List Action) (s : Screen)
    → s.store ≡ run actions initial
    → (text_content (page_header s)
        ≡ codes "AETHERLENS v1.0 LAB"
          ++ (s.clock
              ++ (s.runtime.print s.display_latency
                  ++ (codes "ms"
                      ++ (if last_connected actions false
                          then codes "SYSTEM ONLINE"
                          else codes "OFFLINE")))))
      × (text_content (system_health s.runtime s.store.health s.store.connected)
          ≡ health_text (or_default (last_health actions none)))
unfolding online_text initial
run-initial-texts actions s e =
    let shown = run-initial-Shows actions in
    let up : s.store.connected ≡ last_connected actions false = rw e shown.connected in
    let figures : s.store.health ≡ last_health actions none = rw e shown.health in
    (
      rw (text_content-page_header s, up) refl,
      rw (text_content-system_health s.runtime s.store.health s.store.connected, figures) refl,
    )
