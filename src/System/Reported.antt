-- ===== src/System/Reported.antt =====
-- The alerts that core-engine's reports of captured packets become in api-server.
use aether_lens.Prelude.{◌≡◌, refl, ap, sym, ◌∙◌, List, [], ◌∷◌, ◌++◌, append_assoc}
use aether_lens.Types.{SuspiciousOutboundConnection}
use aether_lens.Engine.Scoring.{CapturedPacket, SuspiciousConnection, score_suspicious}
use aether_lens.Engine.Messages.{suspicious_message}
use aether_lens.Server.Alerts.{alert_of}
use aether_lens.System.{to_list}

-- The reports of packets, in their order, and the alerts that are made of them.
abbrev pub found : List CapturedPacket → List SuspiciousConnection
found [] = []
found (packet ∷ later_ones) = to_list (score_suspicious packet) ++ found later_ones

abbrev pub alert_from : SuspiciousConnection → SuspiciousOutboundConnection
alert_from report = alert_of (suspicious_message report)

pub found-append : (xs ys : List CapturedPacket) → found (xs ++ ys) ≡ found xs ++ found ys
found-append [] ys = refl
found-append (x ∷ xs) ys =
    ap (to_list (score_suspicious x) ++◌) (found-append xs ys)
    ∙ sym (append_assoc (to_list (score_suspicious x)) (found xs) (found ys))

abbrev pub in_order : List SuspiciousOutboundConnection → List SuspiciousOutboundConnection
in_order [] = []
in_order (a ∷ latest_first) = in_order latest_first ++ a ∷ []
