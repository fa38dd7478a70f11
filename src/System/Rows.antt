-- ===== src/System/Rows.antt =====
-- The rows of the database of api-server against the packets that core-engine captured.
use mathlib.Core.List.{Sublist, map-append}
use mathlib.Core.List.Sublist
use mathlib.Core.Path.{subst}
use aether_lens.Prelude.{
  ℕ, ◌≡◌, refl, ap, sym, ◌∙◌, List, [], ◌∷◌, ◌++◌, map, append_assoc, append-nil, Sublist-map,
  Sublist-front, Sublist-join, Sublist-begin,
}
use aether_lens.Types.{PacketUpdate}
use aether_lens.Engine.Scoring.{CapturedPacket}
use aether_lens.Engine.Messages.{PacketMessage, packet_message}
use aether_lens.Server.Consumer.{update_of}
use aether_lens.Server.Persistence
use aether_lens.Server.Persistence.{Attempts, Worker, arrive, turn}
use aether_lens.Server.Persistence.Order.{content, content-step}
use aether_lens.System.{
  System, Step, read, persist, Reach, start, later, initial_system, consume_packet, send_captured,
  send_message,
}
use aether_lens.System.Upstream.{origin, messages, upstream, upstream-read, Step-upstream}

-- The packets of the rows, and of what the worker has still to store.
abbrev front : System → List PacketMessage
front s = map origin (content s.worker)

origin-update_of : (now : ℕ) (m : PacketMessage) → origin (update_of now m) ≡ m
unfolding update_of
origin-update_of now m = refl

front-read :
    (now : ℕ) (m : PacketMessage) (w : Worker PacketUpdate)
    → Sublist
        (map origin (content (Persistence.step (arrive (update_of now m)) w)))
        (map origin (content w) ++ m ∷ [])
front-read now m w =
    subst (Sublist _)
      (map-append origin (content w) (update_of now m ∷ [])
        ∙ ap (λ x. map origin (content w) ++ x ∷ []) (origin-update_of now m))
      (Sublist-map origin (content-step (arrive (update_of now m)) w))

front-persist :
    (answers : Attempts) (w : Worker PacketUpdate)
    → Sublist (map origin (content (Persistence.step (turn answers) w))) (map origin (content w))
front-persist answers w =
    Sublist-map origin (subst (Sublist _) (append-nil (content w)) (content-step (turn answers) w))

Step-chain :
    {s t : System} {new : List CapturedPacket}
    → Step s new t
    → Sublist (front t ++ upstream t) ((front s ++ upstream s) ++ messages new)
unfolding send_captured consume_packet send_message
Step-chain {s} (read now {m} {rest} e) =
    subst (Sublist _)
      (append_assoc (front s) (m ∷ []) (upstream (record s { packet_channel = rest }))
        ∙ (ap (front s ++◌) (sym (upstream-read s e)) ∙ sym (append-nil (front s ++ upstream s))))
      (Sublist-front (upstream (record s { packet_channel = rest })) (front-read now m s.worker))
Step-chain {s} (persist answers) =
    Sublist-join (upstream s) [] (front-persist answers s.worker)
      (Step-upstream {s = s} (persist answers))
Step-chain {s} {t} {new} st =
    Sublist-join (upstream s) (messages new) (Sublist.refl (front s)) (Step-upstream {s = s} st)

Reach-chain :
    {captured : List CapturedPacket} {s : System}
    → Reach captured s
    → Sublist (front s ++ upstream s) (messages captured)
unfolding initial_system
Reach-chain start = Sublist.refl []
Reach-chain (later {captured} {new} r st) =
    subst (Sublist _) (sym (map-append packet_message captured new))
      (Sublist.trans (Step-chain st) (Sublist-front (messages new) (Reach-chain r)))

-- However the parts run and whatever is lost on the way, the rows of the database are made of a part
-- of the captured packets, each at most once and in the order in which they were captured.
pub Reach-stored :
    {captured : List CapturedPacket} {s : System}
    → Reach captured s
    → Sublist (map origin s.worker.stored) (messages captured)
Reach-stored {captured} {s} r =
    let w = s.worker in
    Sublist-begin (map origin w.stored) (map origin (w.buffer ++ w.waiting)) (messages captured) (
      subst (λ l. Sublist l (messages captured))
        (map-append origin w.stored (w.buffer ++ w.waiting))
        (Sublist-begin (front s) (upstream s) (messages captured) (Reach-chain r)))
