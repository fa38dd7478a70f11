-- ===== src/Server/Stream.antt =====
-- api-server/Services/GrpcStreamService.cs: the loop that subscribes to the engine's packets. What a
-- turn of the loop meets, the call of the gRPC client and the stream it gives, is an argument.
pub mod Backoff
use aether_lens.Prelude.{
  ℕ, ◌*◌, min, Bool, true, false, Option, none, some, List, [], ◌∷◌, ◌++◌, if◌then◌else◌,
}

-- An `RpcException` of status Unavailable or Internal, the cancellation of the service, and any other.
pub data Exception : Type 0 where
  unavailable cancelled unexpected : Exception

-- The call throws, or its stream delivers items and ends or throws.
pub data Turn (A : Type 0) : Type 0 where
  at_call : Exception → Turn A
  on_stream : List A → Option Exception → Turn A

pub data Status : Type 0 where
  running stopped faulted : Status

-- The delay in seconds, the flag of the metrics, the items written to the channel and the delays
-- that were waited for.
pub record Subscriber (A : Type 0) : Type 0 where
  pub status : Status
  pub delay : ℕ
  pub connected : Bool
  pub written : List A
  pub waits : List ℕ

abbrev pub first_delay : ℕ
first_delay = 2

abbrev pub max_delay : ℕ
max_delay = 30

abbrev pub start : {A : Type 0} → Subscriber A
start = record {
  status = running;
  delay = first_delay;
  connected = false;
  written = [];
  waits = [];
}

-- The `catch` clauses; an exception that none of them takes leaves the method.
unfoldable pub catch_exception : {A : Type 0} → Exception → Subscriber A → Subscriber A
catch_exception unavailable s = record s {
  connected = false;
  waits = s.waits ++ s.delay ∷ [];
  delay = min (s.delay * 2) max_delay;
}
catch_exception cancelled s = record s { status = stopped; connected = false }
catch_exception unexpected s = record s { status = faulted }

-- A stream that opened: the flag is set and the delay is reset before its items are read.
unfoldable pub read_all : {A : Type 0} → List A → Subscriber A → Subscriber A
read_all items s = record s { connected = true; delay = first_delay; written = s.written ++ items }

unfoldable pub subscribe : {A : Type 0} → Turn A → Subscriber A → Subscriber A
unfolding catch_exception read_all
subscribe (at_call e) s = catch_exception e s
subscribe (on_stream items none) s = read_all items s
subscribe (on_stream items (some e)) s = catch_exception e (read_all items s)

-- The loop goes on while the service runs.
unfoldable pub turn_if : {A : Type 0} → Status → Turn A → Subscriber A → Subscriber A
unfolding subscribe
turn_if running t s = subscribe t s
turn_if stopped t s = s
turn_if faulted t s = s

unfoldable pub run : {A : Type 0} → List (Turn A) → Subscriber A → Subscriber A
unfolding turn_if
run [] s = s
run (t ∷ turns) s = run turns (turn_if s.status t s)
