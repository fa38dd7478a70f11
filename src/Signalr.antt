-- ===== src/Signalr.antt =====
-- web-dashboard/src/lib/signalr.ts, the hook `useSignalR`: its connection to the hub, and the
-- handlers that it registers. `HubConnection` is the SignalR library's: what it does is not modelled,
-- a connection is known by the order in which it was built, and each step takes the library's
-- answers, which connections are in the state `Disconnected`, as its argument `off`.
pub mod Accounts
pub mod Delivery
use aether_lens.Prelude.{
  ℕ, suc, ◌+◌, Bool, true, false, not, ◌&&◌, ◌||◌, Option, none, some, List, [], ◌∷◌, Text, codes,
  text_eq, ◌==◌, if◌then◌else◌,
}
use aether_lens.Camelize.{camelize}
use aether_lens.Endpoints.{Environment, hub_url}
use aether_lens.Wire.{HubCall, read_packets, read_process, read_suspicious, read_health}
use mathlib.Core.Option
use aether_lens.Store.{
  AetherState, Action, packets_added, process_upserted, anomaly_added, health_set, connected_set,
  act, set_connected,
}

-- What the builder is told of the connection; the protocol and the level of logging are the library's.
pub record Settings : Type 0 where
  pub url : Text
  pub automatic_reconnect : List ℕ

abbrev pub reconnect_delays : List ℕ
reconnect_delays = 0 ∷ 1000 ∷ 2000 ∷ 5000 ∷ 10_000 ∷ 15_000 ∷ 30_000 ∷ []

-- `buildConnection`, with the address that the module computed when it was loaded.
unfoldable pub build_connection : Environment → Settings
unfolding hub_url
build_connection environment = record {
  url = hub_url environment;
  automatic_reconnect = reconnect_delays;
}

-- The calls that the hook makes on the library.
pub data Call : Type 0 where
  built started stopped : ℕ → Call

pub record Client : Type 0 where
  pub connection : Option ℕ  -- `_connection`, of the module
  pub ref : Option ℕ  -- `connectionRef.current`
  pub has_cleanup : Bool  -- whether the effect returned its clean-up function
  pub next : ℕ  -- how many connections were built
  pub calls : List Call  -- latest first

unfoldable pub unmounted : Client
unmounted = record { connection = none; ref = none; has_cleanup = false; next = 0; calls = [] }

-- `connection.state !== HubConnectionState.Disconnected` of a connection that may be null.
unfoldable pub is_active : (ℕ → Bool) → Option ℕ → Bool
is_active off none = false
is_active off (some i) = not (off i)

abbrev stop_if_active : (ℕ → Bool) → ℕ → Client → Client
stop_if_active off i c = if off i then c else record c { calls = stopped i ∷ c.calls }

-- `stopSignalRConnection`
stop_from : (ℕ → Bool) → Option ℕ → Client → Client
stop_from off none c = c
stop_from off (some i) c = stop_if_active off i (record c { connection = none })

unfoldable pub stop_signalr : (ℕ → Bool) → Client → Client
unfolding stop_from
stop_signalr off c = stop_from off c.connection c

-- The tail of the effect: a new connection, kept in the module and in the hook, and started if the
-- library has it disconnected, as it has each new one.
connect : (ℕ → Bool) → Client → Client
connect off c =
    let i = c.next in
    let built_one = built i ∷ c.calls in
    record {
      connection = some i;
      ref = some i;
      has_cleanup = true;
      next = i + 1;
      calls = if off i then started i ∷ built_one else built_one;
    }

-- The effect.
unfoldable pub mount : (ℕ → Bool) → Client → Client
unfolding connect is_active
mount off c = if is_active off c.connection then record c { has_cleanup = false } else connect off c

is_connection : Option ℕ → ℕ → Bool
is_connection none i = false
is_connection (some j) i = j == i

-- The clean-up function of the effect.
release : (ℕ → Bool) → Option ℕ → Client → Client
unfolding is_connection stop_signalr
release off none c = c
release off (some i) c =
    if is_connection c.connection i then stop_signalr off c else stop_if_active off i c

unfoldable pub unmount : (ℕ → Bool) → Client → Client
unfolding release
unmount off c =
    if c.has_cleanup then release off c.ref (record c { ref = none; has_cleanup = false }) else c

-- What happens to the hook: it is mounted, it is unmounted, or the exported stop is called.
pub data Operation : Type 0 where
  mounts unmounts stops : Operation

unfoldable pub step : (ℕ → Bool) → Operation → Client → Client
unfolding mount unmount stop_signalr
step off mounts c = mount off c
step off unmounts c = unmount off c
step off stops c = stop_signalr off c

unfoldable pub run : List ((ℕ → Bool) × Operation) → Client → Client
unfolding step
run [] c = c
run ((off, op) ∷ ops) c = run ops (step off op c)

-- The four handlers, by the name of the method. Any other call has no handler.
unfoldable pub receive : HubCall → Option Action
receive call =
    let v = camelize call.raw in
    if text_eq call.method (codes "ReceivePackets")
    then Option.map packets_added (read_packets v)
    else if text_eq call.method (codes "ReceiveProcessStats")
    then Option.map process_upserted (read_process v)
    else if text_eq call.method (codes "ReceiveHealth")
    then Option.map health_set (read_health v)
    else if text_eq call.method (codes "ReceiveAnomaly")
    then Option.map anomaly_added (read_suspicious v)
    else none

-- What the library reports of a connection's life.
pub data Report : Type 0 where
  start_succeeded reconnecting reconnected closed : Report
  start_failed : Text → Report

unfoldable pub on_report : Report → AetherState → AetherState
on_report start_succeeded state = set_connected true state
on_report reconnecting state = set_connected false state
on_report reconnected state = set_connected true state
on_report closed state = set_connected false state
on_report (start_failed msg) state = state

starts_with : Text → Text → Bool
starts_with s [] = true
starts_with [] (d ∷ t) = false
starts_with (c ∷ s) (d ∷ t) = c == d && starts_with s t

-- `s.includes(t)`
unfoldable pub includes : Text → Text → Bool
unfolding starts_with
includes [] t = starts_with [] t
includes (c ∷ s) t = starts_with (c ∷ s) t || includes s t

-- Whether a failed start is written to the browser's console.
unfoldable pub is_logged : Text → Bool
unfolding includes
is_logged msg = not (includes msg (codes "stopped during negotiation"))
