-- ===== src/Server/Limiter.antt =====
-- api-server/Middleware/RateLimitMiddleware.cs: the sliding window of a client, and the middleware with
-- one window per client. Times are in ticks of 100 nanoseconds. Calls of one window are serialised by
-- its lock, so a row of requests is the order in which they hold it.
pub mod Decisions
pub mod Clients
pub mod Waiting
use aether_lens.Prelude.{
  ℕ, ◌-◌, Bool, true, false, Option, none, some, List, [], ◌∷◌, ◌++◌, length, Text, codes, text_eq,
  ltb, if◌then◌else◌,
}

-- `while (_timestamps.Count > 0 && _timestamps.Peek() < cutoff) _timestamps.Dequeue()`
unfoldable pub evict_before : ℕ → List ℕ → List ℕ
evict_before cutoff [] = []
evict_before cutoff (t ∷ q) =
    let rest = evict_before cutoff q in if ltb t cutoff then rest else t ∷ q

unfoldable pub evict : ℕ → ℕ → List ℕ → List ℕ
unfolding evict_before
evict now window q = evict_before (now - window) q

-- The answer, and the timestamps that are kept.
unfoldable pub try_consume : ℕ → ℕ → ℕ → List ℕ → Bool × List ℕ
unfolding evict
try_consume now limit window q =
    let kept = evict now window q in
    if ltb (length kept) limit then (true, kept ++ now ∷ []) else (false, kept)

-- `Math.Max(0, limit - _timestamps.Count)`, and the timestamps that are kept.
unfoldable pub remaining : ℕ → ℕ → ℕ → List ℕ → ℕ × List ℕ
unfolding evict
remaining now limit window q = (limit - length (evict now window q), evict now window q)

abbrev pub default_limit : ℕ
default_limit = 1000

-- One minute.
abbrev pub window_size : ℕ
window_size = 600_000_000

-- A request: whether its path starts with `/api`, its remote address and the time it is handled.
pub record Request : Type 0 where
  pub is_api : Bool
  pub remote_ip : Option Text
  pub now : ℕ

-- Passed on without a header, answered with status 429, or passed on with the remaining requests.
pub data Answer : Type 0 where
  passed too_many_requests : Answer
  admitted : ℕ → Answer

abbrev ip_of : Option Text → Text
ip_of none = codes "unknown"
ip_of (some ip) = ip

unfoldable pub client_key : Request → Text
client_key r = codes "ip:" ++ ip_of r.remote_ip

-- `_windows`: a client that is not there has an empty window.
abbrev pub Windows : Type 0
Windows = Text → List ℕ

unfoldable pub set_window : Text → List ℕ → Windows → Windows
set_window key q ws k = if text_eq k key then q else ws k

-- What is answered once the window has decided, and the window afterwards.
unfoldable pub answer : ℕ → Bool × List ℕ → Answer × List ℕ
unfolding remaining
answer now (false, q) = (too_many_requests, q)
answer now (true, q) =
    let (left, kept) = remaining now default_limit window_size q in (admitted left, kept)

unfoldable pub limit_request : Request → List ℕ → Answer × List ℕ
unfolding answer try_consume
limit_request r q = answer r.now (try_consume r.now default_limit window_size q)

unfoldable pub invoke : Request → Windows → Answer × Windows
unfolding limit_request client_key set_window
invoke r ws =
    if r.is_api
    then (let (given, q) = limit_request r (ws (client_key r)) in
        (given, set_window (client_key r) q ws))
    else (passed, ws)

-- The answers to a row of requests.
unfoldable pub run : List Request → Windows → List Answer
unfolding invoke
run [] ws = []
run (r ∷ rs) ws = let (given, next) = invoke r ws in given ∷ run rs next
