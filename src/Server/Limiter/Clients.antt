-- ===== src/Server/Limiter/Clients.antt =====
-- The answers of api-server/Middleware/RateLimitMiddleware.cs to the requests of one client.
use aether_lens.Prelude.{
  ℕ, ◌-◌, ◌≡◌, ◌⊎◌, refl, ap, ap₂, sym, ◌∙◌, Bool, true, false, true≢false, List, [], ◌∷◌, ◌++◌,
  length, arith, ltb, Bool-cases, inl, inr, if◌then◌else◌, Text, text_eq, text_eq_iff, text_eq_refl,
}
use aether_lens.Server.Limiter.{
  Request, Answer, passed, too_many_requests, Windows, client_key, set_window, default_limit,
  window_size, evict_before, evict, try_consume, remaining, answer, limit_request, invoke, run,
}
use aether_lens.Server.Limiter.Decisions.{
  Ordered, evict_before-twice, evict_before-append, consume_all, reference, consume_all-reference,
}

abbrev pub is_accepted : Answer → Bool
is_accepted too_many_requests = false
is_accepted _ = true

-- Whether a request is limited as one of the client.
abbrev pub concerns : Text → Request → Bool
concerns key r = if r.is_api then text_eq (client_key r) key else false

-- The times of a client's requests, and which of the answers to them accept.
abbrev pub times_of : Text → List Request → List ℕ
times_of key [] = []
times_of key (r ∷ rs) = let rest = times_of key rs in if concerns key r then r.now ∷ rest else rest

abbrev pub decisions_of : Text → List Request → List Answer → List Bool
decisions_of key [] answers = []
decisions_of key (r ∷ rs) [] = []
decisions_of key (r ∷ rs) (a ∷ answers) =
    let rest = decisions_of key rs answers in if concerns key r then is_accepted a ∷ rest else rest

-- Counting what remains keeps the window that the decision left.
answer-try_consume :
    (now : ℕ) (q : List ℕ)
    → let decided = try_consume now default_limit window_size q in
      (is_accepted ((answer now decided).0) ≡ decided.0) × ((answer now decided).1 ≡ decided.1)
unfolding answer try_consume remaining evict
answer-try_consume now q =
    let w = now - window_size in
    elim (Bool-cases (ltb (length (evict_before w q)) default_limit)) [
      | inl e ↦ rw e (
        refl,
        evict_before-append w now (evict_before w q) (omega arith)
            ∙ ap (λ (k : List ℕ). k ++ now ∷ []) (evict_before-twice w w q (omega arith)),
      )
      | inr e ↦ rw e (refl, refl)
    ]

set_window-same : (key : Text) (q : List ℕ) (ws : Windows) → set_window key q ws key ≡ q
unfolding set_window
set_window-same key q ws = rw (text_eq_refl key)

text_eq_comm : (s t : Text) → text_eq s t ≡ false → text_eq t s ≡ false
text_eq_comm s t e = elim (Bool-cases (text_eq t s)) [
  | inl h ↦
      absurd
        (true≢false (sym (text_eq_refl s) ∙ (ap (text_eq s) (sym ((text_eq_iff t s).0 h)) ∙ e)))
  | inr h ↦ h
]

set_window-other :
    (key other : Text) (q : List ℕ) (ws : Windows)
    → text_eq key other ≡ false
    → set_window key q ws other ≡ ws other
unfolding set_window
set_window-other key other q ws e = rw (text_eq_comm key other e)

invoke-api :
    (r : Request) (ws : Windows)
    → r.is_api ≡ true
    → let (given, q) = limit_request r (ws (client_key r)) in
      invoke r ws ≡ (given, set_window (client_key r) q ws)
unfolding invoke
invoke-api r ws api = rw api

invoke-skip : (r : Request) (ws : Windows) → r.is_api ≡ false → invoke r ws ≡ (passed, ws)
unfolding invoke
invoke-skip r ws skip = rw skip

limit_request-try_consume :
    (r : Request) (q : List ℕ)
    → let decided = try_consume r.now default_limit window_size q in
      (is_accepted ((limit_request r q).0) ≡ decided.0) × ((limit_request r q).1 ≡ decided.1)
unfolding limit_request
limit_request-try_consume r q = answer-try_consume r.now q

-- A request of the client is decided by the client's window.
invoke-own :
    (key : Text) (r : Request) (ws : Windows)
    → r.is_api ≡ true
    → client_key r ≡ key
    → let decided = try_consume r.now default_limit window_size (ws key) in
      (is_accepted (invoke r ws).0 ≡ decided.0) × ((invoke r ws).1 key ≡ decided.1)
invoke-own key r ws api same =
    let decided = limit_request-try_consume r (ws key) in
    rw (invoke-api r ws api, same)
      (decided.0, set_window-same key (limit_request r (ws key)).1 ws ∙ decided.1)

-- Any other request leaves the client's window as it is.
invoke-other :
    (key : Text) (r : Request) (ws : Windows)
    → concerns key r ≡ false
    → (invoke r ws).1 key ≡ ws key
invoke-other key r ws e = elim (Bool-cases r.is_api) [
  | inl api ↦ rw (invoke-api r ws api) (
      set_window-other (client_key r) key (limit_request r (ws (client_key r))).1 ws
        (ap (λ (b : Bool). if b then text_eq (client_key r) key else false) (sym api) ∙ e))
  | inr skip ↦ rw (invoke-skip r ws skip)
]

concerns-split :
    (key : Text) (r : Request)
    → ((r.is_api ≡ true) × (client_key r ≡ key) × (concerns key r ≡ true))
      ⊎ (concerns key r ≡ false)
unfolding client_key
concerns-split key r = elim (Bool-cases r.is_api) [
  | inl api ↦ elim (Bool-cases (text_eq (client_key r) key)) [
    | inl e ↦ inl (api, (text_eq_iff (client_key r) key).0 e, rw api e)
    | inr e ↦ inr (rw api e)
  ]
  | inr skip ↦ inr (rw skip)
]

decisions_of-run :
    (key : Text) (rs : List Request) (ws : Windows)
    → decisions_of key rs (run rs ws)
      ≡ consume_all default_limit window_size (ws key) (times_of key rs)
unfolding run consume_all
decisions_of-run key [] ws = refl
decisions_of-run key (r ∷ rs) ws =
    let later = decisions_of-run key rs (invoke r ws).1 in
    let and_from = λ (q : List ℕ). consume_all default_limit window_size q (times_of key rs) in
    elim (concerns-split key r) [
      | inl (api, same, own) ↦
          let mine = invoke-own key r ws api same in
          rw own (ap₂ (λ (b : Bool) (bs : List Bool). b ∷ bs) mine.0 (later ∙ ap and_from mine.1))
      | inr other ↦ rw other (later ∙ ap and_from (invoke-other key r ws other))
    ]

-- The start of the server: no client has a window.
abbrev pub no_windows : Windows
no_windows key = []

-- Of the API requests of a client, handled at times that do not decrease, exactly those are accepted
-- before which fewer than 1000 of the same client were accepted in the last minute; the requests of
-- other clients and those outside the API change nothing about it.
pub decisions_of-reference :
    (key : Text) (rs : List Request)
    → Ordered 0 (times_of key rs)
    → decisions_of key rs (run rs no_windows)
      ≡ reference default_limit window_size [] (times_of key rs)
decisions_of-reference key rs o =
    decisions_of-run key rs no_windows
    ∙ consume_all-reference default_limit window_size (times_of key rs) o
