-- ===== src/Engine/Processes/Names.antt =====
-- The names that core-engine/src/network/process_map.rs gives after its tables were refreshed.

use aether_lens.Prelude.{
  ℕ, ◌≡◌, refl, ap, sym, ◌∙◌, true, ◌&&◌, Bool-cases, inl, inr, ==_iff, Option, none, some, List,
  [], ◌∷◌, Text, ltb, ◌==◌, if◌then◌else◌, arith,
}
use aether_lens.Engine.Processes.{
  ProcessCache, Row, port_of, or_else, insert_port, cache_name, refresh_row, refresh, name_of_pid,
  get_process_name,
}

-- The process of a port: that of the last row with the port and a process, or the one before.
abbrev pub owner : ℕ → List Row → Option ℕ → Option ℕ
owner port [] before = before
owner port (row ∷ rows) before =
    owner port rows
      (if ltb 0 row.owning_pid && port == port_of row then some row.owning_pid else before)

-- The name of a process by the cache or, failing that, by the operating system.
abbrev pub known_name : (ℕ → Option Text) → ProcessCache → ℕ → Option Text
known_name name_of c pid = or_else (c.name_cache pid) (name_of pid)

refresh_row-owner :
    (name_of : ℕ → Option Text) (protocol port : ℕ) (row : Row) (c : ProcessCache)
    → (refresh_row name_of protocol row c).port_map protocol port ≡ (
        if ltb 0 row.owning_pid && port == port_of row
        then some row.owning_pid
        else c.port_map protocol port)
unfolding refresh_row
refresh_row-owner name_of protocol port row c = ground arith

or_else-or_else : (a b : Option Text) → or_else (or_else a b) b ≡ or_else a b
or_else-or_else none none = refl
or_else-or_else none (some b) = refl
or_else-or_else (some a) b = refl

cache_name-known_name :
    (name_of : ℕ → Option Text) (owned pid : ℕ) (c : ProcessCache)
    → known_name name_of (cache_name name_of owned c) pid ≡ known_name name_of c pid
unfolding cache_name
cache_name-known_name name_of owned pid c = elim (Bool-cases (pid == owned)) [
  | inl same ↦
      let e = (==_iff pid owned).0 same in
      rw (same, sym e) (or_else-or_else (c.name_cache pid) (name_of pid))
  | inr other ↦ rw other
]

refresh_row-known_name :
    (name_of : ℕ → Option Text) (protocol pid : ℕ) (row : Row) (c : ProcessCache)
    → known_name name_of (refresh_row name_of protocol row c) pid ≡ known_name name_of c pid
unfolding refresh_row insert_port
refresh_row-known_name name_of protocol pid row c = elim (Bool-cases (ltb 0 row.owning_pid)) [
  | inl owned ↦ rw owned (
      cache_name-known_name name_of row.owning_pid pid
        (insert_port protocol (port_of row) row.owning_pid c))
  | inr idle ↦ rw idle
]

refresh-owner :
    (name_of : ℕ → Option Text) (protocol port : ℕ) (rows : List Row) (c : ProcessCache)
    → (refresh name_of protocol (some rows) c).port_map protocol port
      ≡ owner port rows (c.port_map protocol port)
unfolding refresh
refresh-owner name_of protocol port [] c = refl
refresh-owner name_of protocol port (row ∷ rows) c =
    refresh-owner name_of protocol port rows (refresh_row name_of protocol row c)
    ∙ ap (owner port rows) (refresh_row-owner name_of protocol port row c)

refresh-known_name :
    (name_of : ℕ → Option Text) (protocol pid : ℕ) (rows : List Row) (c : ProcessCache)
    → known_name name_of (refresh name_of protocol (some rows) c) pid ≡ known_name name_of c pid
unfolding refresh
refresh-known_name name_of protocol pid [] c = refl
refresh-known_name name_of protocol pid (row ∷ rows) c =
    refresh-known_name name_of protocol pid rows (refresh_row name_of protocol row c)
    ∙ refresh_row-known_name name_of protocol pid row c

-- The name of the owner, where there is one.
abbrev pub named : (ℕ → Option Text) → Option ℕ → Option Text
named name none = none
named name (some pid) = name pid

name_of_pid-named :
    (name_of : ℕ → Option Text) (pid : Option ℕ) (c : ProcessCache)
    → (name_of_pid true name_of pid c).0 ≡ named (known_name name_of c) pid
unfolding name_of_pid
name_of_pid-named name_of none c = refl
name_of_pid-named name_of (some pid) c = refl

named-refresh :
    (name_of : ℕ → Option Text) (protocol : ℕ) (rows : List Row) (c : ProcessCache) (pid : Option ℕ)
    → named (known_name name_of (refresh name_of protocol (some rows) c)) pid
      ≡ named (known_name name_of c) pid
named-refresh name_of protocol rows c none = refl
named-refresh name_of protocol rows c (some pid) = refresh-known_name name_of protocol pid rows c

-- On Windows, after a table was read, a port has the name of the process of the last row with the
-- port that has a process, or of the one that was known before; the name is the one that the cache
-- had for the process, however old, and only else the operating system's, as long as that stays.
pub get_process_name-refresh :
    (name_of : ℕ → Option Text) (protocol port : ℕ) (rows : List Row) (c : ProcessCache)
    → (get_process_name true name_of protocol port (refresh name_of protocol (some rows) c)).0
      ≡ named (known_name name_of c) (owner port rows (c.port_map protocol port))
unfolding get_process_name
get_process_name-refresh name_of protocol port rows c =
    name_of_pid-named name_of _ (refresh name_of protocol (some rows) c)
    ∙ (named-refresh name_of protocol rows c _
        ∙ ap (named (known_name name_of c)) (refresh-owner name_of protocol port rows c))
