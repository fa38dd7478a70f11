-- ===== src/Engine/Processes.antt =====
-- `ProcessCache` of core-engine/src/network/process_map.rs: which process has a local port. The table
-- of the operating system's connections and the names of its processes are arguments; elsewhere than
-- on Windows the tables are never refreshed.
pub mod Names
use aether_lens.Prelude.{
  ℕ, ◌+◌, ◌*◌, ◌/◌, ◌%◌, Bool, true, false, ◌&&◌, Option, none, some, List, [], ◌∷◌, Text, ltb,
  ◌==◌, if◌then◌else◌,
}

-- The maps of ports, by protocol number and port, and of names, by process.
pub record ProcessCache : Type 0 where
  pub port_map : ℕ → ℕ → Option ℕ
  pub name_cache : ℕ → Option Text

abbrev pub new_cache : ProcessCache
new_cache = record { port_map = λ _ _. none; name_cache = λ _. none }

-- A row of the table: the port as it stands there, and the process that owns it.
pub record Row : Type 0 where
  pub local_port : ℕ
  pub owning_pid : ℕ

-- `u16::from_be(row.dwLocalPort as u16)`: the low 16 bits with their bytes swapped.
unfoldable pub port_of : Row → ℕ
port_of row = row.local_port % 256 * 256 + row.local_port / 256 % 256

abbrev or_else {ℓ} : {A : Type ℓ} → Option A → Option A → Option A
or_else none b = b
or_else (some a) b = some a

unfoldable pub insert_port : ℕ → ℕ → ℕ → ProcessCache → ProcessCache
insert_port protocol port pid c = record c {
  port_map = λ q k. if q == protocol && k == port then some pid else c.port_map q k;
}

-- A name is asked for only if none is there, and kept if there is one.
unfoldable pub cache_name : (ℕ → Option Text) → ℕ → ProcessCache → ProcessCache
cache_name name_of pid c = record c {
  name_cache = λ p. if p == pid then or_else (c.name_cache pid) (name_of pid) else c.name_cache p;
}

-- One row of `refresh_tcp` (protocol 6) or `refresh_udp` (17).
unfoldable pub refresh_row : (ℕ → Option Text) → ℕ → Row → ProcessCache → ProcessCache
unfolding port_of insert_port cache_name
refresh_row name_of protocol row c =
    if ltb 0 row.owning_pid
    then cache_name name_of row.owning_pid (insert_port protocol (port_of row) row.owning_pid c)
    else c

-- `none` is a table that could not be read.
unfoldable pub refresh : (ℕ → Option Text) → ℕ → Option (List Row) → ProcessCache → ProcessCache
unfolding refresh_row
refresh name_of protocol none c = c
refresh name_of protocol (some []) c = c
refresh name_of protocol (some (row ∷ rows)) c =
    refresh name_of protocol (some rows) (refresh_row name_of protocol row c)

-- The name of a process of the cache, or on Windows of the operating system, which is then kept.
name_of_pid : Bool → (ℕ → Option Text) → Option ℕ → ProcessCache → Option Text × ProcessCache
unfolding cache_name
name_of_pid windows name_of none c = (none, c)
name_of_pid false name_of (some pid) c = (c.name_cache pid, c)
name_of_pid true name_of (some pid) c =
    (or_else (c.name_cache pid) (name_of pid), cache_name name_of pid c)

unfoldable pub get_process_name :
    Bool → (ℕ → Option Text) → ℕ → ℕ → ProcessCache → Option Text × ProcessCache
unfolding name_of_pid
get_process_name windows name_of protocol port c =
    name_of_pid windows name_of (c.port_map protocol port) c
