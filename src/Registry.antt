-- ===== src/Registry.antt =====
-- crates/conflux-registry/src/lib.rs: `InMemoryRegistry`, which clients exist and are alive. Every
-- method runs under the map's mutex. `Instant::now()` is an argument, and `duration_since` stops at
-- 0 as `-` does.
pub mod Lifecycle
pub mod Allowlist
use conflux_fl.Base.{
  ℕ, ◌-◌, Bool, Option, none, some, List, [], ◌∷◌, Result, ok, err, ltb, Text, Text-discrete,
}
use conflux_fl.Base.Dict.{get, insert, retain, keys}

abbrev pub ClientId : Type 0
ClientId = Text

pub data RegistryError : Type 0 where
  already_registered : ClientId → RegistryError
  not_registered : ClientId → RegistryError
  backend : Text → RegistryError

pub record ClientInfo : Type 0 where
  pub id : ClientId
  pub registered_at : ℕ
  pub last_heartbeat : ℕ

abbrev pub Registry : Type 0
Registry = List (ClientId × ClientInfo)

abbrev pub empty : Registry
empty = []

unfoldable pub register : ClientId → ℕ → Registry → Registry × Result RegistryError (Unit {0})
register id now clients = elim (get Text-discrete id clients) [
  | some _ ↦ (clients, err (already_registered id))
  | none ↦ (
    insert Text-discrete id (record { id = id; registered_at = now; last_heartbeat = now }) clients,
    ok tt,
  )
]

-- Writing through the reference that `get_mut` returns replaces the entry.
unfoldable pub heartbeat : ClientId → ℕ → Registry → Registry × Result RegistryError (Unit {0})
heartbeat id now clients = elim (get Text-discrete id clients) [
  | some info ↦ (insert Text-discrete id (record info { last_heartbeat = now }) clients, ok tt)
  | none ↦ (clients, err (not_registered id))
]

-- The test of the sweep.
abbrev pub is_alive : ℕ → ℕ → ClientInfo → Bool
is_alive ttl now info = ltb (now - info.last_heartbeat) ttl

unfoldable pub evict_expired : ℕ → ℕ → Registry → Registry
evict_expired ttl now clients = retain (is_alive ttl now) clients

unfoldable pub active_clients : Registry → Result RegistryError (List ClientId)
active_clients clients = ok (keys clients)
