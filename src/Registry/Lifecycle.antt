-- ===== src/Registry/Lifecycle.antt =====
-- The registry against what a client's own history says of it.
use conflux_fl.Base.{
  ℕ, ◌-◌, ◌≡◌, ◌≢◌, ◌↔◌, refl, sym, ap, ◌∙◌, inl, inr, ite, Option, none, some, List, [], ◌∷◌,
  Nodup, Mem, arith, ltb, if◌then◌else◌, ok, Text-discrete, Option-cases,
}
use conflux_fl.Base.Dict.{
  get, keys, IsMap, get-insert, get-retain, insert-IsMap, retain-IsMap, keys-Nodup, mem-keys_iff,
}
use conflux_fl.Registry.{
  ClientId, ClientInfo, Registry, empty, register, heartbeat, evict_expired, active_clients,
  is_alive,
}

-- A call of the registry, at a time.
pub data Call : Type 0 where
  registers heartbeats : ClientId → ℕ → Call
  sweeps : ℕ → ℕ → Call

unfoldable pub step : Registry → Call → Registry
step r (registers id now) = (register id now r).0
step r (heartbeats id now) = (heartbeat id now r).0
step r (sweeps ttl now) = evict_expired ttl now r

unfoldable pub run : Registry → List Call → Registry
run r [] = r
run r (c ∷ cs) = run (step r c) cs

-- What one client's own calls and the sweeps make of it: when it first registered and when it was
-- last heard of, or nothing while it is unknown.
abbrev pub Seen : Type 0
Seen = Option (ℕ × ℕ)

admit : ℕ → Seen → Seen
admit now none = some (now, now)
admit now (some s) = some s

hear : ℕ → Seen → Seen
hear now none = none
hear now (some (since, last)) = some (since, now)

expire : ℕ → ℕ → Seen → Seen
expire ttl now none = none
expire ttl now (some (since, last)) = if ltb (now - last) ttl then some (since, last) else none

note : ClientId → Seen → Call → Seen
unfolding admit hear expire
note id s (registers j now) = ite (Text-discrete j id) (admit now s) s
note id s (heartbeats j now) = ite (Text-discrete j id) (hear now s) s
note id s (sweeps ttl now) = expire ttl now s

unfoldable pub history : ClientId → Seen → List Call → Seen
unfolding note
history id s [] = s
history id s (c ∷ cs) = history id (note id s c) cs

-- What the registry knows of a client.
abbrev pub times : Option ClientInfo → Seen
times none = none
times (some info) = some (info.registered_at, info.last_heartbeat)

abbrev fresh : ClientId → ℕ → ClientInfo
fresh id now = record { id = id; registered_at = now; last_heartbeat = now }

step-IsMap : (r : Registry) (c : Call) → IsMap Text-discrete r → IsMap Text-discrete (step r c)
unfolding step register heartbeat evict_expired
step-IsMap r (registers id now) m = ground (arith, insert-IsMap Text-discrete id (fresh id now) r m)
step-IsMap r (heartbeats id now) m = elim (Option-cases (get Text-discrete id r)) [
  | inl e ↦ rw (e, step, heartbeat) m
  | inr (info, e) ↦ rw (e, step, heartbeat) (insert-IsMap Text-discrete id _ r m)
]
step-IsMap r (sweeps ttl now) m = retain-IsMap Text-discrete _ r m

step-note :
    (id : ClientId) (r : Registry) (c : Call)
    → IsMap Text-discrete r
    → times (get Text-discrete id (step r c)) ≡ note id (times (get Text-discrete id r)) c
unfolding step register heartbeat evict_expired note
step-note id r (registers j now) m = ground (arith, get-insert Text-discrete j id (fresh j now) r)
step-note id r (heartbeats j now) m = elim (Option-cases (get Text-discrete j r)) [
  | inl e ↦ ground arith
  | inr (info, e) ↦
      ground (arith, get-insert Text-discrete j id (record info { last_heartbeat = now }) r)
]
step-note id r (sweeps ttl now) m =
    ground (arith, get-retain Text-discrete (is_alive ttl now) id r m)

run-history_from :
    (id : ClientId) (r : Registry) (cs : List Call)
    → IsMap Text-discrete r
    → times (get Text-discrete id (run r cs)) ≡ history id (times (get Text-discrete id r)) cs
unfolding run history
run-history_from id r [] m = refl
run-history_from id r (c ∷ cs) m =
    run-history_from id (step r c) cs (step-IsMap r c m)
    ∙ ap (λ s. history id s cs) (step-note id r c m)

run-IsMap : (r : Registry) (cs : List Call) → IsMap Text-discrete r → IsMap Text-discrete (run r cs)
unfolding run
run-IsMap r [] m = m
run-IsMap r (c ∷ cs) m = run-IsMap (step r c) cs (step-IsMap r c m)

-- The shared map keeps the clients apart: after any calls, by any clients, at any times, what it
-- holds of a client is what that client's own registrations and heartbeats and the sweeps make of
-- it.
pub run-history :
    (id : ClientId) (cs : List Call)
    → times (get Text-discrete id (run empty cs)) ≡ history id none cs
unfolding get
run-history id cs = run-history_from id empty cs tt

times-eq-none : (o : Option ClientInfo) → (times o ≡ none) ↔ (o ≡ none)
times-eq-none none = (λ _. refl, λ _. refl)
times-eq-none (some info) = (λ h. cc, λ h. cc)

-- `active_clients` always answers, names no client twice, and names exactly the clients whose own
-- history leaves them registered.
pub active_clients_lem :
    (cs : List Call)
    → (ids : List ClientId) × (active_clients (run empty cs) ≡ ok ids)
      × Nodup ids
      × ((id : ClientId) → Mem id ids ↔ (history id none cs ≢ none))
unfolding active_clients
active_clients_lem cs =
    let m = run-IsMap empty cs tt in
    (keys (run empty cs), refl, keys-Nodup Text-discrete (run empty cs) m, member)
  where
    member : (id : ClientId) → Mem id (keys (run empty cs)) ↔ (history id none cs ≢ none)
    member id = (
      λ h e.
          (mem-keys_iff Text-discrete id (run empty cs)).0 h
            ((times-eq-none _).0 (run-history id cs ∙ e)),
      λ n.
          (mem-keys_iff Text-discrete id (run empty cs)).1
            (λ e. n (sym (run-history id cs) ∙ ap times e)),
    )
