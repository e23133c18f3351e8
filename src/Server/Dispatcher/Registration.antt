-- ===== src/Server/Dispatcher/Registration.antt =====
-- crates/conflux-server/src/dispatcher.rs, `register`: the gates in front of the registry.
use conflux_fl.Base.{
  ◌≡◌, ◌⊎◌, inl, inr, refl, true, false, Option, ok, err, Result-cases, Text, arith, ◌↔◌,
}
use conflux_fl.Net.{DispatchError}
use conflux_fl.Server.Auth.{IsAdmitted, verify_jwt_if_required, verify_jwt_if_required_iff}
use conflux_fl.Server.Dispatcher.{check_credentials, presented_identity, register, registered}
use conflux_fl.Server.State.{Environment, AppState}

module _ (env : Environment) where
  -- The call passes the gate of the token: mutual TLS is configured, whose transport has checked the
  -- client, or the token is a genuine one for this id, or it is a research deployment without a key. And
  -- where the deployment asks for it, the client is on the allow-list.
  abbrev pub IsCleared : Text → Text → Option Text → AppState env → Type 0
  IsCleared client_id auth_token fingerprint s =
      IsAdmitted env.jsonwebtoken s.config.mode s.config.auth s.jwt_key auth_token client_id
      × ((s.config.require_node_auth ≡ false)
          ⊎ (env.check client_id (presented_identity env auth_token fingerprint) s.node_allowlist
              ≡ ok true))

  check_credentials-verify :
      (client_id auth_token : Text) (fingerprint : Option Text) (s : AppState env)
      → (check_credentials env client_id auth_token fingerprint s ≡ ok tt) ↔ (
          (verify_jwt_if_required env.jsonwebtoken s.config.mode s.config.auth s.jwt_key auth_token
              client_id
            ≡ ok tt)
          × ((s.config.require_node_auth ≡ false)
              ⊎ (env.check client_id
                    (presented_identity env auth_token fingerprint)
                    s.node_allowlist
                  ≡ ok true)))
  unfolding check_credentials
  check_credentials-verify client_id auth_token fingerprint s = ground arith

  -- A node is registered only through both gates. If it is cleared, the registry decides, and an
  -- answer `accepted` comes from it alone; if it is not, the call is refused and the state, the
  -- registry included, is as it was.
  pub register-IsCleared :
      (client_id auth_token : Text) (fingerprint : Option Text) (s : AppState env)
      → (IsCleared client_id auth_token fingerprint s
          × (register env client_id auth_token fingerprint s ≡ (
            record s { registry = (env.register client_id s.registry).0 },
            registered env (env.register client_id s.registry).1,
          )))
        ⊎ ((e : DispatchError) × (register env client_id auth_token fingerprint s ≡ (s, err e))
            × (¬ IsCleared client_id auth_token fingerprint s))
  unfolding register
  register-IsCleared client_id auth_token fingerprint s =
      let gate = check_credentials-verify client_id auth_token fingerprint s in
      let own =
        verify_jwt_if_required_iff env.jsonwebtoken s.config.mode s.config.auth s.jwt_key auth_token
          client_id in
      elim (Result-cases (check_credentials env client_id auth_token fingerprint s)) [
        | inl (u, e) ↦
            let (genuine, listed) = gate.0 e in inl ((own.0 genuine, listed), rw (register, e) refl)
        | inr (why, e) ↦
            inr (why, rw (register, e) refl, λ c. (let e' = gate.1 (own.1 c.0, c.1) in cc))
      ]
