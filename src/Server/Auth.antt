-- ===== src/Server/Auth.antt =====
-- crates/conflux-server/src/auth_enforcement.rs: which credentials a deployment demands, at startup
-- and at each registration.
use conflux_fl.Base.{
  ◌≡◌, ◌≢◌, ◌⊎◌, inl, inr, refl, Bool, true, false, not, ◌&&◌, Option, none, some, arith, Result,
  ok, err, Result-cases, if◌then◌else◌, Text, ◌↔◌,
}
use conflux_fl.Config.{Mode, research, production, AuthMode, jwt, mtls}
use conflux_fl.Net.Jwt.{
  Jsonwebtoken, JwtAuthError, Claims, production_requires_jwt_key, verify_token,
  verify_token_for_client,
}

abbrev pub is_jwt : AuthMode → Bool
is_jwt jwt = true
is_jwt mtls = false

abbrev pub is_production : Mode → Bool
is_production production = true
is_production research = false

abbrev pub is_none {ℓ} : {A : Type ℓ} → Option A → Bool
is_none none = true
is_none (some a) = false

pub data AuthEnforcementError : Type 0 where
  production_requires_mtls_material : AuthEnforcementError

-- `TlsMaterial`, and the configuration that tonic builds of it.
module _ {Material Tls : Type 0} (server_tls_config : Material → Tls) where
  unfoldable pub resolve_server_tls :
      Mode → AuthMode → Option Material → Result AuthEnforcementError (Option Tls)
  resolve_server_tls mode auth material = if is_jwt auth then ok none else elim material [
    | some m ↦ ok (some (server_tls_config m))
    | none ↦ if is_production mode then err production_requires_mtls_material else ok none
  ]

module _ (jsonwebtoken : Jsonwebtoken) where
  open jsonwebtoken use {Key}

  unfoldable pub validate_jwt_startup :
      Mode → AuthMode → Option Key → Result JwtAuthError (Unit {0})
  validate_jwt_startup mode auth key =
      if is_jwt auth && is_none key && is_production mode
      then err production_requires_jwt_key
      else ok tt

  unfoldable pub verify_jwt_if_required :
      Mode → AuthMode → Option Key → Text → Text → Result JwtAuthError (Unit {0})
  unfolding verify_token_for_client
  verify_jwt_if_required mode auth key token client_id =
      if not (is_jwt auth) then ok tt else elim key [
        | some k ↦ elim (verify_token_for_client jsonwebtoken k token client_id) [
          | ok _ ↦ ok tt
          | err e ↦ err e
        ]
        | none ↦ if is_production mode then err production_requires_jwt_key else ok tt
      ]

  -- The reasons for which a caller gets in: identity is proved by the TLS layer, by a genuine token
  -- of its own, or the deployment is for research and has no key.
  abbrev pub IsAdmitted : Mode → AuthMode → Option Key → Text → Text → Type 0
  IsAdmitted mode auth key token client_id =
      (auth ≡ mtls)
      ⊎ ((k : Key) × (claims : Claims) × (key ≡ some k)
          × (jsonwebtoken.decode k token ≡ ok claims)
          × (claims.sub ≡ client_id))
      ⊎ ((auth ≡ jwt) × (key ≡ none) × (mode ≡ research))

  verify_token_for_client_iff :
      (k : Key) (token client_id : Text) (claims : Claims)
      → (verify_token_for_client jsonwebtoken k token client_id ≡ ok claims)
        ↔ ((jsonwebtoken.decode k token ≡ ok claims) × (claims.sub ≡ client_id))
  unfolding verify_token_for_client verify_token
  verify_token_for_client_iff k token client_id claims = ground arith

  admitted_token :
      (mode : Mode) (k : Key) (token client_id : Text)
      → IsAdmitted mode jwt (some k) token client_id
      → (claims : Claims) × (verify_token_for_client jsonwebtoken k token client_id ≡ ok claims)
  admitted_token mode k token client_id (inl e) = cc
  admitted_token mode k token client_id (inr (inl (k', claims, same, decoded, own))) =
      (claims, (verify_token_for_client_iff k token client_id claims).1 (cc, own))
  admitted_token mode k token client_id (inr (inr (_, e, _))) = cc

  -- No other way in: a registration passes the gate exactly for one of the three reasons.
  pub verify_jwt_if_required_iff :
      (mode : Mode) (auth : AuthMode) (key : Option Key) (token client_id : Text)
      → (verify_jwt_if_required mode auth key token client_id ≡ ok tt)
        ↔ IsAdmitted mode auth key token client_id
  unfolding verify_jwt_if_required
  verify_jwt_if_required_iff mode mtls key token client_id = (λ h. inl refl, λ a. refl)
  verify_jwt_if_required_iff research jwt none token client_id =
      (λ h. inr (inr (refl, refl, refl)), λ a. refl)
  verify_jwt_if_required_iff production jwt none token client_id = (λ h. cc, λ a. ground arith)
  verify_jwt_if_required_iff mode jwt (some k) token client_id =
      elim (Result-cases (verify_token_for_client jsonwebtoken k token client_id)) [
        | inl (claims, e) ↦
            let own = (verify_token_for_client_iff k token client_id claims).0 e in
            (λ h. inr (inl (k, claims, refl, own.0, own.1)), λ a. rw e refl)
        | inr (why, e) ↦ (
          λ h. absurd (ground arith),
          λ a. (let (claims, e') = admitted_token mode k token client_id a in absurd (cc)),
        )
      ]

  passed_on :
      (r : Result JwtAuthError Claims) (why : JwtAuthError)
      → ◌≡◌ {A = Result JwtAuthError (Unit {0})} (elim r [ ok _ ↦ ok tt | err e ↦ err e ]) (err why)
      → r ≡ err why
  passed_on (ok claims) why h = cc
  passed_on (err e) why h = cc

  verify_token_for_client-refusal :
      (k : Key) (token client_id : Text)
      → verify_token_for_client jsonwebtoken k token client_id ≢ err production_requires_jwt_key
  unfolding verify_token_for_client verify_token
  verify_token_for_client-refusal k token client_id = ground arith

  -- The startup check covers the refusal at registration: a deployment that was allowed to start never
  -- turns a client away for the lack of a key, in either mode and whatever the token.
  pub validate_jwt_startup-verify_jwt_if_required :
      (mode : Mode) (auth : AuthMode) (key : Option Key) (token client_id : Text)
      → validate_jwt_startup mode auth key ≡ ok tt
      → verify_jwt_if_required mode auth key token client_id ≢ err production_requires_jwt_key
  unfolding validate_jwt_startup verify_jwt_if_required
  validate_jwt_startup-verify_jwt_if_required mode mtls key token client_id h = λ e. cc
  validate_jwt_startup-verify_jwt_if_required research jwt none token client_id h = λ e. cc
  validate_jwt_startup-verify_jwt_if_required production jwt none token client_id h = cc
  validate_jwt_startup-verify_jwt_if_required mode jwt (some k) token client_id h = λ e.
      verify_token_for_client-refusal k token client_id (
        passed_on (verify_token_for_client jsonwebtoken k token client_id)
          production_requires_jwt_key e)
