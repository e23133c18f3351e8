-- ===== src/Server/AdminAuth.antt =====
-- crates/conflux-server/src/admin_auth.rs: the bearer token of the admin interface.
use conflux_fl.Base.{
  ℕ, ◌≡◌, ◌/◌, ◌^◌, ◌==◌, ◌⊎◌, refl, sym, ap, ap₂, ◌∙◌, inl, inr, Bool, true, Option, none, some,
  [], ◌∷◌, ◌++◌, Result, ok, err, Text, Bytes, text, Text-discrete, if◌then◌else◌, ite, arith, ◌↔◌,
  Bool-cases, Option-cases,
}
use mathlib.Core.Option
use conflux_fl.Registry.Allowlist.{constant_time_eq, constant_time_eq_iff}

-- An address of 32 or of 128 bits, as a number.
pub data IpAddr : Type 0 where
  v4 v6 : ℕ → IpAddr

pub record SocketAddr : Type 0 where
  pub ip : IpAddr
  pub port : ℕ

-- `is_loopback`: 127.0.0.0/8 and ::1.
unfoldable pub is_loopback : IpAddr → Bool
is_loopback (v4 a) = a / 2 ^ 24 == 127
is_loopback (v6 a) = a == 1

abbrev pub AdminToken : Type 0
AdminToken = Text

-- `AdminToken::matches`
unfoldable pub token_matches : AdminToken → Text → Bool
unfolding constant_time_eq
token_matches token candidate = constant_time_eq token candidate

-- `strip_prefix`
unfoldable pub strip_prefix : Text → Text → Option Text
strip_prefix [] s = some s
strip_prefix (p ∷ prefix) [] = none
strip_prefix (p ∷ prefix) (x ∷ s) =
    let rest = strip_prefix prefix s in if p == x then rest else none

cons-inj : {x y : ℕ} {a b : Text} → (x ∷ a) ≡ (y ∷ b) → (x ≡ y) × (a ≡ b)
cons-inj e = (cc, cc)

strip_prefix_iff : (prefix s r : Text) → (strip_prefix prefix s ≡ some r) ↔ (s ≡ prefix ++ r)
unfolding strip_prefix
strip_prefix_iff [] s r = (λ e. Option.some_inj.0 e, λ e. ap some e)
strip_prefix_iff (p ∷ prefix) [] r = (λ e. cc, λ e. cc)
strip_prefix_iff (p ∷ prefix) (x ∷ s) r = (
  λ e. elim (Bool-cases (p == x)) [
    | inl y ↦
        let same : p ≡ x = ground arith in
        let rest : strip_prefix prefix s ≡ some r = ground arith in
        ap₂ ◌∷◌ (sym same) ((strip_prefix_iff prefix s r).0 rest)
    | inr n ↦ absurd (ground arith)
  ],
  λ e.
      let (same, rest) = cons-inj e in
      let rest' = (strip_prefix_iff prefix s r).1 rest in ground arith,
)

-- A request: its path, and the first `Authorization` header.
pub record Request : Type 0 where
  pub path : Text
  pub authorization : Option Bytes

pub data AdminAuthError : Type 0 where
  exposed_without_token : Text → AdminAuthError

-- `StatusCode::UNAUTHORIZED`
abbrev pub unauthorized : ℕ
unauthorized = 401

-- The printing of an address, `HeaderValue::to_str` and the handlers behind the middleware.
module _ {Response : Type 0} (shown : SocketAddr → Text) (to_str : Bytes → Option Text)
    (next : Request → Response) where
  unfoldable pub validate_admin_binding :
      SocketAddr → Option AdminToken → Result AdminAuthError (Unit {0})
  unfolding is_loopback
  validate_admin_binding addr (some token) = ok tt
  validate_admin_binding addr none =
      if is_loopback addr.ip then ok tt else err (exposed_without_token (shown addr))

  unfoldable pub bearer : Request → Option Text
  unfolding strip_prefix
  bearer request = elim request.authorization [
    | none ↦ none
    | some value ↦ elim (to_str value) [ none ↦ none | some s ↦ strip_prefix (text "Bearer ") s ]
  ]

  unfoldable pub require_admin_token : Option AdminToken → Request → Result ℕ Response
  unfolding bearer token_matches Text-discrete
  require_admin_token token request =
      ite (Text-discrete request.path (text "/health")) (ok (next request)) (elim token [
        | none ↦ ok (next request)
        | some expected ↦ elim (bearer request) [
          | none ↦ err unauthorized
          | some presented ↦
              if token_matches expected presented then ok (next request) else err unauthorized
        ]
      ])

  -- Who may pass: a probe of the health route, anyone while the listener cannot be reached from
  -- beyond the machine and no token is set, and who presents the token.
  abbrev pub MayPass : SocketAddr → Option AdminToken → Request → Type 0
  MayPass addr token request =
      (request.path ≡ text "/health")
      ⊎ ((token ≡ none) × (is_loopback addr.ip ≡ true))
      ⊎ ((t : AdminToken) × (value : Bytes) × (token ≡ some t)
          × (request.authorization ≡ some value)
          × (to_str value ≡ some (text "Bearer " ++ t)))

  bearer_iff :
      (request : Request) (t : Text)
      → (bearer request ≡ some t) ↔ (
          (value : Bytes) × (request.authorization ≡ some value)
          × (to_str value ≡ some (text "Bearer " ++ t)))
  unfolding bearer
  bearer_iff request t = elim (Option-cases request.authorization) [
    | inl n ↦ (λ e. absurd (ground arith), λ f. let (value, found, _) = f in absurd (cc))
    | inr (value, found) ↦ elim (Option-cases (to_str value)) [
      | inl n ↦ (λ e. absurd (ground arith), λ f. let (value', found', shows) = f in absurd (cc))
      | inr (s, shows) ↦
          (let opened : bearer request ≡ strip_prefix (text "Bearer ") s =
              rw (found, bearer, shows) refl in
            (
              λ e. (
                value,
                found,
                shows ∙ ap some ((strip_prefix_iff (text "Bearer ") s t).0 (sym opened ∙ e)),
              ),
              λ f.
                  let (value', found', shows') = f in
                  let same : s ≡ text "Bearer " ++ t = cc in
                  opened ∙ (strip_prefix_iff (text "Bearer ") s t).1 same,
            ))
    ]
  ]

  MayPass-bearer :
      (addr : SocketAddr) (token : AdminToken) (request : Request)
      → ¬ (request.path ≡ text "/health")
      → MayPass addr (some token) request
      → bearer request ≡ some token
  MayPass-bearer addr token request other (inl p) = absurd (other p)
  MayPass-bearer addr token request other (inr (inl (e, _))) = cc
  MayPass-bearer addr token request other (inr (inr (t, value, same, header, shows))) =
      (bearer_iff request t).1 (value, header, shows) ∙ sym same

  -- The answer to a request for another route than `/health`, with a token set.
  presented-MayPass :
      (addr : SocketAddr) (token : AdminToken) (request : Request)
      → ¬ (request.path ≡ text "/health")
      → (MayPass addr (some token) request
          × (require_admin_token (some token) request ≡ ok (next request)))
        ⊎ ((¬ MayPass addr (some token) request)
            × (require_admin_token (some token) request ≡ err unauthorized))
  unfolding require_admin_token token_matches
  presented-MayPass addr token request other = elim (Option-cases (bearer request)) [
    | inl n ↦
        inr
          ((λ m. (let e = MayPass-bearer addr token request other m in absurd (cc))), ground arith)
    | inr (presented, found) ↦ elim (Bool-cases (constant_time_eq token presented)) [
      | inl y ↦
          let same : token ≡ presented = (constant_time_eq_iff token presented).0 y in
          let (value, header, shows) = (bearer_iff request token).0 (found ∙ ap some (sym same)) in
          inl (inr (inr (token, value, refl, header, shows)), ground arith)
      | inr n ↦ inr (
        (λ m.
            (let e = MayPass-bearer addr token request other m in
              let same : token ≡ presented = cc in
              let y = (constant_time_eq_iff token presented).1 same in absurd (cc))),
        ground arith,
      )
    ]
  ]

  -- A server that was allowed to start guards its admin interface: a request reaches a handler
  -- exactly if it is for `/health`, or no token is set and the listener is bound to loopback, or it
  -- presents exactly the token as a bearer. Every other request is answered with 401.
  pub require_admin_token-MayPass :
      (addr : SocketAddr) (token : Option AdminToken) (request : Request)
      → validate_admin_binding addr token ≡ ok tt
      → (MayPass addr token request × (require_admin_token token request ≡ ok (next request)))
        ⊎ ((¬ MayPass addr token request) × (require_admin_token token request ≡ err unauthorized))
  unfolding validate_admin_binding require_admin_token
  require_admin_token-MayPass addr none request h =
      inl (inr (inl (refl, ground arith)), ground arith)
  require_admin_token-MayPass addr (some token) request h =
      elim (Text-discrete request.path (text "/health")) [
        | yes p ↦ inl (inl p, ground arith)
        | no other ↦ presented-MayPass addr token request other
      ]
