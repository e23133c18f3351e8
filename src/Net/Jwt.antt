-- ===== src/Net/Jwt.antt =====
-- crates/conflux-net/src/jwt.rs: what a token must prove, over the `jsonwebtoken` crate's `decode`,
-- which checks the signature, the pinned algorithm and the expiry.
use conflux_fl.Base.{Result, ok, err, ◌>>=◌, Text, Text-discrete, ite}

-- The payload that is read: the subject.
pub record Claims : Type 0 where
  pub sub : Text

pub data JwtAuthError : Type 0 where
  unusable_key : Text → JwtAuthError
  expired bad_signature : JwtAuthError
  -- expected, presented
  wrong_algorithm : Text → Text → JwtAuthError
  malformed : Text → JwtAuthError
  -- token_sub, client_id
  subject_mismatch : Text → Text → JwtAuthError
  production_requires_jwt_key : JwtAuthError

-- `jsonwebtoken::errors::ErrorKind`; any other kind with its message.
pub data ErrorKind : Type 0 where
  expired_signature invalid_signature invalid_algorithm : ErrorKind
  another_kind : Text → ErrorKind

-- The `jsonwebtoken` crate and the key that was loaded.
pub record Jsonwebtoken : Type 1 where
  pub Key : Type 0
  pub algorithm : Key → Text
  pub decode : Key → Text → Result ErrorKind Claims
  -- The algorithm that the token's header names, for the message only.
  pub presented_algorithm : Text → Text

module _ (jwt : Jsonwebtoken) where
  open jwt use {Key, algorithm, decode, presented_algorithm}

  unfoldable pub verify_token : Key → Text → Result JwtAuthError Claims
  verify_token key token = elim (decode key token) [
    | ok claims ↦ ok claims
    | err kind ↦ elim kind [
      | expired_signature ↦ err expired
      | invalid_signature ↦ err bad_signature
      | invalid_algorithm ↦ err (wrong_algorithm (algorithm key) (presented_algorithm token))
      | another_kind message ↦ err (malformed message)
    ]
  ]

  unfoldable pub verify_token_for_client : Key → Text → Text → Result JwtAuthError Claims
  unfolding verify_token Text-discrete
  verify_token_for_client key token client_id = do
    claims ← verify_token key token
    ite (Text-discrete claims.sub client_id) (ok claims)
        (err (subject_mismatch claims.sub client_id))
