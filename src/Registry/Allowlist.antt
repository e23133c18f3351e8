-- ===== src/Registry/Allowlist.antt =====
-- crates/conflux-registry/src/node_allowlist.rs: `InMemoryNodeAllowlist` and the comparison of
-- credentials.
use conflux_fl.Base.{
  ℕ, ◌≡◌, ◌↔◌, inl, inr, refl, ap, ap₂, ◌∙◌, Bool, true, false, Option, none, some, List, [], ◌∷◌,
  arith, length, Bytes, Result, ok, ◌==◌, if◌then◌else◌, Text, Text-discrete, Option-cases, ite,
  not,
}
use conflux_fl.Base.Bits.{bit_or-eq-zero, bit_xor-eq-zero_iff}
use conflux_fl.Base.Dict.{get, insert, remove, keys, get-insert, get-remove}
use conflux_fl.Registry.{ClientId}
use Prim.Native.Nat.{bit_or, bit_xor}

pub data NodeIdentity : Type 0 where
  cert_fingerprint shared_token : Text → NodeIdentity

-- The loop `for (x, y) in a.iter().zip(b) { diff |= x ^ y }`.
unfoldable pub fold_diff : Bytes → Bytes → ℕ → ℕ
fold_diff [] b diff = diff
fold_diff (x ∷ a) [] diff = diff
fold_diff (x ∷ a) (y ∷ b) diff = fold_diff a b (bit_or diff (bit_xor x y))

unfoldable pub constant_time_eq : Bytes → Bytes → Bool
unfolding fold_diff
constant_time_eq a b = if not (length a == length b) then false else fold_diff a b 0 == 0

unfoldable pub matches : NodeIdentity → NodeIdentity → Bool
unfolding constant_time_eq
matches (cert_fingerprint a) (cert_fingerprint b) = constant_time_eq a b
matches (shared_token a) (shared_token b) = constant_time_eq a b
matches (cert_fingerprint a) (shared_token b) = false
matches (shared_token a) (cert_fingerprint b) = false

pub data NodeAuthError : Type 0 where
  not_allowed : ClientId → NodeAuthError
  backend : Text → NodeAuthError

abbrev pub NodeAllowlist : Type 0
NodeAllowlist = List (ClientId × NodeIdentity)

unfoldable pub allow :
    ClientId → NodeIdentity → NodeAllowlist → NodeAllowlist × Result NodeAuthError (Unit {0})
allow id identity entries = (insert Text-discrete id identity entries, ok tt)

unfoldable pub revoke : ClientId → NodeAllowlist → NodeAllowlist × Result NodeAuthError (Unit {0})
revoke id entries = (remove Text-discrete id entries, ok tt)

-- `entries.get(id).is_some_and(|stored| stored.matches(presented))`
unfoldable pub check : ClientId → NodeIdentity → NodeAllowlist → Result NodeAuthError Bool
unfolding matches
check id presented entries = elim (get Text-discrete id entries) [
  | none ↦ ok false
  | some stored ↦ ok (matches stored presented)
]

unfoldable pub list : NodeAllowlist → Result NodeAuthError (List ClientId)
list entries = ok (keys entries)

fold_diff-eq-zero :
    (a b : Bytes) (diff : ℕ) → length a ≡ length b → fold_diff a b diff ≡ 0 → (diff ≡ 0) × (a ≡ b)
unfolding fold_diff
fold_diff-eq-zero [] [] diff e h = (h, refl)
fold_diff-eq-zero [] (y ∷ b) diff e h = absurd (omega arith)
fold_diff-eq-zero (x ∷ a) [] diff e h = absurd (omega arith)
fold_diff-eq-zero (x ∷ a) (y ∷ b) diff e h =
    let rest = fold_diff-eq-zero a b (bit_or diff (bit_xor x y)) (omega arith) h in
    let both = bit_or-eq-zero diff (bit_xor x y) rest.0 in
    (both.0, ap₂ ◌∷◌ ((bit_xor-eq-zero_iff x y).0 both.1) rest.1)

fold_diff_self : (a : Bytes) → fold_diff a a 0 ≡ 0
unfolding fold_diff
fold_diff_self [] = refl
fold_diff_self (x ∷ a) = rw ((bit_xor-eq-zero_iff x x).1 refl) (fold_diff_self a)

-- The comparison that touches every byte accepts exactly the equal credentials.
pub constant_time_eq_iff : (a b : Bytes) → (constant_time_eq a b ≡ true) ↔ (a ≡ b)
unfolding constant_time_eq
constant_time_eq_iff a b = (
  λ h. (fold_diff-eq-zero a b 0 (ground arith) (ground arith)).1,
  λ e. rw (← e) (ground (arith, fold_diff_self a)),
)

-- Two identities match exactly when they are equal: the same kind of proof with the same bytes.
pub matches_iff : (a b : NodeIdentity) → (matches a b ≡ true) ↔ (a ≡ b)
unfolding matches
matches_iff (cert_fingerprint a) (cert_fingerprint b) = (
  λ h. ap cert_fingerprint ((constant_time_eq_iff a b).0 h),
  λ e. (constant_time_eq_iff a b).1 (cc),
)
matches_iff (shared_token a) (shared_token b) =
    (λ h. ap shared_token ((constant_time_eq_iff a b).0 h), λ e. (constant_time_eq_iff a b).1 (cc))
matches_iff (cert_fingerprint a) (shared_token b) = (λ h. cc, λ e. cc)
matches_iff (shared_token a) (cert_fingerprint b) = (λ h. cc, λ e. cc)

-- An operator's call on the list.
pub data Grant : Type 0 where
  allows : ClientId → NodeIdentity → Grant
  revokes : ClientId → Grant

unfoldable pub apply : NodeAllowlist → List Grant → NodeAllowlist
apply entries [] = entries
apply entries (allows id identity ∷ gs) = apply (allow id identity entries).0 gs
apply entries (revokes id ∷ gs) = apply (revoke id entries).0 gs

-- The credential that a client was last allowed with and has kept.
unfoldable pub standing : ClientId → Option NodeIdentity → List Grant → Option NodeIdentity
standing id s [] = s
standing id s (allows j identity ∷ gs) = standing id (ite (Text-discrete j id) (some identity) s) gs
standing id s (revokes j ∷ gs) = standing id (ite (Text-discrete j id) none s) gs

get-apply :
    (id : ClientId) (entries : NodeAllowlist) (gs : List Grant)
    → get Text-discrete id (apply entries gs) ≡ standing id (get Text-discrete id entries) gs
unfolding apply standing allow revoke
get-apply id entries [] = refl
get-apply id entries (allows j identity ∷ gs) =
    get-apply id (insert Text-discrete j identity entries) gs
    ∙ ap (λ s. standing id s gs) (get-insert Text-discrete j id identity entries)
get-apply id entries (revokes j ∷ gs) =
    get-apply id (remove Text-discrete j entries) gs
    ∙ ap (λ s. standing id s gs) (get-remove Text-discrete j id entries)

-- After any grants and revocations, `check` always answers, and answers yes exactly when the
-- credential presented is the one that this client was last allowed with and that was not revoked
-- since: no other client's entry, and no older credential of its own, lets it in.
pub check-apply :
    (id : ClientId) (presented : NodeIdentity) (gs : List Grant)
    → (verdict : Bool) × (check id presented (apply [] gs) ≡ ok verdict)
      × ((verdict ≡ true) ↔ (standing id none gs ≡ some presented))
unfolding check get
check-apply id presented gs = elim (Option-cases (standing id none gs)) [
  | inl e ↦ (false, rw (get-apply id [] gs ∙ e, check), ((λ h. cc), λ h. cc))
  | inr (stored, e) ↦ (
    matches stored presented,
    rw (get-apply id [] gs ∙ e, check),
    (
      (λ h. rw e (ap some ((matches_iff stored presented).0 h))),
      λ h. (matches_iff stored presented).1 (cc),
    ),
  )
]
