-- ===== src/Server/History.antt =====
-- crates/conflux-server/src/round_history.rs: the last N completed rounds, and `RoundSummary` of
-- src/round.rs, from which a record is made.
use conflux_fl.Base.{
  ℕ, zero, suc, ◌≤◌, ◌≡◌, ◌≢◌, refl, sym, ap, ◌∙◌, Bool, Option, none, some, List, [], ◌∷◌, ◌++◌,
  map, arith, length, length-append, length-take, take, drop, ◌==◌, if◌then◌else◌, Text, text,
  Bool-cases, inl, inr,
}
use mathlib.Core.List.{reverse, reverse-append, reverse-cons, append-nil, append_assoc}
use conflux_fl.Buffer.{FlushReason, quorum, timeout}

pub record RoundSummary : Type 0 where
  pub round : ℕ
  pub flush_reason : FlushReason
  pub num_selected : ℕ
  pub num_submitted : ℕ
  pub num_passed : ℕ

pub record RoundRecord : Type 0 where
  pub round : ℕ
  pub completed_at : ℕ
  pub flush_reason : Text
  pub selected : ℕ
  pub submitted : ℕ
  pub passed : ℕ
  pub cited_requirement_satisfied : Option Bool

-- `records` is the deque behind the mutex, oldest first.
pub record RoundHistory : Type 0 where
  pub records : List RoundRecord
  pub capacity : ℕ

unfoldable pub new : ℕ → RoundHistory
new capacity = record { records = []; capacity = capacity }

abbrev pub reason_name : FlushReason → Text
reason_name quorum = text "quorum"
reason_name timeout = text "timeout"

-- `now` is the clock's answer: none where it stands before the epoch.
unfoldable pub record_of : RoundSummary → Option Bool → Option ℕ → RoundRecord
record_of summary satisfied now = record {
  round = summary.round;
  completed_at = elim now [ none ↦ 0 | some t ↦ t ];
  flush_reason = reason_name summary.flush_reason;
  selected = summary.num_selected;
  submitted = summary.num_submitted;
  passed = summary.num_passed;
  cited_requirement_satisfied = satisfied;
}

-- `record`, given the record that it builds.
unfoldable pub push_record : RoundHistory → RoundRecord → RoundHistory
push_record h r =
    if h.capacity == 0
    then h
    else (let kept = if length h.records == h.capacity then drop 1 h.records else h.records in
        record h { records = kept ++ r ∷ [] })

unfoldable pub record_round : RoundHistory → RoundSummary → Option Bool → Option ℕ → RoundHistory
unfolding push_record record_of
record_round h summary satisfied now = push_record h (record_of summary satisfied now)

unfoldable pub recent : RoundHistory → ℕ → List RoundRecord
recent h limit = take limit (reverse h.records)

unfoldable pub len : RoundHistory → ℕ
len h = length h.records

unfoldable pub is_empty : RoundHistory → Bool
unfolding len
is_empty h = len h == 0

-- What a client of the history sees after a sequence of completed rounds.
pub record Completed : Type 0 where
  pub summary : RoundSummary
  pub satisfied : Option Bool
  pub now : Option ℕ

abbrev pub row : Completed → RoundRecord
row c = record_of c.summary c.satisfied c.now

unfoldable pub record_all : RoundHistory → List Completed → RoundHistory
record_all h [] = h
record_all h (c ∷ cs) = record_all (record_round h c.summary c.satisfied c.now) cs

take-take : (n m : ℕ) (l : List RoundRecord) → n ≤ m → take n (take m l) ≡ take n l
take-take zero m l h = refl
take-take (suc n) zero l h = absurd (omega arith)
take-take (suc n) (suc m) [] h = refl
take-take (suc n) (suc m) (x ∷ l) h = ap (◌∷◌ x) (take-take n m l (omega arith))

take_nil : (n : ℕ) → take {A = RoundRecord} n [] ≡ []
take_nil zero = refl
take_nil (suc n) = refl

take_all : (n : ℕ) (l : List RoundRecord) → length l ≤ n → take n l ≡ l
take_all zero [] h = refl
take_all zero (x ∷ l) h = absurd (omega arith)
take_all (suc n) [] h = refl
take_all (suc n) (x ∷ l) h = ap (◌∷◌ x) (take_all n l (omega arith))

take_append_prefix :
    (n : ℕ) (l : List RoundRecord) (x : RoundRecord)
    → n ≤ length l
    → take n (l ++ x ∷ []) ≡ take n l
take_append_prefix zero l x h = refl
take_append_prefix (suc n) [] x h = absurd (omega arith)
take_append_prefix (suc n) (y ∷ l) x h = ap (◌∷◌ y) (take_append_prefix n l x (omega arith))

length-reverse : (l : List RoundRecord) → length (reverse l) ≡ length l
length-reverse [] = refl
length-reverse (x ∷ l) =
    rw (reverse-cons x l) (omega (arith, length-append (reverse l) (x ∷ []), length-reverse l))

-- Dropping the oldest is forgetting the last of the newest-first view.
reverse-drop_one :
    (k : ℕ) (l : List RoundRecord) → length l ≡ suc k → reverse (drop 1 l) ≡ take k (reverse l)
reverse-drop_one k [] h = absurd (omega arith)
reverse-drop_one k (x ∷ l) h = rw (reverse-cons x l) (
    sym (
      take_append_prefix k (reverse l) x (omega (arith, length-reverse l))
      ∙ take_all k (reverse l) (omega (arith, length-reverse l))))

-- The deque after a push.
abbrev pushed : ℕ → List RoundRecord → RoundRecord → List RoundRecord
pushed cap records r =
    if cap == 0
    then records
    else ((if length records == cap then drop 1 records else records) ++ r ∷ [])

pushed_full :
    (cap : ℕ) (records all : List RoundRecord) (r : RoundRecord)
    → reverse records ≡ take (suc cap) all
    → length records ≡ suc cap
    → reverse (drop 1 records ++ r ∷ []) ≡ r ∷ take cap all
pushed_full cap records all r s full =
    reverse-append (drop 1 records) (r ∷ [])
    ∙ ap (◌∷◌ r) (
        reverse-drop_one cap records full
        ∙ ap (take cap) s
        ∙ take-take cap (suc cap) all (omega arith))

pushed_room :
    (cap : ℕ) (records all : List RoundRecord) (r : RoundRecord)
    → reverse records ≡ take (suc cap) all
    → length records ≢ suc cap
    → reverse (records ++ r ∷ []) ≡ r ∷ take cap all
pushed_room cap records all r s room =
    let few : length all ≤ cap =
      omega (arith, length-reverse records, length-take (suc cap) all, ap length s) in
    reverse-append records (r ∷ [])
    ∙ ap (◌∷◌ r) (s ∙ take_all (suc cap) all (omega arith) ∙ sym (take_all cap all few))

-- The view of a history: the newest of all that was recorded, newest first, as many as it holds.
pushed_view :
    (cap : ℕ) (records all : List RoundRecord) (r : RoundRecord)
    → reverse records ≡ take cap all
    → reverse (pushed cap records r) ≡ take cap (r ∷ all)
pushed_view zero records all r s = s
pushed_view (suc cap) records all r s = elim (Bool-cases (length records == suc cap)) [
  | inl e ↦
      let full : length records ≡ suc cap = ground arith in
      ground (arith, pushed_full cap records all r s full)
  | inr e ↦
      let room : length records ≢ suc cap = ground arith in
      ground (arith, pushed_room cap records all r s room)
]

push_record-pushed :
    (h : RoundHistory) (r : RoundRecord)
    → ((push_record h r).records ≡ pushed h.capacity h.records r)
      × ((push_record h r).capacity ≡ h.capacity)
unfolding push_record
push_record-pushed h r = ground arith

record_all_view :
    (cap : ℕ) (h : RoundHistory) (all : List RoundRecord) (cs : List Completed)
    → h.capacity ≡ cap
    → reverse h.records ≡ take cap all
    → reverse (record_all h cs).records ≡ take cap (reverse (map row cs) ++ all)
unfolding record_all record_round
record_all_view cap h all [] e s = s
record_all_view cap h all (c ∷ cs) e s =
    let (kept, same) = push_record-pushed h (row c) in
    let view : reverse (push_record h (row c)).records ≡ take cap (row c ∷ all) =
      ap reverse (kept ∙ ap (λ k. pushed k h.records (row c)) e)
      ∙ pushed_view cap h.records all (row c) s in
    record_all_view cap (push_record h (row c)) (row c ∷ all) cs (same ∙ e) view
    ∙ ap (take cap) (
        sym (
          ap (λ l. l ++ all) (reverse-cons (row c) (map row cs))
          ∙ append_assoc (reverse (map row cs)) (row c ∷ []) all))

-- Memory stays bounded and nothing within the bound is lost: after any completed rounds, a request
-- for the `limit` most recent ones gets the newest `limit` of the newest `capacity` rounds, newest
-- first, each as it was recorded. A capacity of 0 records nothing.
pub recent-record_all :
    (capacity limit : ℕ) (cs : List Completed)
    → recent (record_all (new capacity) cs) limit
      ≡ take limit (take capacity (reverse (map row cs)))
unfolding recent new
recent-record_all capacity limit cs = ap (take limit) (
    record_all_view capacity (new capacity) [] cs refl (sym (take_nil capacity))
    ∙ ap (take capacity) (append-nil (reverse (map row cs))))
