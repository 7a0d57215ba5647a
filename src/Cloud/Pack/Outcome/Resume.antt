-- ===== src/Cloud/Pack/Outcome/Resume.antt =====
-- Polling `packs_status` again with the cursor that it returned: what one page leaves out the next
-- one finds, and what it held does not come again.
use mail_chad.Base.{
  ℕ, zero, suc, ◌≤◌, ◌≡◌, refl, ◌⊎◌, inl, inr, Bool, true, false, ◌||◌, Option, none, some, List,
  [], ◌∷◌, ◌++◌, Text, arith, ◌==◌, take, In, All-In, In-take, length-take_le, is_empty, length,
}
use mail_chad.Cloud.Pack.{Pack}
use mail_chad.Cloud.Pack.Outcome.{
  outcome_key, outcome_cursor, partition, key_lt, after_cursor, sort_rows, eligible_rows,
  list_resolved_packs, packs_status, last_row,
}
use mail_chad.Cloud.Pack.Outcome.Order.{
  key_le, key_total, key_lt_irrefl, key_le-not_lt, key_le_lt_trans, IsSorted, sort_rows-In,
  In-sort_rows, sort_rows-IsSorted, take-IsSorted,
}

-- `"#" in s`
abbrev pub has_hash : Text → Bool
has_hash [] = false
has_hash (c ∷ s) = c == b'#' || has_hash s

partition-append :
    (time rest : Text)
    → has_hash time ≡ false
    → partition (time ++ (b'#' ∷ rest)) ≡ (time, some rest)
unfolding partition
partition-append [] rest h = refl
partition-append (c ∷ time) rest h = ground (arith, partition-append time rest)

-- The cursor that `outcome_cursor` prints is read back as the outcome key.
partition-outcome_cursor :
    (q : Pack)
    → has_hash (outcome_key q).0 ≡ false
    → partition (outcome_cursor q) ≡ ((outcome_key q).0, some (outcome_key q).1)
partition-outcome_cursor q h = partition-append (outcome_key q).0 (outcome_key q).1 h

last_row-cons :
    (r : Pack) (rows : List Pack) {q : Pack}
    → last_row (r ∷ rows) ≡ some q
    → (r ≡ q) ⊎ (last_row rows ≡ some q)
last_row-cons r [] e = inl (cc)
last_row-cons r (p ∷ rows) e = inr e

last_row-In : (rows : List Pack) {q : Pack} → last_row rows ≡ some q → In q rows
last_row-In [] e = cc
last_row-In (r ∷ rows) e = elim (last_row-cons r rows e) [
  | inl h ↦ inl h
  | inr h ↦ inr (last_row-In rows h)
]

-- A row that the cut leaves out is at or behind the last row that it keeps.
take-covers :
    (n : ℕ) (rows : List Pack) {q : Pack} (p : Pack)
    → IsSorted rows
    → last_row (take n rows) ≡ some q
    → In p rows
    → In p (take n rows) ⊎ (key_le (outcome_key q) (outcome_key p) ≡ true)
take-covers zero rows p s e m = cc
take-covers (suc n) [] p s e m = absurd m
take-covers (suc n) (r ∷ rows) p s e (inl h) = inl (inl h)
take-covers (suc n) (r ∷ rows) p s e (inr m) = elim (last_row-cons r (take n rows) e) [
  | inl h ↦
      inr (rw (← h) (All-In (λ x. key_le (outcome_key r) (outcome_key x) ≡ true) p rows s.0 m))
  | inr h ↦ elim (take-covers n rows p s.1 h m) [ inl k ↦ inl (inr k) | inr k ↦ inr k ]
]

-- Nothing in a sorted list is behind its last row.
IsSorted-last_row :
    (rows : List Pack) {q : Pack} (p : Pack)
    → IsSorted rows
    → last_row rows ≡ some q
    → In p rows
    → key_le (outcome_key p) (outcome_key q) ≡ true
IsSorted-last_row [] p s e m = absurd m
IsSorted-last_row (r ∷ []) {q} p s e (inl h) =
    let k : r ≡ q = cc in rw (← h, ← k) (ground (arith, key_lt_irrefl (outcome_key r)))
IsSorted-last_row (r ∷ []) p s e (inr m) = absurd m
IsSorted-last_row (r ∷ x ∷ rows) {q} p s e (inl h) = rw (← h) (
    All-In (λ y. key_le (outcome_key r) (outcome_key y) ≡ true) q (x ∷ rows) s.0
      (last_row-In (x ∷ rows) e))
IsSorted-last_row (r ∷ x ∷ rows) p s e (inr m) = IsSorted-last_row (x ∷ rows) p s.1 e m

-- In outcome order, at most `limit` rows, and none that is not among those that count.
pub record IsPage (since : Text) (limit : ℕ) (upper : Option Text)
    (partitions : List (List (List Pack))) (rows : List Pack) : Type 0 where
  pub in_order : IsSorted rows
  pub bounded : length rows ≤ limit
  pub each_counts : (p : Pack) → In p rows → In p (eligible_rows since limit upper partitions)

pub list_resolved_packs-IsPage :
    (since : Text) (limit : ℕ) (upper : Option Text) (partitions : List (List (List Pack)))
    → IsPage since limit upper partitions (list_resolved_packs since limit upper partitions)
unfolding list_resolved_packs
list_resolved_packs-IsPage since limit upper partitions =
    let found = eligible_rows since limit upper partitions in
    record {
      in_order = take-IsSorted limit (sort_rows found) (sort_rows-IsSorted found);
      bounded = length-take_le limit (sort_rows found);
      each_counts = λ p m. In-sort_rows p found (In-take limit p (sort_rows found) m);
    }

-- Past the cursor, whatever the settle bound of that later poll holds back.
abbrev pub Past : Text → Pack → Type 0
Past cursor p =
    let (since_t, since_pid) = partition cursor in
    after_cursor (outcome_key p) since_t since_pid none ≡ true

Past-of_lt :
    (q p : Pack)
    → has_hash (outcome_key q).0 ≡ false
    → key_lt (outcome_key q) (outcome_key p) ≡ true
    → Past (outcome_cursor q) p
Past-of_lt q p h lt = rw (partition-outcome_cursor q h) (ground arith)

lt_of-Past :
    (q p : Pack)
    → has_hash (outcome_key q).0 ≡ false
    → is_empty (outcome_key q).0 ≡ false
    → Past (outcome_cursor q) p
    → key_lt (outcome_key q) (outcome_key p) ≡ true
lt_of-Past q p h n past = let c = rw (partition-outcome_cursor q h) at past in rw n at c

-- No outcome is skipped. A row that counts for one poll is either returned by it, itself or one
-- with the same outcome key, or lies past the cursor that the poll returns. The poll returned some
-- row, and the outcome time of the last one has no `#`.
pub packs_status-resumes :
    (since settled : Text) (limit : ℕ) (partitions : List (List (List Pack))) (p : Pack) {q : Pack}
    → last_row (packs_status since limit settled partitions).0 ≡ some q
    → has_hash (outcome_key q).0 ≡ false
    → In p (eligible_rows since limit (some settled) partitions)
    → ((w : Pack) × In w (packs_status since limit settled partitions).0
        × (outcome_key w ≡ outcome_key p))
      ⊎ Past (packs_status since limit settled partitions).1 p
unfolding packs_status
packs_status-resumes since settled limit partitions p {q} e h m =
    let found = eligible_rows since limit (some settled) partitions in
    elim (take-covers limit (sort_rows found) p (sort_rows-IsSorted found) e
      (sort_rows-In p found m)) [
        | inl here ↦ inl (p, here, refl)
        | inr le ↦ elim (key_total (outcome_key q) (outcome_key p)) [
          | inl lt ↦ inr (rw e (Past-of_lt q p h lt))
          | inr (inl same) ↦ inl (q, last_row-In _ e, same)
          | inr (inr gt) ↦ absurd (key_le-not_lt (outcome_key q) (outcome_key p) le gt)
        ]
      ]

-- No outcome comes twice. What lies past the cursor of a poll is strictly behind every row that
-- the poll returned, in outcome order; the outcome time of its last row is a text that is not empty and has no `#`.
pub packs_status-no_repeat :
    (since settled : Text) (limit : ℕ) (partitions : List (List (List Pack))) (p r : Pack)
    {q : Pack}
    → last_row (packs_status since limit settled partitions).0 ≡ some q
    → has_hash (outcome_key q).0 ≡ false
    → is_empty (outcome_key q).0 ≡ false
    → In p (packs_status since limit settled partitions).0
    → Past (packs_status since limit settled partitions).1 r
    → key_lt (outcome_key p) (outcome_key r) ≡ true
unfolding packs_status
packs_status-no_repeat since settled limit partitions p r {q} e h n m past =
    let rows = list_resolved_packs since limit (some settled) partitions in
    let sorted = (list_resolved_packs-IsPage since limit (some settled) partitions).in_order in
    key_le_lt_trans (outcome_key p) (outcome_key q) (outcome_key r)
      (IsSorted-last_row rows p sorted e m) (lt_of-Past q r h n (rw e at past))
