-- ===== src/Cloud/Pack/Outcome/Order.antt =====
-- The order of the outcome keys, and the sorted list that `list_resolved_packs` cuts.
use mail_chad.Base.{
  ℕ, zero, suc, ◌≡◌, refl, ap, ◌⊎◌, inl, inr, Bool, true, false, not, List, [], ◌∷◌, Text, arith,
  text_eq_iff, text_lt_trans, text_lt_total, text_lt_irrefl, Bool-cases, take, text_eq_refl, All,
  In,
}
use mail_chad.Cloud.Pack.{Pack}
use mail_chad.Cloud.Pack.Outcome.{outcome_key, key_lt, insert_row, sort_rows}

abbrev pub Key : Type 0
Key = Text × Text

-- `a <= b`
abbrev pub key_le : Key → Key → Bool
key_le a b = not (key_lt b a)

pub key_lt_trans : (a b c : Key) → key_lt a b ≡ true → key_lt b c ≡ true → key_lt a c ≡ true
key_lt_trans (a, p) (b, q) (c, r) h k = ground (
  arith,
  text_eq_iff a b,
  text_eq_iff b c,
  text_eq_iff a c,
  text_lt_trans a b c,
  text_lt_trans p q r,
)

pub key_total : (a b : Key) → (key_lt a b ≡ true) ⊎ (a ≡ b) ⊎ (key_lt b a ≡ true)
key_total (a, p) (b, q) = ground (arith, text_lt_total a b, text_lt_total p q, text_eq_refl a)

pub key_lt_irrefl : (a : Key) → key_lt a a ≡ false
key_lt_irrefl (a, p) = ground (arith, text_lt_irrefl a, text_lt_irrefl p, text_eq_refl a)

pub key_le_trans : (a b c : Key) → key_le a b ≡ true → key_le b c ≡ true → key_le a c ≡ true
key_le_trans a b c h k =
    ground (arith, key_total a b, key_total b c, key_lt_trans c a b, key_lt_trans b c a)

pub key_le-not_lt : (a b : Key) → key_le a b ≡ true → ¬ (key_lt b a ≡ true)
key_le-not_lt a b h k = ground arith

pub key_le_lt_trans : (a b c : Key) → key_le a b ≡ true → key_lt b c ≡ true → key_lt a c ≡ true
key_le_lt_trans a b c h k = elim (key_total a b) [
  | inl lt ↦ key_lt_trans a b c lt k
  | inr (inl e) ↦ rw e k
  | inr (inr gt) ↦ absurd (key_le-not_lt a b h gt)
]

-- Each row is at most those behind it.
abbrev pub IsSorted : List Pack → Type 0
IsSorted [] = Unit
IsSorted (r ∷ rows) = All (λ q. key_le (outcome_key r) (outcome_key q) ≡ true) rows × IsSorted rows

insert_row-In_self : (r : Pack) (rows : List Pack) → In r (insert_row r rows)
unfolding insert_row
insert_row-In_self r [] = inl refl
insert_row-In_self r (q ∷ rows) = elim (Bool-cases (key_lt (outcome_key q) (outcome_key r))) [
  | inl e ↦ rw e (inr (insert_row-In_self r rows))
  | inr e ↦ rw e (inl refl)
]

insert_row-In : (r p : Pack) (rows : List Pack) → In p rows → In p (insert_row r rows)
unfolding insert_row
insert_row-In r p [] m = absurd m
insert_row-In r p (q ∷ rows) m = elim (Bool-cases (key_lt (outcome_key q) (outcome_key r))) [
  | inl e ↦ rw e (elim m [ inl h ↦ inl h | inr h ↦ inr (insert_row-In r p rows h) ])
  | inr e ↦ rw e (inr m)
]

In-insert_row : (r p : Pack) (rows : List Pack) → In p (insert_row r rows) → (r ≡ p) ⊎ In p rows
unfolding insert_row
In-insert_row r p [] m = m
In-insert_row r p (q ∷ rows) m = elim (Bool-cases (key_lt (outcome_key q) (outcome_key r))) [
  | inl e ↦ elim (rw e at m) [
    | inl h ↦ inr (inl h)
    | inr h ↦ elim (In-insert_row r p rows h) [ inl k ↦ inl k | inr k ↦ inr (inr k) ]
  ]
  | inr e ↦ rw e at m
]

pub sort_rows-In : (p : Pack) (rows : List Pack) → In p rows → In p (sort_rows rows)
unfolding sort_rows
sort_rows-In p [] m = m
sort_rows-In p (r ∷ rows) (inl e) = rw (← e) (insert_row-In_self r (sort_rows rows))
sort_rows-In p (r ∷ rows) (inr m) = insert_row-In r p (sort_rows rows) (sort_rows-In p rows m)

pub In-sort_rows : (p : Pack) (rows : List Pack) → In p (sort_rows rows) → In p rows
unfolding sort_rows
In-sort_rows p [] m = m
In-sort_rows p (r ∷ rows) m = elim (In-insert_row r p (sort_rows rows) m) [
  | inl e ↦ inl e
  | inr h ↦ inr (In-sort_rows p rows h)
]

abbrev AtMost : Key → List Pack → Type 0
AtMost k = All (λ q. key_le k (outcome_key q) ≡ true)

AtMost-lower : (a b : Key) (rows : List Pack) → key_le a b ≡ true → AtMost b rows → AtMost a rows
AtMost-lower a b [] h m = tt
AtMost-lower a b (q ∷ rows) h (m, ms) =
    (key_le_trans a b (outcome_key q) h m, AtMost-lower a b rows h ms)

insert_row-AtMost :
    (k : Key) (r : Pack) (rows : List Pack)
    → key_le k (outcome_key r) ≡ true
    → AtMost k rows
    → AtMost k (insert_row r rows)
unfolding insert_row
insert_row-AtMost k r [] h m = (h, tt)
insert_row-AtMost k r (q ∷ rows) h m = elim (Bool-cases (key_lt (outcome_key q) (outcome_key r))) [
  | inl e ↦ rw e (m.0, insert_row-AtMost k r rows h m.1)
  | inr e ↦ rw e (h, m)
]

lt→key_le : (a b : Key) → key_lt a b ≡ true → key_le a b ≡ true
lt→key_le a b h = ground (arith, key_lt_trans a b a, key_lt_irrefl a)

insert_row-IsSorted : (r : Pack) (rows : List Pack) → IsSorted rows → IsSorted (insert_row r rows)
unfolding insert_row
insert_row-IsSorted r [] s = (tt, tt)
insert_row-IsSorted r (q ∷ rows) s = elim (Bool-cases (key_lt (outcome_key q) (outcome_key r))) [
  | inl e ↦ rw e (
    insert_row-AtMost (outcome_key q) r rows (lt→key_le (outcome_key q) (outcome_key r) e) s.0,
    insert_row-IsSorted r rows s.1,
  )
  | inr e ↦
      let le : key_le (outcome_key r) (outcome_key q) ≡ true = ap not e in
      rw e ((le, AtMost-lower (outcome_key r) (outcome_key q) rows le s.0), s)
]

pub sort_rows-IsSorted : (rows : List Pack) → IsSorted (sort_rows rows)
unfolding sort_rows
sort_rows-IsSorted [] = tt
sort_rows-IsSorted (r ∷ rows) = insert_row-IsSorted r (sort_rows rows) (sort_rows-IsSorted rows)

take-AtMost : (k : Key) (n : ℕ) (rows : List Pack) → AtMost k rows → AtMost k (take n rows)
take-AtMost k zero rows m = tt
take-AtMost k (suc n) [] m = tt
take-AtMost k (suc n) (r ∷ rows) m = (m.0, take-AtMost k n rows m.1)

pub take-IsSorted : (n : ℕ) (rows : List Pack) → IsSorted rows → IsSorted (take n rows)
take-IsSorted zero rows s = tt
take-IsSorted (suc n) [] s = tt
take-IsSorted (suc n) (r ∷ rows) s =
    (take-AtMost (outcome_key r) n rows s.0, take-IsSorted n rows s.1)
