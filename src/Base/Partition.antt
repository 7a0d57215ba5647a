-- ===== src/Base/Partition.antt =====
-- The rows of one DynamoDB partition in the order of their sort keys, and queries of that order.
use mathlib.Core.Path.{◌≡◌, refl, sym}
use mathlib.Core.Logic.{◌⊎◌, inl, inr}
use mathlib.Core.Bool.{Bool, true, false, ◌&&◌}
use mathlib.Core.Option.{Option, none, some}
use mathlib.Core.List.{List, [], ◌∷◌}
use Prim.Native.Nat.{ℕ, zero, suc}
use native.Mathlib.Omega.{arith}
use mail_chad.Base.Tests.{if◌then◌else◌, Bool-cases}
use mail_chad.Base.Texts.{
  Text, text_eq, text_lt, text_eq→eq, text_eq_refl, text_lt_trans, text_lt_total,
}
use mail_chad.Base.Lists.{All, All-keep, In, keep, take, keep-In, In-keep, In-take, All-In}
use mail_chad.Base.Table.{Table}

abbrev pub Rows : Type 0 → Type 0
Rows Item = List (Text × Item)

-- Strictly ascending keys.
abbrev pub IsAscending : {Item : Type 0} → Rows Item → Type 0
IsAscending [] = Unit
IsAscending (r ∷ rows) = All (λ q. text_lt r.0 q.0 ≡ true) rows × IsAscending rows

same_key : (i j k : Text) → text_eq i j ≡ true → text_eq k j ≡ true → text_eq k i ≡ true
same_key i j k p q = rw (text_eq→eq i j p, text_eq→eq k j q) (text_eq_refl j)

same_left : (i j k : Text) → text_eq k i ≡ true → text_eq k j ≡ text_eq i j
same_left i j k e = rw (text_eq→eq k i e) refl

lt_of-not : (k j : Text) → text_eq k j ≡ false → text_lt k j ≡ false → text_lt j k ≡ true
lt_of-not k j n m = elim (text_lt_total k j) [
  | inl lt ↦ ground arith
  | inr (inl same) ↦ let e = rw same at n in ground (arith, text_eq_refl j)
  | inr (inr gt) ↦ gt
]

module _ {Item : Type 0} where
  unfoldable pub find_row : Text → Rows Item → Option Item
  find_row k [] = none
  find_row k ((j, x) ∷ rows) = if text_eq j k then some x else find_row k rows

  -- A put: the row stands at its place, instead of one with the same key.
  unfoldable pub put_row : Text → Item → Rows Item → Rows Item
  put_row k x [] = (k, x) ∷ []
  put_row k x ((j, y) ∷ rows) =
      let rest = put_row k x rows in
      if text_eq k j
      then (k, x) ∷ rows
      else if text_lt k j
      then (k, x) ∷ (j, y) ∷ rows
      else (j, y) ∷ rest

  unfoldable pub remove_row : Text → Rows Item → Rows Item
  remove_row k [] = []
  remove_row k ((j, y) ∷ rows) =
      let rest = remove_row k rows in if text_eq k j then rest else (j, y) ∷ rest

  abbrev pub set_row : Text → Option Item → Rows Item → Rows Item
  set_row k none rows = remove_row k rows
  set_row k (some x) rows = put_row k x rows

  pub find_row-put_row :
      (j k : Text) (x : Item) (rows : Rows Item)
      → find_row j (put_row k x rows) ≡ (if text_eq k j then some x else find_row j rows)
  unfolding find_row put_row
  find_row-put_row j k x [] = refl
  find_row-put_row j k x ((i, y) ∷ rows) = elim (Bool-cases (text_eq k i)) [
    | inl e ↦ rw (text_eq→eq k i e) (ground (arith, text_eq_refl i))
    | inr e ↦ ground (arith, same_key i j k, find_row-put_row j k x rows)
  ]

  find_row-remove_row :
      (j k : Text) (rows : Rows Item)
      → find_row j (remove_row k rows) ≡ (if text_eq k j then none else find_row j rows)
  unfolding find_row remove_row
  find_row-remove_row j k [] = ground arith
  find_row-remove_row j k ((i, y) ∷ rows) = elim (Bool-cases (text_eq k i)) [
    | inl e ↦ ground (arith, same_left i j k e, find_row-remove_row j k rows)
    | inr e ↦ ground (arith, same_key i j k, find_row-remove_row j k rows)
  ]

  find_row-set_row :
      (j k : Text) (o : Option Item) (rows : Rows Item)
      → find_row j (set_row k o rows) ≡ (if text_eq k j then o else find_row j rows)
  find_row-set_row j k none rows = find_row-remove_row j k rows
  find_row-set_row j k (some x) rows = find_row-put_row j k x rows

  abbrev write_row :
      Text → (Option Item → Bool) → (Option Item → Option Item) → Rows Item → Bool × Rows Item
  write_row k c f rows =
      let old = find_row k rows in (c old, if c old then set_row k (f old) rows else rows)

  pub find_row-write_row :
      (j k : Text) (c : Option Item → Bool) (f : Option Item → Option Item) (rows : Rows Item)
      → find_row j (write_row k c f rows).1
        ≡ (if text_eq k j && c (find_row k rows) then f (find_row k rows) else find_row j rows)
  find_row-write_row j k c f rows = ground (arith, find_row-set_row j k (f (find_row k rows)) rows)

  -- A partition is a table.
  instance abbrev pub row_table : Table (Rows Item) Item
  row_table = record {
    get = find_row;
    write = write_row;
    write_reports = λ k c f t. refl;
    get-write = find_row-write_row;
  }

  -- What is put keeps the keys in order.
  below-put_row :
      (i k : Text) (x : Item) (rows : Rows Item)
      → text_lt i k ≡ true
      → All (λ q. text_lt i q.0 ≡ true) rows
      → All (λ q. text_lt i q.0 ≡ true) (put_row k x rows)
  unfolding put_row
  below-put_row i k x [] h a = (h, tt)
  below-put_row i k x ((j, y) ∷ rows) h a = ground (arith, below-put_row i k x rows h a.1)

  All-lt_trans :
      (i k : Text) (rows : Rows Item)
      → text_lt i k ≡ true
      → All (λ q. text_lt k q.0 ≡ true) rows
      → All (λ q. text_lt i q.0 ≡ true) rows
  All-lt_trans i k [] h a = tt
  All-lt_trans i k (r ∷ rows) h a = (text_lt_trans i k r.0 h a.0, All-lt_trans i k rows h a.1)

  pub put_row-IsAscending :
      (k : Text) (x : Item) (rows : Rows Item) → IsAscending rows → IsAscending (put_row k x rows)
  unfolding put_row
  put_row-IsAscending k x [] a = (tt, tt)
  put_row-IsAscending k x ((j, y) ∷ rows) a = elim (Bool-cases (text_eq k j)) [
    | inl e ↦ rw e (rw (text_eq→eq k j e) a)
    | inr e ↦ elim (Bool-cases (text_lt k j)) [
      | inl lt ↦ rw (e, lt) ((lt, All-lt_trans k j rows lt a.0), a)
      | inr n ↦
          rw (e, n)
            (below-put_row j k x rows (lt_of-not k j e n) a.0, put_row-IsAscending k x rows a.1)
    ]
  ]

  -- A query `Key("sk").gt(since)`, oldest first.
  abbrev pub rows_after : Text → ℕ → Rows Item → Rows Item
  rows_after since limit rows = take limit (keep (λ r. text_lt since r.0) rows)

  abbrev pub last_key : Text → Rows Item → Text
  last_key since [] = since
  last_key since (r ∷ rows) = last_key r.0 rows

  keep-IsAscending :
      (p : Text × Item → Bool) (rows : Rows Item) → IsAscending rows → IsAscending (keep p rows)
  keep-IsAscending p [] a = tt
  keep-IsAscending p (r ∷ rows) a = elim (Bool-cases (p r)) [
    | inl e ↦ rw e (All-keep (λ q. text_lt r.0 q.0 ≡ true) p rows a.0, keep-IsAscending p rows a.1)
    | inr e ↦ rw e (keep-IsAscending p rows a.1)
  ]

  -- With rows in ascending order, one is in the first `n + 1` of them or behind the last of these.
  take-covers :
      (since : Text) (n : ℕ) (rows : Rows Item) (r : Text × Item)
      → IsAscending rows
      → In r rows
      → In r (take (suc n) rows) ⊎ (text_lt (last_key since (take (suc n) rows)) r.0 ≡ true)
  take-covers since n [] r a m = absurd m
  take-covers since n (q ∷ rows) r a (inl e) = inl (inl e)
  take-covers since zero (q ∷ rows) r a (inr m) =
      inr (All-In (λ x. text_lt q.0 x.0 ≡ true) r rows a.0 m)
  take-covers since (suc n) (q ∷ rows) r a (inr m) = elim (take-covers q.0 n rows r a.1 m) [
    | inl h ↦ inl (inr h)
    | inr h ↦ inr h
  ]

  -- What a query with a positive limit leaves out is behind the last key that it returns.
  pub page-covers :
      (p : Text × Item → Bool) (since : Text) (n : ℕ) (rows : Rows Item) (r : Text × Item)
      → IsAscending rows
      → In r rows
      → p r ≡ true
      → In r (take (suc n) (keep p rows))
        ⊎ (text_lt (last_key since (take (suc n) (keep p rows))) r.0 ≡ true)
  page-covers p since n rows r a m h =
      take-covers since n (keep p rows) r (keep-IsAscending p rows a) (keep-In p r rows m h)

  pub page-passes :
      (p : Text × Item → Bool) (n : ℕ) (rows : Rows Item) (r : Text × Item)
      → In r (take n (keep p rows))
      → In r rows × (p r ≡ true)
  page-passes p n rows r m = In-keep p r rows (In-take n r (keep p rows) m)

  pub In-put_row :
      (k : Text) (x : Item) (rows : Rows Item) (r : Text × Item)
      → In r (put_row k x rows)
      → (r ≡ (k, x)) ⊎ In r rows
  unfolding put_row
  In-put_row k x [] r (inl e) = inl (sym e)
  In-put_row k x [] r (inr m) = absurd m
  In-put_row k x ((j, y) ∷ rows) r m = elim (Bool-cases (text_eq k j)) [
    | inl e ↦ elim (rw e at m) [ inl h ↦ inl (sym h) | inr h ↦ inr (inr h) ]
    | inr e ↦ elim (Bool-cases (text_lt k j)) [
      | inl lt ↦ elim (rw (e, lt) at m) [ inl h ↦ inl (sym h) | inr h ↦ inr h ]
      | inr n ↦ elim (rw (e, n) at m) [
        | inl h ↦ inr (inl h)
        | inr h ↦ elim (In-put_row k x rows r h) [ inl g ↦ inl g | inr g ↦ inr (inr g) ]
      ]
    ]
  ]

  pub All-put_row :
      (B : (Text × Item) → Type 0) (k : Text) (x : Item) (rows : Rows Item)
      → B (k, x)
      → All B rows
      → All B (put_row k x rows)
  unfolding put_row
  All-put_row B k x [] h a = (h, tt)
  All-put_row B k x ((j, y) ∷ rows) h a = elim (Bool-cases (text_eq k j)) [
    | inl e ↦ rw e (h, a.1)
    | inr e ↦ elim (Bool-cases (text_lt k j)) [
      | inl lt ↦ rw (e, lt) (h, a)
      | inr n ↦ rw (e, n) (a.0, All-put_row B k x rows h a.1)
    ]
  ]
