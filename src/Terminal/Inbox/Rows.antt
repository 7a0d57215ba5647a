-- ===== src/Terminal/Inbox/Rows.antt =====
-- When the inbox stores an event, and that it stores none twice.
use mail_chad.Base.{
  ◌≡◌, refl, sym, subst, true, ==_iff, List, [], ◌∷◌, ◌++◌, text_eq→eq, text_eq_refl, All, In,
  In-append_left, arith, Bool-cases, inl, inr,
}
use mail_chad.Cloud.Event.{Event}
use mail_chad.Terminal.Inbox.{InboxRow, is_same_row, is_seen}

-- The revision of a row is what identifies an event.
abbrev pub SameRow : Event → Event → Type 0
SameRow e f = (e.table_name ≡ f.table_name) × (e.row_id ≡ f.row_id) × (e.revision ≡ f.revision)

abbrev pub Stores : List InboxRow → Event → Type 0
Stores rows e = (r : InboxRow) × In r rows × SameRow e r.event

abbrev pub NoTwins : List InboxRow → Type 0
NoTwins [] = Unit
NoTwins (r ∷ rows) = All (λ q. ¬ SameRow q.event r.event) rows × NoTwins rows

pub is_same_row-SameRow : (e f : Event) → is_same_row e f ≡ true → SameRow e f
is_same_row-SameRow e f h = (
  text_eq→eq e.table_name f.table_name (ground arith),
  text_eq→eq e.row_id f.row_id (ground arith),
  ground (arith, ==_iff e.revision f.revision),
)

pub SameRow-is_same_row : (e f : Event) → SameRow e f → is_same_row e f ≡ true
SameRow-is_same_row e f (a, b, c) =
    rw (a, b, c)
      (ground
        (arith, text_eq_refl f.table_name, text_eq_refl f.row_id, ==_iff f.revision f.revision))

pub is_seen-Stores : (e : Event) (rows : List InboxRow) → is_seen e rows ≡ true → Stores rows e
unfolding is_seen
is_seen-Stores e [] h = cc
is_seen-Stores e (r ∷ rows) h = elim (Bool-cases (is_same_row e r.event)) [
  | inl same ↦ (r, inl refl, is_same_row-SameRow e r.event same)
  | inr other ↦ let (q, m, s) = is_seen-Stores e rows (rw other at h) in (q, inr m, s)
]

pub Stores-is_seen : (e : Event) (rows : List InboxRow) → Stores rows e → is_seen e rows ≡ true
unfolding is_seen
Stores-is_seen e [] (q, m, s) = absurd m
Stores-is_seen e (r ∷ rows) (q, inl m, s) =
    rw (SameRow-is_same_row e r.event (subst (λ (x : InboxRow). SameRow e x.event) (sym m) s))
Stores-is_seen e (r ∷ rows) (q, inr m, s) = elim (Bool-cases (is_same_row e r.event)) [
  | inl same ↦ rw same
  | inr other ↦ rw other (Stores-is_seen e rows (q, m, s))
]

pub Stores-append :
    (e : Event) (rows more : List InboxRow) → Stores rows e → Stores (rows ++ more) e
Stores-append e rows more (r, m, s) = (r, In-append_left r rows more m, s)

pub NoTwins-snoc :
    (rows : List InboxRow) (r : InboxRow)
    → NoTwins rows
    → ¬ Stores rows r.event
    → NoTwins (rows ++ (r ∷ []))
NoTwins-snoc [] r h n = (tt, tt)
NoTwins-snoc (q ∷ rows) r h n = (
  apart rows h.0 (λ s. n (q, inl refl, s)),
  NoTwins-snoc rows r h.1 (λ (x, m, s). n (x, inr m, s)),
)
  where
    apart :
        (xs : List InboxRow)
        → All (λ x. ¬ SameRow x.event q.event) xs
        → ¬ SameRow r.event q.event
        → All (λ x. ¬ SameRow x.event q.event) (xs ++ (r ∷ []))
    apart [] a b = (b, tt)
    apart (x ∷ xs) a b = (a.0, apart xs a.1 b)

pub append_assoc : (xs ys zs : List InboxRow) → (xs ++ ys) ++ zs ≡ xs ++ (ys ++ zs)
append_assoc [] ys zs = refl
append_assoc (x ∷ xs) ys zs = rw (append_assoc xs ys zs)
