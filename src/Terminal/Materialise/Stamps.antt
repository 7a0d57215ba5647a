-- ===== src/Terminal/Materialise/Stamps.antt =====
-- Which inbox rows a round of the materialiser finishes.
use mail_chad.Base.{
  ℕ, ◌≡◌, refl, sym, subst, ◌∙◌, ◌==◌, ==_iff, Option, none, some, List, [], ◌∷◌, Text, Bool-cases,
  In, All, inl, inr, take, keep, ap,
}
use mail_chad.Base.Table.{Table}
use mail_chad.Terminal.Outcomes.Effect.{Each}
use mail_chad.Terminal.MergeUnsubs.{Suppressed}
use mail_chad.Cloud.Event.{Event}
use mail_chad.Terminal.Inbox.{InboxRow}
use mail_chad.Terminal.Materialise.{
  Payload, Tables, mark_materialised, apply_row, apply_rows, materialise_inbox_batch, order_by_id,
  is_pending_row,
}
use mail_chad.Terminal.Materialise.Engaged.{RowMove, Keyed, Keyed-Each}
use mail_chad.Terminal.Materialise.Keeps.{row-Keeps, rows-Keeps}

-- Whether the round can apply a row: it has no payload, or one that decrypts.
abbrev pub Opens : (open_payload : Text → Option Payload) → Option Text → Type 0
Opens open_payload none = Unit
Opens open_payload (some bytes) = (p : Payload) × (open_payload bytes ≡ some p)

abbrev pub Stamped : (now : Text) → (event_id : ℕ) → List InboxRow → Type 0
Stamped now id rows = All (λ q. q.event.event_id ≡ id → q.materialised_at ≡ some now) rows

Stamped-Each :
    (now : Text) (id : ℕ) (rs qs : List InboxRow)
    → Each (RowMove now) rs qs
    → Stamped now id rs
    → Stamped now id qs
Stamped-Each now id [] [] e a = tt
Stamped-Each now id [] (q ∷ qs) e a = absurd e
Stamped-Each now id (r ∷ rs) [] e a = tt
Stamped-Each now id (r ∷ rs) (q ∷ qs) e a = (
  λ i. elim e.0.2 [
    | inl same ↦ same ∙ a.0 (ap (λ (x : Event). x.event_id) (sym e.0.0) ∙ i)
    | inr set ↦ set
  ],
  Stamped-Each now id rs qs e.1 a.1,
)

marked-Stamped :
    (now : Text) (id : ℕ) (rows : List InboxRow) → Stamped now id (mark_materialised now id rows)
marked-Stamped now id [] = tt
marked-Stamped now id (r ∷ rows) = elim (Bool-cases (r.event.event_id == id)) [
  | inl e ↦ rw e (λ i. refl, marked-Stamped now id rows)
  | inr e ↦ rw e (λ i. let h = (==_iff r.event.event_id id).1 i in cc, marked-Stamped now id rows)
]

module _ (open_payload : Text → Option Payload) (sha256 : Text → Text)
    (email_of : (contact_id : ℕ) → Option Text) (now : Text) {Sup : Type 0}
    ⦃table : Table Sup Suppressed⦄ where
  row-Stamped :
      (r : InboxRow) (b : Option Text) (n : ℕ) (t : Tables Sup)
      → Opens open_payload b
      → Stamped now r.event.event_id (apply_row open_payload sha256 email_of now r b (n, t)).1.inbox
  row-Stamped r none n t o = marked-Stamped now r.event.event_id t.inbox
  row-Stamped r (some bytes) n t (p, o) = rw o (marked-Stamped now r.event.event_id _)

  rows-Stamped :
      (r : InboxRow) (rows : List InboxRow) (s : ℕ × Tables Sup)
      → Keyed s.1.mails
      → In r rows
      → Opens open_payload r.payload
      → Stamped now r.event.event_id (apply_rows open_payload sha256 email_of now rows s).1.inbox
  unfolding apply_rows
  rows-Stamped r [] s k i o = absurd i
  rows-Stamped r (q ∷ rows) s k i o =
      let s' = apply_row open_payload sha256 email_of now q q.payload s in
      let k' =
        Keyed-Each s.1.mails s'.1.mails
          (row-Keeps open_payload sha256 email_of now q q.payload s.0 s.1 k).0 k in
      elim i [
        | inl e ↦
            Stamped-Each now r.event.event_id s'.1.inbox _
              (rows-Keeps open_payload sha256 email_of now rows s' k').1
              (subst (λ x. Stamped now x.event.event_id s'.1.inbox) e
                (row-Stamped q q.payload s.0 s.1
                  (subst (λ x. Opens open_payload x.payload) (sym e) o)))
        | inr m ↦ rows-Stamped r rows s' k' m o
      ]

  -- A round finishes every row of its batch that it can read: a row among the first 50 pending ones, in
  -- the order of the ids, that has no payload or one that decrypts is stamped afterwards, whatever
  -- becomes of the rows around it, if no two mails have one id.
  pub materialise_inbox_batch-stamps :
      (t : Tables Sup) (r : InboxRow)
      → Keyed t.mails
      → In r (take 50 (order_by_id (keep is_pending_row t.inbox)))
      → Opens open_payload r.payload
      → Stamped now r.event.event_id
          (materialise_inbox_batch open_payload sha256 email_of now t).1.inbox
  unfolding materialise_inbox_batch
  materialise_inbox_batch-stamps t r k i o =
      rows-Stamped r (take 50 (order_by_id (keep is_pending_row t.inbox))) (0, t) k i o
