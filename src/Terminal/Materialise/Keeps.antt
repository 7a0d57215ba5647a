-- ===== src/Terminal/Materialise/Keeps.antt =====
-- What a round of the materialiser leaves as it was.
use mail_chad.Base.{
  ℕ, ◌≡◌, refl, sym, subst, Bool, true, false, ◌==◌, ==_iff, Option, none, some, List, [], ◌∷◌,
  Text, text_eq, text_eq→eq, is_empty, if◌then◌else◌, Bool-cases, In, inl, inr, take, keep,
}
use mail_chad.Base.Table.{Table, get_item, always}
use mail_chad.Terminal.Outcomes.Effect.{Each, Each-refl, Each-update_where}
use mail_chad.Terminal.MergeUnsubs.{Suppressed}
use mail_chad.Terminal.Inbox.{InboxRow}
use mail_chad.Terminal.Materialise.{
  Payload, Mail, Tables, find_mail, is_bounce, noted, is_guarded, inserted, mark_row, is_webhook,
  value_or, insert_or_ignore, suppress_bounce, note_mail, apply_webhook_event,
  apply_suppression_event, stamp, apply_opened, apply_row, apply_rows, materialise_inbox_batch,
  order_by_id, is_pending_row,
}
use mail_chad.Terminal.Materialise.Engaged.{
  MailMove, RowMove, Keyed, Each-trans, MailMove-trans, RowMove-trans, Keyed-Each, Keyed-same,
  Each-update_In, find_mail-In, noted-MailMove,
}

module _ (open_payload : Text → Option Payload) (sha256 : Text → Text)
    (email_of : (contact_id : ℕ) → Option Text) (now : Text) {Sup : Type 0}
    ⦃table : Table Sup Suppressed⦄ where
  -- A stored suppression stays as it is.
  abbrev pub SupKept : Sup → Sup → Type 0
  SupKept t t' = (h : Text) (s : Suppressed) → get_item h t ≡ some s → get_item h t' ≡ some s

  abbrev pub Keeps : Tables Sup → Tables Sup → Type 0
  Keeps t t' =
      Each MailMove t.mails t'.mails
      × Each (RowMove now) t.inbox t'.inbox
      × SupKept t.suppressed t'.suppressed

  Keeps-refl : (t : Tables Sup) → Keeps t t
  Keeps-refl t = (
    Each-refl MailMove (λ m. (refl, refl, refl, λ q. q)) t.mails,
    Each-refl (RowMove now) (λ r. (refl, refl, inl refl)) t.inbox,
    λ h s g. g,
  )

  Keeps-trans : (a b c : Tables Sup) → Keeps a b → Keeps b c → Keeps a c
  Keeps-trans a b c (m, r, s) (m', r', s') = (
    Each-trans MailMove MailMove-trans a.mails b.mails c.mails m m',
    Each-trans (RowMove now) (RowMove-trans now) a.inbox b.inbox c.inbox r r',
    λ h x g. s' h x (s h x g),
  )

  insert_or_ignore-Kept :
      (r : Suppressed) (t : Sup) → SupKept t (insert_or_ignore open_payload sha256 email_of now r t)
  insert_or_ignore-Kept r t h s g =
      rw (table.get-write h r.email_hash always (inserted r) t)
        (elim (Bool-cases (text_eq r.email_hash h)) [
          | inl same ↦
              let g' =
                subst (λ k. get_item k t ≡ some s) (sym (text_eq→eq r.email_hash h same)) g in
              rw (same, g') refl
          | inr other ↦ rw other g
        ])

  suppress_bounce-Kept :
      (e : Option Text) (t : Sup) → SupKept t (suppress_bounce open_payload sha256 email_of now e t)
  suppress_bounce-Kept none t = λ h s g. g
  suppress_bounce-Kept (some email) t = insert_or_ignore-Kept _ t

  bounce-Kept :
      (b : Bool) (e : Option Text) (t : Sup)
      → SupKept t (if b then suppress_bounce open_payload sha256 email_of now e t else t)
  bounce-Kept true e t = suppress_bounce-Kept e t
  bounce-Kept false e t = λ h s g. g

  note_mail-Keeps :
      (event_type : Text) (o : Option Mail) (t : Tables Sup)
      → ((m : Mail) → o ≡ some m → In m t.mails)
      → Keyed t.mails
      → Keeps t (note_mail open_payload sha256 email_of now event_type o t)
  note_mail-Keeps event_type none t i k = Keeps-refl t
  note_mail-Keeps event_type (some m) t i k = elim (Bool-cases (is_guarded event_type m)) [
    | inl e ↦ rw e (Keeps-refl t)
    | inr e ↦ rw e (
      Each-update_In (λ q. q.id == m.id) (noted now event_type) t.mails
          (λ q q_in same.
            let eq = Keyed-same t.mails m q k (i m refl) q_in ((==_iff q.id m.id).0 same) in
            subst (λ x. MailMove x (noted now event_type x)) (sym eq)
              (noted-MailMove now event_type m e)),
      Each-refl (RowMove now) (λ r. (refl, refl, inl refl)) t.inbox,
      bounce-Kept (is_bounce event_type) (email_of m.contact_id) t.suppressed,
    )
  ]

  stamp-Keeps :
      (r : InboxRow) (t : Tables Sup) → Keeps t (stamp open_payload sha256 email_of now r t)
  stamp-Keeps r t = (
    Each-refl MailMove (λ m. (refl, refl, refl, λ q. q)) t.mails,
    Each-update_where (RowMove now) _ (mark_row now) t.inbox (λ q e. (refl, refl, inl refl))
        (λ q e. (refl, refl, inr refl)),
    λ h s g. g,
  )

  webhook-Keeps :
      (p : Payload) (t : Tables Sup)
      → Keyed t.mails
      → Keeps t (apply_webhook_event open_payload sha256 email_of now p t)
  unfolding apply_webhook_event
  webhook-Keeps p t k = elim (Bool-cases (is_empty (value_or [] p.message_id))) [
    | inl e ↦ rw e (Keeps-refl t)
    | inr e ↦ rw e (
        note_mail-Keeps _ (find_mail (value_or [] p.message_id) t.mails) t
          (λ m f. find_mail-In (value_or [] p.message_id) t.mails m f) k)
  ]

  suppression-Keeps :
      (p : Payload) (t : Tables Sup)
      → Keeps t (apply_suppression_event open_payload sha256 email_of now p t)
  unfolding apply_suppression_event
  suppression-Keeps p t = elim (Bool-cases (is_empty (value_or [] p.email_hash))) [
    | inl e ↦ rw e (Keeps-refl t)
    | inr e ↦ rw e ((Keeps-refl t).0, (Keeps-refl t).1, insert_or_ignore-Kept _ t.suppressed)
  ]

  opened-Keeps :
      (r : InboxRow) (o : Option Payload) (n : ℕ) (t : Tables Sup)
      → Keyed t.mails
      → Keeps t (apply_opened open_payload sha256 email_of now r o (n, t)).1
  opened-Keeps r none n t k = Keeps-refl t
  opened-Keeps r (some p) n t k = elim (Bool-cases (is_webhook r)) [
    | inl e ↦ rw e (Keeps-trans t _ _ (webhook-Keeps p t k) (stamp-Keeps r _))
    | inr e ↦ rw e (Keeps-trans t _ _ (suppression-Keeps p t) (stamp-Keeps r _))
  ]

  pub row-Keeps :
      (r : InboxRow) (b : Option Text) (n : ℕ) (t : Tables Sup)
      → Keyed t.mails
      → Keeps t (apply_row open_payload sha256 email_of now r b (n, t)).1
  row-Keeps r none n t k = stamp-Keeps r t
  row-Keeps r (some bytes) n t k = opened-Keeps r (open_payload bytes) n t k

  pub rows-Keeps :
      (rows : List InboxRow) (s : ℕ × Tables Sup)
      → Keyed s.1.mails
      → Keeps s.1 (apply_rows open_payload sha256 email_of now rows s).1
  unfolding apply_rows
  rows-Keeps [] s k = Keeps-refl s.1
  rows-Keeps (r ∷ rows) s k =
      let s' = apply_row open_payload sha256 email_of now r r.payload s in
      let h : Keeps s.1 s'.1 = row-Keeps r r.payload s.0 s.1 k in
      Keeps-trans s.1 s'.1 _ h (rows-Keeps rows s' (Keyed-Each s.1.mails s'.1.mails h.0 k))

  -- A round of the materialiser undoes nothing, if no two mails have one id: mails keep their places, a
  -- bounced or complained mail stays bounced or complained, inbox rows keep their events and are at
  -- most stamped with the time of the round, and a stored suppression stays as it is.
  pub materialise_inbox_batch-Keeps :
      (t : Tables Sup)
      → Keyed t.mails
      → Keeps t (materialise_inbox_batch open_payload sha256 email_of now t).1
  unfolding materialise_inbox_batch
  materialise_inbox_batch-Keeps t k =
      rows-Keeps (take 50 (order_by_id (keep is_pending_row t.inbox))) (0, t) k
