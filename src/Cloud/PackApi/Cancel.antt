-- ===== src/Cloud/PackApi/Cancel.antt =====
-- What the answers to a cancellation say of the pack, and what cancelling a whole campaign touches.
use mathlib.Core.Option
use mail_chad.Base.{
  ◌≡◌, ◌≢◌, refl, sym, ◌∙◌, Bool, true, false, Option, none, some, Text, if◌then◌else◌, arith,
  Bool-cases, inl, inr, text_eq_refl,
}
use mail_chad.Base.Table.{Table}
use mail_chad.Cloud.Pack.{
  Status, pending, cancelled, Pack, get_pack, is_pending, stored_pending, cancel_pack, cancel,
}
use mail_chad.Cloud.Pack.Bulk.{cancel_pack-reports, get_pack-cancel_pack}
use mail_chad.Cloud.PackApi.{
  CancelAnswer, was_cancelled, not_confirmed, no_such_pack, already, second_look, first_look,
  cancel_again, packs_cancel,
}

-- What an answer claims of the table that the call leaves.
abbrev pub Holds : CancelAnswer → Option Pack → Type 0
Holds was_cancelled none = ⊥
Holds was_cancelled (some p) = (p.status ≡ cancelled) × (p.encrypted_payload ≡ none)
Holds not_confirmed none = ⊥
Holds not_confirmed (some p) = p.status ≡ pending
Holds no_such_pack o = o ≡ none
Holds (already s) none = ⊥
Holds (already s) (some p) = (p.status ≡ s) × (s ≢ pending)

is_pending→eq : (s : Status) → is_pending s ≡ true → s ≡ pending
is_pending→eq s h = ground arith

not_pending→ne : (s : Status) → is_pending s ≡ false → s ≢ pending
not_pending→ne s h = ground arith

Holds-second_look : (o : Option Pack) → Holds (second_look o) o
Holds-second_look none = refl
Holds-second_look (some p) = by_status (is_pending p.status) refl
  where
    by_status :
        (b : Bool)
        → is_pending p.status ≡ b
        → Holds (if b then not_confirmed else already p.status) (some p)
    by_status true h = is_pending→eq p.status h
    by_status false h = (refl, not_pending→ne p.status h)

Holds-cancel :
    (now : Text) (o : Option Pack)
    → stored_pending o ≡ true
    → Holds was_cancelled (Option.map (cancel now) o)
Holds-cancel now none h = ground arith
Holds-cancel now (some p) h = (refl, refl)

module _ {P : Type 0} ⦃packs : Table P Pack⦄ where
  cancel_pack-Holds :
      (id now : Text) (t : P)
      → (cancel_pack id now t).0 ≡ true
      → Holds was_cancelled (get_pack id (cancel_pack id now t).1)
  cancel_pack-Holds id now t h =
      let h' : stored_pending (get_pack id t) ≡ true = sym (cancel_pack-reports id now t) ∙ h in
      rw (get_pack-cancel_pack id id now t, text_eq_refl id, h')
        (Holds-cancel now (get_pack id t) h')

  module _ (id now : Text) (between later last : P → P) where
    abbrev Says : CancelAnswer × P → Type 0
    Says r = Holds r.0 (get_pack id r.1)

    Says-cancel_again : (t : P) → Says (cancel_again id now between later last t)
    Says-cancel_again t = elim (Bool-cases (cancel_pack id now (later t)).0) [
      | inl e ↦ rw e (cancel_pack-Holds id now (later t) e)
      | inr e ↦ rw e (Holds-second_look _)
    ]

    Says-first_look :
        (o : Option Pack) (t : P)
        → get_pack id t ≡ o
        → Says (first_look id now between later last o t)
    Says-first_look none t h = h
    Says-first_look (some p) t h = by_status (is_pending p.status) refl
      where
        by_status :
            (b : Bool)
            → is_pending p.status ≡ b
            → Says (if b then cancel_again id now between later last t else (already p.status, t))
        by_status true e = Says-cancel_again t
        by_status false e = rw h (refl, not_pending→ne p.status e)

    -- Whatever other actors write between its steps, the answer of `packs_cancel` is true of the
    -- pack as the call's last step leaves it or finds it: `was_cancelled` of one that is cancelled
    -- and has no payload, `not_confirmed` of a pending one, `already s` of one with the status `s`,
    -- which is not pending, and `no_such_pack` where none is stored.
    pub packs_cancel-Holds :
        (t : P)
        → Holds
            (packs_cancel id now between later last t).0
            (get_pack id (packs_cancel id now between later last t).1)
    unfolding packs_cancel
    packs_cancel-Holds t = elim (Bool-cases (cancel_pack id now t).0) [
      | inl e ↦ rw e (cancel_pack-Holds id now t e)
      | inr e ↦ rw e (Says-first_look (get_pack id (between _)) (between _) refl)
    ]
