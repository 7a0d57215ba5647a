-- ===== src/Cloud/Pack/Expiry.antt =====
-- `expire_stale_claims`: which packs become unknown, and how many.
use mathlib.Core.Option
use mail_chad.Base.{
  ℕ, ◌≤◌, ◌≡◌, refl, ap, ◌∙◌, true, ◌&&◌, Option, none, some, List, [], ◌∷◌, Text, text_eq, ltb,
  if◌then◌else◌, arith, Bool-cases, inl, inr, text_eq→eq, and_left, and_right,
}
use mail_chad.Base.Table.{Table}
use mail_chad.Cloud.Pack.{
  Pack, get_pack, is_claimed, time_eq, stored_claim, expire, expire_claim, expire_row,
  expire_listed, expire_stale_claims, claimed_by,
}

time_eq→eq : (s t : Option Text) → time_eq s t ≡ true → s ≡ t
time_eq→eq none none h = refl
time_eq→eq none (some t) h = ground arith
time_eq→eq (some s) none h = ground arith
time_eq→eq (some s) (some t) h = ap some (text_eq→eq s t h)

-- What the sweep may make of a stored pack: nothing, or, of one that is still in a claim made at
-- the cutoff or before, an unknown outcome.
pub data Fate (cutoff now : Text) (o q : Option Pack) : Type 0 where
  left_alone : q ≡ o → Fate cutoff now o q
  expired :
      (p : Pack)
      → o ≡ some p
      → is_claimed p.status ≡ true
      → claimed_by cutoff p.claimed_at ≡ true
      → q ≡ some (expire p.claimed_at now p)
      → Fate cutoff now o q

module _ (cutoff now : Text) where
  Fate-trans :
      (o p q : Option Pack) → Fate cutoff now o p → Fate cutoff now p q → Fate cutoff now o q
  Fate-trans o p q (left_alone e) g = rw (← e) g
  Fate-trans o p q (expired x e c b r) (left_alone f) = expired x e c b (f ∙ r)
  Fate-trans o p q (expired x e c b r) (expired y f d a s) = ground arith

Fate-stored :
    (cutoff now : Text) (at : Option Text) (o : Option Pack)
    → stored_claim at o ≡ true
    → claimed_by cutoff at ≡ true
    → Fate cutoff now o (Option.map (expire at now) o)
Fate-stored cutoff now at none h b = ground arith
Fate-stored cutoff now at (some p) h b =
    let e = time_eq→eq p.claimed_at at (and_right _ _ h) in
    expired p refl (and_left _ _ h) (rw e b) (rw e refl)

module _ {P : Type 0} ⦃packs : Table P Pack⦄ where
  get_pack-expire_claim :
      (j : Text) (row : Pack) (now : Text) (t : P)
      → get_pack j (expire_claim row now t).1 ≡ (
          if text_eq row.pack_id j && stored_claim row.claimed_at (get_pack row.pack_id t)
          then Option.map (expire row.claimed_at now) (get_pack row.pack_id t)
          else get_pack j t)
  unfolding expire_claim get_pack
  get_pack-expire_claim j row now t =
      packs.get-write j row.pack_id (stored_claim row.claimed_at)
        (Option.map (expire row.claimed_at now)) t

  Fate-expire_claim :
      (cutoff now : Text) (j : Text) (row : Pack) (t : P)
      → claimed_by cutoff row.claimed_at ≡ true
      → Fate cutoff now (get_pack j t) (get_pack j (expire_claim row now t).1)
  Fate-expire_claim cutoff now j row t b =
      elim (Bool-cases
        (text_eq row.pack_id j && stored_claim row.claimed_at (get_pack row.pack_id t))) [
          | inl e ↦
              rw (get_pack-expire_claim j row now t, e)
                (rw (← text_eq→eq row.pack_id j (and_left _ _ e)) (
                  Fate-stored cutoff now row.claimed_at (get_pack row.pack_id t)
                    (and_right (text_eq row.pack_id j) _ e) b))
          | inr e ↦ left_alone (rw (get_pack-expire_claim j row now t, e) refl)
        ]

  Fate-expire_row :
      (limit : ℕ) (cutoff now : Text) (j : Text) (row : Pack) (acc : ℕ × P)
      → Fate cutoff now (get_pack j acc.1) (get_pack j (expire_row limit cutoff now row acc).1)
  Fate-expire_row limit cutoff now j row (n, t) =
      elim (Bool-cases (ltb n limit && claimed_by cutoff row.claimed_at)) [
        | inl e ↦ rw e (Fate-expire_claim cutoff now j row t (and_right (ltb n limit) _ e))
        | inr e ↦ rw e (left_alone refl)
      ]

  expire_listed-Fate :
      (limit : ℕ) (cutoff now : Text) (j : Text) (listed : List Pack) (acc : ℕ × P)
      → Fate cutoff now
          (get_pack j acc.1)
          (get_pack j (expire_listed limit cutoff now listed acc).1)
  unfolding expire_listed
  expire_listed-Fate limit cutoff now j [] acc = left_alone refl
  expire_listed-Fate limit cutoff now j (row ∷ rows) acc =
      Fate-trans cutoff now _ _ _ (Fate-expire_row limit cutoff now j row acc)
        (expire_listed-Fate limit cutoff now j rows (expire_row limit cutoff now row acc))

  expire_listed-le :
      (limit : ℕ) (cutoff now : Text) (listed : List Pack) (acc : ℕ × P)
      → acc.0 ≤ limit
      → (expire_listed limit cutoff now listed acc).0 ≤ limit
  unfolding expire_listed
  expire_listed-le limit cutoff now [] acc h = h
  expire_listed-le limit cutoff now (row ∷ rows) (n, t) h =
      expire_listed-le limit cutoff now rows (expire_row limit cutoff now row (n, t)) (ground arith)

  -- The sweep reports at most `limit` packs. It changes a pack only if that is claimed, since the
  -- cutoff or before, and then into an unknown one without a payload, with the reason and the time
  -- filled in; a pack that has finished since it was listed, or was claimed later, stays as it was.
  pub expire_stale_claims-Fate :
      (limit : ℕ) (cutoff now : Text) (listed : List Pack) (t : P)
      → ((expire_stale_claims limit cutoff now listed t).0 ≤ limit)
        × ((j : Text)
            → Fate cutoff now
                (get_pack j t)
                (get_pack j (expire_stale_claims limit cutoff now listed t).1))
  unfolding expire_stale_claims
  expire_stale_claims-Fate limit cutoff now listed t = (
    expire_listed-le limit cutoff now listed (0, t) (omega arith),
    λ j. expire_listed-Fate limit cutoff now j listed (0, t),
  )
