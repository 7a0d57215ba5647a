-- ===== src/Cloud/Pack/Stored.antt =====
-- What `put_pack`, `claim_pack` and `update_pack` leave in the table.
use mathlib.Core.Option
use mail_chad.Base.{
  ◌≡◌, ◌&&◌, true, false, some, Text, text_eq, text_eq_refl, arith, refl, if◌then◌else◌, is_some,
}
use mail_chad.Base.Table.{Table, always}
use mail_chad.Cloud.Pack.{
  Status, Pack, NewPack, Fields, get_pack, put_pack, fresh_pack, is_absent, claim, claim_pack,
  update_pack, set_fields, stamp_resolved, stored_pending,
}
use mail_chad.Cloud.Pack.Lifecycle.{resolve-is_given}

module _ {Tab : Type 0} ⦃store : Table Tab Pack⦄ (p : NewPack) (by now : Text) (t : Tab) where
  pub put_pack-reports : (put_pack p by now t).0 ≡ is_absent (get_pack p.pack_id t)
  unfolding put_pack get_pack
  put_pack-reports = store.write_reports p.pack_id is_absent (λ _. some (fresh_pack p by now)) t

  pub get_pack-put_pack :
      (j : Text)
      → get_pack j (put_pack p by now t).1 ≡ (
          if text_eq p.pack_id j && is_absent (get_pack p.pack_id t)
          then some (fresh_pack p by now)
          else get_pack j t)
  unfolding put_pack get_pack
  get_pack-put_pack j = store.get-write j p.pack_id is_absent (λ _. some (fresh_pack p by now)) t

  pub put_pack-stores : is_some (get_pack p.pack_id (put_pack p by now t).1) ≡ true
  put_pack-stores = ground (arith, get_pack-put_pack p.pack_id, text_eq_refl p.pack_id)

  pub put_pack-keeps :
      (j : Text)
      → is_some (get_pack j t) ≡ true
      → is_some (get_pack j (put_pack p by now t).1) ≡ true
  put_pack-keeps j h = ground (arith, get_pack-put_pack j)

  -- A pack under an id that is taken changes nothing.
  pub put_pack-taken :
      is_some (get_pack p.pack_id t) ≡ true
      → ((put_pack p by now t).0 ≡ false)
        × ((j : Text) → get_pack j (put_pack p by now t).1 ≡ get_pack j t)
  put_pack-taken h = (ground (arith, put_pack-reports), λ j. ground (arith, get_pack-put_pack j))

module _ {P : Type 0} ⦃packs : Table P Pack⦄ where
  pub get_pack-update_pack :
      (id : Text) (fields : Fields) (s : Status) (now : Text) (t : P)
      → fields.status ≡ some s
      → get_pack id (update_pack id fields now t)
        ≡ Option.map (set_fields (stamp_resolved now fields)) (get_pack id t)
  unfolding update_pack get_pack
  get_pack-update_pack id fields s now t e = rw (resolve-is_given fields s now e) (
      rw
        (
          packs.get-write id id always (Option.map (set_fields (stamp_resolved now fields))) t,
          text_eq_refl id,
        )
        refl)

  pub claim_pack-reports :
      (id now : Text) (t : P) → (claim_pack id now t).0 ≡ stored_pending (get_pack id t)
  unfolding claim_pack get_pack
  claim_pack-reports id now t = packs.write_reports id stored_pending (Option.map (claim now)) t

  pub get_pack-claim_pack :
      (j id now : Text) (t : P)
      → get_pack j (claim_pack id now t).1 ≡ (
          if text_eq id j && stored_pending (get_pack id t)
          then Option.map (claim now) (get_pack id t)
          else get_pack j t)
  unfolding claim_pack get_pack
  get_pack-claim_pack j id now t = packs.get-write j id stored_pending (Option.map (claim now)) t
