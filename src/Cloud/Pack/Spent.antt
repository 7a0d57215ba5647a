-- ===== src/Cloud/Pack/Spent.antt =====
-- Each write operation on the packs, by what it does to `spent`: whether a pack has left the
-- pending state.
use mathlib.Core.Option
use mail_chad.Base.{
  ◌+◌, ◌≤◌, ◌≡◌, true, ◌&&◌, some, Text, text_eq, text_eq_refl, arith, if◌then◌else◌,
}
use mail_chad.Base.Table.{Table}
use mail_chad.Cloud.Pack.{
  Status, is_resolved, Pack, NewPack, Fields, get_pack, put_pack, claim_pack, update_pack,
  cancel_pack, expire_claim, stored_pending, cancel as cancel_at,
}
use mail_chad.Cloud.Pack.Lifecycle.{
  push, claim, resolve, cancel, expire, spent, apply, wins, wins-spent, apply-Advances,
  Advances-spent,
}

module _ {Tab : Type 0} ⦃store : Table Tab Pack⦄ (id : Text) (t : Tab) where
  pub put_pack-spent :
      (p : NewPack) (by now : Text)
      → spent (get_pack id t) ≤ spent (get_pack id (put_pack p by now t).1)
  unfolding apply
  put_pack-spent p by now = Advances-spent _ _ (apply-Advances (push p by now) id t)

  pub cancel_pack-spent :
      (k now : Text) → spent (get_pack id t) ≤ spent (get_pack id (cancel_pack k now t).1)
  unfolding apply
  cancel_pack-spent k now = Advances-spent _ _ (apply-Advances (cancel k now) id t)

  pub expire_claim-spent :
      (row : Pack) (now : Text)
      → spent (get_pack id t) ≤ spent (get_pack id (expire_claim row now t).1)
  unfolding apply
  expire_claim-spent row now = Advances-spent _ _ (apply-Advances (expire row now) id t)

  pub update_pack-spent :
      (k : Text) (fields : Fields) (s : Status) (now : Text)
      → fields.status ≡ some s
      → is_resolved s ≡ true
      → spent (get_pack id t) ≤ spent (get_pack id (update_pack k fields now t))
  unfolding apply
  update_pack-spent k fields s now e r =
      Advances-spent _ _ (apply-Advances (resolve k fields s now e r) id t)

  pub claim_pack-spent :
      (k now : Text)
      → (if text_eq k id && (claim_pack k now t).0 then 1 else 0) + spent (get_pack id t)
        ≤ spent (get_pack id (claim_pack k now t).1)
  unfolding apply wins
  claim_pack-spent k now = wins-spent (claim k now) id t

  -- A cancellation that succeeds meets a pending pack, and takes it out of that state.
  pub cancel_pack-wins :
      (now : Text)
      → (cancel_pack id now t).0 ≡ true
      → (spent (get_pack id t) ≡ 0) × (spent (get_pack id (cancel_pack id now t).1) ≡ 1)
  unfolding cancel_pack get_pack
  cancel_pack-wins now h = ground (
    arith,
    store.write_reports id stored_pending (Option.map (cancel_at now)) t,
    store.get-write id id stored_pending (Option.map (cancel_at now)) t,
    text_eq_refl id,
  )
