-- ===== src/Cloud/Pack/Bulk.antt =====
-- The two operations that go through listed rows, `cancel_pending_for_campaign` and
-- `expire_stale_claims`. The listing may be out of date; each write tests the stored pack.
use mathlib.Core.Option
use mail_chad.Base.{
  ℕ, ◌≡◌, refl, Bool, false, ◌&&◌, ◌||◌, Option, none, some, List, [], ◌∷◌, Text, text_eq, ◌==◌,
  if◌then◌else◌, arith, Bool-cases, inl, inr, text_eq→eq,
}
use mail_chad.Base.Table.{Table}
use mail_chad.Cloud.Pack.{
  Pack, get_pack, stored_pending, cancel_pack, cancel, cancel_pending_for_campaign, cancel_listed,
  cancel_row,
}

-- What a cancellation makes of a stored pack.
abbrev pub after_cancel : Text → Option Pack → Option Pack
after_cancel now o = if stored_pending o then Option.map (cancel now) o else o

after_cancel_idem :
    (now : Text) (o : Option Pack) → after_cancel now (after_cancel now o) ≡ after_cancel now o
after_cancel_idem now none = refl
after_cancel_idem now (some p) = ground arith

-- Whether the listing has a row of the campaign for the pack `j`.
abbrev pub names : ℕ → Text → List Pack → Bool
names campaign_id j [] = false
names campaign_id j (row ∷ rows) =
    row.campaign_id == campaign_id && text_eq row.pack_id j || names campaign_id j rows

module _ {P : Type 0} ⦃packs : Table P Pack⦄ where
  pub cancel_pack-reports :
      (id now : Text) (t : P) → (cancel_pack id now t).0 ≡ stored_pending (get_pack id t)
  unfolding cancel_pack get_pack
  cancel_pack-reports id now t = packs.write_reports id stored_pending (Option.map (cancel now)) t

  pub get_pack-cancel_pack :
      (j id now : Text) (t : P)
      → get_pack j (cancel_pack id now t).1 ≡ (
          if text_eq id j && stored_pending (get_pack id t)
          then Option.map (cancel now) (get_pack id t)
          else get_pack j t)
  unfolding cancel_pack get_pack
  get_pack-cancel_pack j id now t = packs.get-write j id stored_pending (Option.map (cancel now)) t

  cancel_pack_at :
      (j id now : Text) (t : P)
      → get_pack j (cancel_pack id now t).1
        ≡ (if text_eq id j then after_cancel now (get_pack j t) else get_pack j t)
  cancel_pack_at j id now t = elim (Bool-cases (text_eq id j)) [
    | inl e ↦ rw (get_pack-cancel_pack j id now t, e) (rw (text_eq→eq id j e) (ground arith))
    | inr e ↦ rw (get_pack-cancel_pack j id now t, e) refl
  ]

  get_pack-cancel_row :
      (j : Text) (campaign_id : ℕ) (now : Text) (row : Pack) (acc : ℕ × P)
      → get_pack j (cancel_row campaign_id now row acc).1 ≡ (
          if row.campaign_id == campaign_id && text_eq row.pack_id j
          then after_cancel now (get_pack j acc.1)
          else get_pack j acc.1)
  get_pack-cancel_row j campaign_id now row (n, t) =
      ground (arith, cancel_pack_at j row.pack_id now t)

  get_pack-cancel_listed :
      (j : Text) (campaign_id : ℕ) (now : Text) (listed : List Pack) (acc : ℕ × P)
      → get_pack j (cancel_listed campaign_id now listed acc).1 ≡ (
          if names campaign_id j listed
          then after_cancel now (get_pack j acc.1)
          else get_pack j acc.1)
  unfolding cancel_listed
  get_pack-cancel_listed j campaign_id now [] acc = refl
  get_pack-cancel_listed j campaign_id now (row ∷ rows) acc = ground (
    arith,
    get_pack-cancel_row j campaign_id now row acc,
    get_pack-cancel_listed j campaign_id now rows (cancel_row campaign_id now row acc),
    after_cancel_idem now (get_pack j acc.1),
  )

  -- Cancelling a campaign does to each pack exactly this: one that the query listed under the
  -- campaign, and that is still pending, becomes cancelled and loses its payload; every other pack,
  -- one that was claimed or sent since it was listed too, stays as it was.
  pub cancel_pending_for_campaign-packs :
      (j : Text) (campaign_id : ℕ) (now : Text) (listed : List Pack) (t : P)
      → get_pack j (cancel_pending_for_campaign campaign_id now listed t).1
        ≡ (if names campaign_id j listed then after_cancel now (get_pack j t) else get_pack j t)
  unfolding cancel_pending_for_campaign
  cancel_pending_for_campaign-packs j campaign_id now listed t =
      get_pack-cancel_listed j campaign_id now listed (0, t)
