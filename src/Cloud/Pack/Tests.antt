-- ===== src/Cloud/Pack/Tests.antt =====
-- The pack operations on one stored pack.
use mail_chad.Base.{◌≤◌, ◌≡◌, refl, some, List, [], ◌∷◌, Text, str, text_eq, text_lt, if◌then◌else◌}
use mail_chad.Base.Table.{fun_table, empty_table}
use mail_chad.Cloud.Samples.{Packs, new_pack, stored_pack, store_pack, one_pack}
use mail_chad.Cloud.Pack.{
  Pack, failed, claim as claim_at, get_pack, claim_pack, cancel_pack, update_pack,
  cancel_pending_for_campaign, expire_stale_claims, expire_listed, expire_claim, no_fields,
  put_pack,
}
use mail_chad.Cloud.Pack.Lifecycle.{
  Call, push, claim, resolve, cancel, apply, wins, run, Advances, run-Advances, claims,
  claims-le_one,
}
use mail_chad.Cloud.Pack.Bulk.{names, after_cancel, cancel_pending_for_campaign-packs}
use mail_chad.Cloud.Pack.Expiry.{Fate, expire_stale_claims-Fate}

abbrev p1 : Text
p1 = str "p1"

abbrev calls : List Call
calls =
    push (new_pack p1 9) (str "client") (str "07:30")
    ∷ claim p1 (str "08:00")
    ∷ cancel p1 (str "08:00")
    ∷ claim p1 (str "08:01")
    ∷ resolve p1 (record no_fields { status = some failed }) failed (str "08:02") refl refl
    ∷ []

run-Advances_example : Advances (get_pack p1 one_pack) (get_pack p1 (run calls one_pack))
run-Advances_example = run-Advances calls p1 one_pack

claims_once : claims p1 calls one_pack ≡ 1
unfolding claims apply wins claim_pack put_pack cancel_pack update_pack text_eq
claims_once = refl

claims-le_one_example : claims p1 calls one_pack ≤ 1
claims-le_one_example = claims-le_one calls p1 one_pack

abbrev listed : List Pack
listed = stored_pack (str "p2") 8 ∷ stored_pack p1 7 ∷ []

cancel_pending_for_campaign-packs_example :
    get_pack p1 (cancel_pending_for_campaign 7 (str "08:00") listed one_pack).1 ≡ (
      if names 7 p1 listed
      then after_cancel (str "08:00") (get_pack p1 one_pack)
      else get_pack p1 one_pack)
cancel_pending_for_campaign-packs_example =
    cancel_pending_for_campaign-packs p1 7 (str "08:00") listed one_pack

abbrev old_claim : Pack
old_claim = claim_at (str "06:00") (stored_pack p1 7)

abbrev in_claim : Packs
in_claim = store_pack old_claim empty_table

expired_count : (expire_stale_claims 5 (str "07:00") (str "09:00") (old_claim ∷ []) in_claim).0 ≡ 1
unfolding expire_stale_claims expire_listed expire_claim text_eq text_lt
expired_count = refl

expire_stale_claims-Fate_example :
    ((expire_stale_claims 5 (str "07:00") (str "09:00") (old_claim ∷ []) in_claim).0 ≤ 5)
    × ((j : Text)
        → Fate (str "07:00") (str "09:00") (get_pack j in_claim) (
            get_pack j
              (expire_stale_claims 5 (str "07:00") (str "09:00") (old_claim ∷ []) in_claim).1))
expire_stale_claims-Fate_example =
    expire_stale_claims-Fate 5 (str "07:00") (str "09:00") (old_claim ∷ []) in_claim
