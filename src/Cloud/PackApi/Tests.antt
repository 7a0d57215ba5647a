-- ===== src/Cloud/PackApi/Tests.antt =====
-- Pushing one pack twice, and cancelling it.
use mail_chad.Base.{◌≡◌, refl, Bool, true, some, List, [], ◌∷◌, Text, str, text_eq}
use mail_chad.Base.Table.{fun_table}
use mail_chad.Cloud.Samples.{Packs, one_pack}
use mail_chad.Cloud.Pack.{get_pack, put_pack}
use mail_chad.Cloud.PackApi.{
  PackIn, Clock, Push, Answer, packs_push, push_all, push_decoded, packs_cancel,
}
use mail_chad.Cloud.PackApi.Retry.{packs_push-retry}
use mail_chad.Cloud.PackApi.Cancel.{Holds, packs_cancel-Holds}

abbrev p2 : PackIn
p2 = record {
  pack_id = str "p2";
  campaign_id = 7;
  recipient_hash = str "r";
  content_hash = str "c";
  send_at = str "08:00";
  key_id = str "k1";
  encrypted_blob = str "blob";
}

abbrev batch : List PackIn
batch = p2 ∷ record p2 { pack_id = str "p1" } ∷ []

abbrev early : Clock
early = record { call = str "07:59"; store = str "07:59" }

abbrev late : Clock
late = record { call = str "08:30"; store = str "08:31" }

abbrev takes_all : Text → Bool
takes_all _ = true

abbrev pushed : Answer × Push Packs
pushed = packs_push takes_all some (str "operator") early batch one_pack []

packs_push-retry_example :
    let s = pushed.1 in
    let s' = (packs_push takes_all some (str "client") late batch s.packs s.queue).1 in
    (s'.accepted ≡ 0)
    × (s'.queue ≡ s.queue)
    × ((j : Text) → get_pack j s'.packs ≡ get_pack j s.packs)
unfolding packs_push push_all push_decoded put_pack text_eq
packs_push-retry_example =
    packs_push-retry takes_all some (str "operator") (str "client") early late batch one_pack []
      refl

abbrev no_one : Packs → Packs
no_one t = t

packs_cancel-Holds_example :
    Holds
      (packs_cancel (str "p1") (str "08:00") no_one no_one no_one one_pack).0
      (get_pack (str "p1") (packs_cancel (str "p1") (str "08:00") no_one no_one no_one one_pack).1)
packs_cancel-Holds_example =
    packs_cancel-Holds (str "p1") (str "08:00") no_one no_one no_one one_pack
