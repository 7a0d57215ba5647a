-- ===== src/Cloud/Dispatcher/Tests.antt =====
-- The dispatcher on one pending pack, alone and with a rival worker.
use mail_chad.Base.{◌≤◌, ◌≡◌, refl, List, [], ◌∷◌, Text, str, text_eq}
use mail_chad.Base.Table.{FunTable, fun_table}
use mail_chad.Cloud.Samples.{one_cloud, stored_pack, lax_codec, delivered, at_eight}
use mail_chad.Cloud.Pack.{get_pack, cancel_pack, claim_pack}
use mail_chad.Cloud.KTemp.{KeyItem, get_active_k_temp, fetch_ktemp, active_id}
use mail_chad.Cloud.Envelope.{open_pack, decrypt_with_temp}
use mail_chad.Cloud.Dispatcher.{process, send_sync}
use mail_chad.Cloud.Dispatcher.Worker.{advance}
use mail_chad.Cloud.Dispatcher.Settle.{Settled, process-Settled}
use mail_chad.Cloud.Dispatcher.Interleave.{
  Turn, work, cancel, begin, requests, take_turn, run_turns,
}
use mail_chad.Cloud.Dispatcher.Interleave.Once.{sent_once, cancelled-never_sent}

abbrev p1 : Text
p1 = str "p1"

process-Settled_example :
    Settled at_eight
      (process lax_codec delivered p1 at_eight one_cloud).0
      (get_pack p1 (process lax_codec delivered p1 at_eight one_cloud).1.packs)
unfolding get_pack text_eq
process-Settled_example =
    process-Settled p1 at_eight lax_codec delivered one_cloud {p = stored_pack p1 7} refl refl

-- Two workers that have the same message take turns; the pack is pushed and cancelled on the way.
abbrev turns : List (Turn (FunTable Text) (FunTable KeyItem))
turns =
    work 0 at_eight
    ∷ work 1 at_eight
    ∷ work 1 at_eight
    ∷ work 0 at_eight
    ∷ cancel p1 (str "08:00")
    ∷ work 1 at_eight
    ∷ work 1 at_eight
    ∷ work 1 at_eight
    ∷ []

sent_once_example :
    requests p1 (run_turns lax_codec delivered turns (begin (p1 ∷ p1 ∷ []) one_cloud)) ≤ 1
sent_once_example = sent_once lax_codec delivered (p1 ∷ p1 ∷ []) turns p1 one_cloud refl

requests_made :
    requests p1 (run_turns lax_codec delivered turns (begin (p1 ∷ p1 ∷ []) one_cloud)) ≡ 1
unfolding run_turns take_turn advance get_pack claim_pack cancel_pack get_active_k_temp fetch_ktemp
    active_id open_pack decrypt_with_temp send_sync text_eq
requests_made = refl

cancelled-never_sent_example :
    requests p1 (
      run_turns lax_codec delivered turns (
        take_turn lax_codec delivered
          (cancel p1 (str "08:00"))
          (run_turns lax_codec delivered (work 0 at_eight ∷ []) (begin (p1 ∷ p1 ∷ []) one_cloud))))
    ≡ 0
unfolding run_turns take_turn advance get_pack cancel_pack text_eq
cancelled-never_sent_example =
    cancelled-never_sent lax_codec delivered (p1 ∷ p1 ∷ []) (work 0 at_eight ∷ []) turns p1
      (str "08:00") one_cloud refl refl
