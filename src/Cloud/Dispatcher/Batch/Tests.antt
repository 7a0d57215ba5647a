-- ===== src/Cloud/Dispatcher/Batch/Tests.antt =====
-- A batch of three records, delivered twice, and a sweep over two listed packs.
use mail_chad.Base.{◌≡◌, refl, Bool, true, none, some, List, [], ◌∷◌, Text, str, text_eq}
use mail_chad.Base.Table.{fun_table}
use mail_chad.Cloud.Samples.{one_cloud, stored_pack, lax_codec, delivered, at_eight}
use mail_chad.Cloud.Pack.{Pack, get_pack, claim_pack, update_pack}
use mail_chad.Cloud.KTemp.{get_active_k_temp, fetch_ktemp, active_id}
use mail_chad.Cloud.Envelope.{open_pack, decrypt_with_temp}
use mail_chad.Cloud.Dispatcher.{Moment, process, process_claimed, send_sync, finalize}
use mail_chad.Cloud.Dispatcher.Batch.{Delivery, Counts, batch_done, drain, handler}
use mail_chad.Cloud.Dispatcher.Batch.Redelivery.{again, handler-again}

abbrev batch : List Delivery
batch =
    record { pack_id = some (str "p1"); at = at_eight }
    ∷ record { pack_id = none; at = at_eight }
    ∷ record { pack_id = some (str "p1"); at = at_eight }
    ∷ []

abbrev counts : Counts
counts = record { n_processed = 1; n_skipped = 1; n_failed = 1 }

abbrev later : Delivery → Moment
later _ = record at_eight { unix = 300 }

handled : (handler lax_codec delivered batch one_cloud).0 ≡ batch_done counts
unfolding handler drain process process_claimed get_pack claim_pack get_active_k_temp fetch_ktemp
    active_id open_pack decrypt_with_temp send_sync finalize text_eq update_pack
handled = refl

handler-again_example :
    let c' = (handler lax_codec delivered batch one_cloud).1 in
    (k' : Counts) × (handler lax_codec delivered (again later batch) c' ≡ (batch_done k', c'))
    × (k'.n_processed ≡ 0)
handler-again_example = handler-again lax_codec delivered batch later one_cloud {k = counts} handled

abbrev indexed : List Pack
indexed =
    stored_pack (str "p1") 7 ∷ record (stored_pack (str "p2") 7) { send_at = str "09:00" } ∷ []

abbrev takes_all : Text → Bool
takes_all _ = true
