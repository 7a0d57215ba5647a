-- ===== src/Cloud/Dispatcher/Batch.antt =====
-- `handler`, `_sweep` and `_expire_stale_claims` of mailman/cloud/dispatcher_lambda.py, with
-- `list_pending_packs` of mailman/cloud/dynamo.py.
pub mod Redelivery
pub mod Sweep
mod Tests
use mail_chad.Base.{
  ℕ, zero, suc, ◌+◌, ◌-◌, ◌==◌, Bool, true, false, Option, none, some, List, [], ◌∷◌, ◌++◌, Text,
  text_le, if◌then◌else◌, keep, take, length,
}
use mail_chad.Base.Table.{Table}
use mail_chad.Cloud.Pack.{Pack, expire_stale_claims}
use mail_chad.Cloud.Event.{Event}
use mail_chad.Cloud.KTemp.{KeyItem}
use mail_chad.Cloud.Envelope.{Message, Codec}
use mail_chad.Cloud.Dispatcher.{
  Reply, Cloud, Moment, Outcome, skipped, processed, outcome_unknown, key_error, process,
}

-- One SQS record; a body without a pack id is bad. The clock's readings are those of its turn.
pub record Delivery : Type 0 where
  pub pack_id : Option Text
  pub at : Moment

-- `results`
pub record Counts : Type 0 where
  pub n_processed : ℕ
  pub n_skipped : ℕ
  pub n_failed : ℕ

abbrev pub no_counts : Counts
no_counts = record { n_processed = 0; n_skipped = 0; n_failed = 0 }

-- How the call ends: with its counts, or with what `_process` raised.
pub data Batch : Type 0 where
  batch_done : Counts → Batch
  batch_raised : Batch

abbrev pub one_failed : Counts → Counts
one_failed k = record k { n_failed = k.n_failed + 1 }

-- The counts after one pack, and the size of its sender group; nothing where `_process` raises.
abbrev pub count_outcome : Outcome → Counts → Option (ℕ × Counts)
count_outcome skipped k = some (1, record k { n_skipped = k.n_skipped + 1 })
count_outcome (processed group) k = some (group, record k { n_processed = k.n_processed + 1 })
count_outcome outcome_unknown k = none
count_outcome key_error k = none

-- How many records of the sender group are still to come: the first record of a group sets the
-- number, `range(1, sender_count)`.
abbrev pub still_in_group : (left group : ℕ) → ℕ
still_in_group zero group = group - 1
still_in_group (suc left) group = left

-- `list_pending_packs`; `indexed` is the partition of pending rows, in the index's order.
abbrev pub list_pending_packs : (limit : ℕ) → (now : Text) → (indexed : List Pack) → List Pack
list_pending_packs limit now indexed = take limit (keep (λ p. text_le p.send_at now) indexed)

-- The enqueueing loop of `_sweep`: how many messages SQS took, and the queue.
unfoldable pub enqueue_due : (takes : Text → Bool) → List Pack → ℕ × List Text → ℕ × List Text
enqueue_due takes [] (n, queue) = (n, queue)
enqueue_due takes (p ∷ ps) (n, queue) =
    if takes p.pack_id
    then enqueue_due takes ps (n + 1, queue ++ (p.pack_id ∷ []))
    else enqueue_due takes ps (n, queue)

pub record Swept : Type 0 where
  pub swept : ℕ
  pub enqueued : ℕ
  pub stale_unknown : ℕ

module _ {P : Type 0} ⦃packs : Table P Pack⦄ where
  -- `_sweep`; `cutoff` is the time CLAIM_STALE_S ago.
  unfoldable pub sweep :
      (takes : Text → Bool)
      → (limit : ℕ) → (cutoff now : Text) → (indexed claimed : List Pack) → P × List Text
      → Swept × (P × List Text)
  unfolding enqueue_due
  sweep takes limit cutoff now indexed claimed (t, queue) =
      let due = list_pending_packs limit now indexed in
      let (n, queue') = enqueue_due takes due (0, queue) in
      let (stale, t') = expire_stale_claims limit cutoff now claimed t in
      (record { swept = length due; enqueued = n; stale_unknown = stale }, (t', queue'))

module _ {P C E A K : Type 0} ⦃packs : Table P Pack⦄ ⦃ids : Table C ℕ⦄ ⦃events : Table E Event⦄
    ⦃pointers : Table A Text⦄ ⦃key_items : Table K KeyItem⦄ (codec : Codec)
    (post : Message → Reply) where
  -- The loop of `handler`; `left` is what is left of a sender group. The pause after a group is left
  -- out.
  unfoldable pub drain :
      (left : ℕ) → List Delivery → Counts × Cloud P C E A K → Batch × Cloud P C E A K
  drain left [] (k, c) = (batch_done k, c)
  drain left (d ∷ ds) (k, c) = elim d.pack_id [
    | none ↦ drain (left - 1) ds (one_failed k, c)
    | some id ↦
        let (outcome, c') = process codec post id d.at c in
        elim (count_outcome outcome k) [
          | none ↦ (batch_raised, c')
          | some (group, k') ↦ drain (still_in_group left group) ds (k', c')
        ]
  ]

  -- `handler` for an event that has records.
  unfoldable pub handler : List Delivery → Cloud P C E A K → Batch × Cloud P C E A K
  unfolding drain
  handler ds c = drain 0 ds (no_counts, c)
