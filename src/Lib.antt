-- ===== src/Lib.antt =====
-- MailChad sends e-mail campaigns. Terminals encrypt each message into a pack and push it to the
-- cloud, which keeps the packs in one DynamoDB table; a queue, or a timed sweep, hands the ids of
-- due packs to the dispatcher, which claims a pack, opens it with a temporary key, posts it to
-- Resend and stores the outcome; the terminals poll for the outcomes with a cursor. The code
-- modelled is src/mailman/cloud and, of src/mailman/terminal, the send plan, the schedule and the
-- contact lock, the push, the recording of outcomes and of unsubscribes, the inbox with what is made of
-- it, and the cleaning of address lists.
--
-- Base: tests, texts as lists of code points with Python's order, list helpers, and `Table`, the
--   interface of a keyed table with point reads and atomic conditional writes, which is what the
--   code uses of DynamoDB. Every definition takes its tables as instance arguments; a table of
--   functions is the instance that the tests run on. `Partition` has the rows of one partition in
--   the order of their sort keys, with range queries, and is an instance too.
-- Cloud.Pack: the pack section of src/mailman/cloud/dynamo.py. `Lifecycle` has the calls that write
--   packs in any order, `Spent` and `Stored` what each call does, `Bulk` and `Expiry` the two
--   operations that go through a listing. A listing is an argument of its own, since the index
--   that it comes from may lag behind the table.
-- Cloud.Pack.Outcome: `list_resolved_packs` and the cursor, with `packs_status` of
--   src/mailman/cloud/packs.py. The pages of each status partition are an argument.
-- Cloud.Unsub: `put_unsub` and `list_unsubs` of src/mailman/cloud/dynamo.py.
-- Cloud.Sync: `sync_push` and `sync_pull` of src/mailman/cloud/sync.py, with the queries of the event
--   log and `put_near_conflict`. The log is a partition in the order of its keys; the index by row is
--   a function of it, since it may lag behind.
-- Cloud.Event: `put_event` of src/mailman/cloud/dynamo.py.
-- Cloud.KTemp: src/mailman/cloud/keys_dynamo.py.
-- Cloud.Envelope: `decrypt_with_temp` of src/mailman/cloud/encryption_cloud.py.
-- Cloud.PackApi: src/mailman/cloud/packs.py. What other actors write between the calls of
--   `packs_cancel` is an argument.
-- Cloud.Dispatcher: src/mailman/cloud/dispatcher_lambda.py. `process` is `_process` without
--   interruption; `Worker` cuts it at its calls to the outside, `Refine` relates the two, and
--   `Interleave` runs any number of workers with the API, the sweep and changes of keys in between.
--   `Batch` has `handler` and `_sweep`.
-- Cloud.Handshake: src/mailman/cloud/handshake.py, `require_bearer` of src/mailman/cloud/sync.py, and
--   the sessions and public keys of src/mailman/cloud/dynamo.py. `Guard` and `Keeps` have the
--   requests in any order, `Answers` and `Shut` the two that write.
-- Cloud.Svix, Cloud.Webhook: src/mailman/cloud/webhook_receiver.py, the guards and the rest of
--   `resend_webhook`. `Signed` has what the guards let through, `Once` the answers,
--   `Forwards` the events that are logged.
-- Cloud.Tokens: src/mailman/cloud/compliance_tokens.py; `Minted` has the way from `mint` to `verify`.
-- Terminal.Plan: `_plan_sends` of src/mailman/terminal/launch.py, over the rows that its queries
--   return.
-- Terminal.Push: `_push_and_record` and what it calls, and the claims of a re-launch, of the same file.
--   The cloud's answers to the chunks are an argument; the tables are those of Terminal.Outcomes.
-- Terminal.Outcomes: `_apply_pack_outcome` of src/mailman/terminal/sync_client.py.
-- Terminal.MergeUnsubs: `_merge_unsubs` of the same file.
-- Terminal.Inbox: `pull_loop`, `_apply_event`, `push_loop`, `_drain_outbox` and `_mark_outbox_pushed` of
--   the same file, one round from the answer of the cloud on.
-- Terminal.Materialise: `_materialise_inbox_batch` and what it calls, of the same file. `Engaged` has
--   what an event may do to a mail, `Keeps` and `Stamps` a whole round.
-- Terminal.CampaignLock: src/mailman/terminal/campaign_lock.py, over the rows of its two tables.
-- Terminal.Schedule: src/mailman/terminal/send_schedule.py. Instants are microseconds; the time zone
--   and the gaps, which are floats, are arguments.
-- Terminal.EmailClean: src/mailman/terminal/email_clean.py, on ASCII texts.
-- Cloud.Samples, and the modules named Tests: concrete runs.
--
-- Times are the texts that the code writes, handed in by the caller; nothing assumes that clocks
-- agree. The loops go through lists; the search for a pack id counts down from the number of
-- recorded jobs, as the code's own bound does, and the digits of a number `n` are printed with
-- fuel `n + 1`. The search for a window and the loop of the schedule run out where the code's own
-- bounds of 400 days and `n * 8 + 2000` rounds end them. uuid5, SHA-256, HMAC, the DNS, Resend, the
-- queue, AES-GCM, base64, the JSON and time readers are parameters. Not modelled: the scheduler of
-- src/mailman/terminal/sync_client.py, the rendering and batching of src/mailman/terminal/launch.py,
-- the settings caches, the pages, the pauses between sends, errors of DynamoDB other than a failed
-- condition, updates of packs that are not stored, an answer of Resend whose JSON is no object, and
-- the HTTP layer.
pub mod Base
pub mod Cloud
pub mod Terminal
