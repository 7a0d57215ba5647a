-- ===== src/Terminal/Inbox/Tests.antt =====
-- A page of two events, of which the inbox has one.
use mail_chad.Base.{ℕ, ◌≡◌, refl, false, none, some, [], ◌∷◌, Text, str, text_eq}
use mail_chad.Base.Table.{FunTable, fun_table, empty_table}
use mail_chad.Cloud.Event.{Event}
use mail_chad.Terminal.MergeUnsubs.{Suppressed}
use mail_chad.Terminal.Inbox.{
  Page, page, Local, inbox_row, pull_round, OutboxRow, push_round, drain_outbox,
}

abbrev event : ℕ → Text → Event
event id row = record {
  event_id = id;
  table_name = str "contacts";
  row_id = row;
  revision = 1;
  actor = str "client";
  modified_at = str "08:00";
  key_id = str "K_op+K_cl";
  encrypted_payload = none;
  deleted = false;
  received_at = str "08:01";
}

abbrev answer : Page
answer = record {
  events = event 4 (str "a") ∷ event 5 (str "b") ∷ [];
  max_event_id = 5;
  unsubs = [];
  max_unsub_at = [];
}

abbrev terminal : Local (FunTable Suppressed)
terminal = record {
  inbox = inbox_row (str "08:02") (event 4 (str "a")) none ∷ [];
  suppressed = empty_table;
  last_pulled_event_id = 3;
  last_pulled_unsub_at = [];
  last_pull_ok_at = none;
}

one_added :
    (pull_round some (str "08:05") (page answer) terminal).inbox
    ≡ inbox_row (str "08:02") (event 4 (str "a")) none
      ∷ inbox_row (str "08:05") (event 5 (str "b")) none
      ∷ []
unfolding pull_round text_eq
one_added = refl

-- The cloud assigned one id to the two rows that were pushed: the second is pushed again.
abbrev pushed_row : ℕ → Text → OutboxRow
pushed_row id row = record {
  outbox_id = id;
  event = event 0 row;
  pushed_at = none;
  assigned_event_id = none;
}

half_marked :
    drain_outbox (
      push_round
        (str "08:06")
        (some (9 ∷ []))
        (pushed_row 1 (str "a") ∷ pushed_row 2 (str "b") ∷ []))
    ≡ pushed_row 2 (str "b") ∷ []
unfolding push_round drain_outbox
half_marked = refl
