-- ===== src/Cloud/Event.antt =====
-- The event log of mailman/cloud/dynamo.py: `_next_id`, `put_event` and the reads of the log.
-- An event is stored under its id, in ten decimal digits, so that the text order of the keys is
-- the order of the ids.
use mail_chad.Base.{ℕ, zero, suc, ◌+◌, ◌/◌, ◌%◌, ◌^◌, Bool, Option, none, some, [], ◌∷◌, Text, str}
use mail_chad.Base.Table.{Table, get_item, write_item, always}

pub record Event : Type 0 where
  pub event_id : ℕ
  pub table_name : Text
  pub row_id : Text
  pub revision : ℕ
  pub actor : Text
  pub modified_at : Text
  pub key_id : Text
  pub encrypted_payload : Option Text
  pub deleted : Bool
  pub received_at : Text

-- The `k` lowest decimal digits of `n`, the highest first.
unfoldable pub padded : ℕ → ℕ → Text
padded zero n = []
padded (suc k) n = (b'0' + n / 10 ^ k % 10) ∷ padded k n

-- `f"{event_id:010d}"`, for an id of at most ten digits.
abbrev pub event_sk : ℕ → Text
event_sk = padded 10

abbrev pub count_up : Option ℕ → Option ℕ
count_up none = some 1
count_up (some n) = some (suc n)

abbrev pub counted : Option ℕ → ℕ
counted none = 0
counted (some n) = n

module _ {Counters : Type 0} ⦃store : Table Counters ℕ⦄ where
  -- The item that the update leaves is what it returns (`UPDATED_NEW`).
  unfoldable pub next_id : (name : Text) → Counters → ℕ × Counters
  next_id name t =
      let t' = (write_item name always count_up t).1 in (counted (get_item name t'), t')

-- The two tables that the log uses.
pub record Log (Counters Events : Type 0) : Type 0 where
  pub counters : Counters
  pub events : Events

module _ {Events : Type 0} ⦃rows : Table Events Event⦄ where
  abbrev pub store_event : Event → Events → Events
  store_event e t = (write_item (event_sk e.event_id) always (λ _. some e) t).1

module _ {Counters Events : Type 0} ⦃ids : Table Counters ℕ⦄ ⦃rows : Table Events Event⦄ where
  -- The id in the argument is replaced by the one that is drawn.
  unfoldable pub put_event : Event → Log Counters Events → ℕ × Log Counters Events
  unfolding next_id
  put_event e log =
      let (event_id, counters') = next_id (str "event_log") log.counters in
      (
        event_id,
        record {
          counters = counters';
          events = store_event (record e { event_id = event_id }) log.events;
        },
      )
