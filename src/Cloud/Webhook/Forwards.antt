-- ===== src/Cloud/Webhook/Forwards.antt =====
-- What a hook that is taken leaves in the event log.
use mail_chad.Base.{ℕ, suc, ◌≡◌, Option, none, some, [], ◌∷◌, Text}
use mail_chad.Base.Table.{Table, get_item}
use mail_chad.Cloud.Event.{Event, Log, event_sk}
use mail_chad.Cloud.Webhook.{Hook, Payload, Clock, suppression_event}

-- The tenth character of a key.
abbrev last_of : Text → ℕ
last_of [] = 0
last_of (c ∷ []) = c
last_of (c ∷ d ∷ s) = last_of (d ∷ s)

module _ (hash_of : Text → Text) (seal : Text × Text → Payload → Text) (now : Clock) where
  module _ {Counters Events : Type 0} ⦃ids : Table Counters ℕ⦄ ⦃rows : Table Events Event⦄ where
    -- The suppression that a hook calls for stands behind its event.
    abbrev pub SideLogged :
        Text × Text → Hook → Option Text → (event_id : ℕ) → Log Counters Events → Type 0
    SideLogged k h none id log = Unit
    SideLogged k h (some reason) id log =
        get_item (event_sk (suc id)) log.events
        ≡ some (record (suppression_event hash_of seal now k h reason) { event_id = suc id })
