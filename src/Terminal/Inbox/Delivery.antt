-- ===== src/Terminal/Inbox/Delivery.antt =====
-- No event that is pulled is lost, and none is stored twice.
use mail_chad.Base.{◌≡◌, Bool, true, Option, List, ◌++◌, Text, In}
use mail_chad.Base.Table.{Table}
use mail_chad.Cloud.Event.{Event}
use mail_chad.Terminal.Inbox.{InboxRow}
use mail_chad.Terminal.Inbox.Rows.{Stores, NoTwins}

module _ (b64decode : Text → Option Text) (now : Text) where
  -- What one event adds.
  abbrev Adds : Event → List InboxRow → List InboxRow → Type 0
  Adds e rows rows' =
      (more : List InboxRow) × (rows' ≡ rows ++ more)
      × (NoTwins rows → NoTwins rows')
      × Stores rows' e

  -- What a list of events adds, whether or not an exception ends it.
  abbrev AddsAll : List Event → List InboxRow → Bool × List InboxRow → Type 0
  AddsAll es rows result =
      (more : List InboxRow) × (result.1 ≡ rows ++ more)
      × (NoTwins rows → NoTwins result.1)
      × (result.0 ≡ true → (e : Event) → In e es → Stores result.1 e)
