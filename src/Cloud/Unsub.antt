-- ===== src/Cloud/Unsub.antt =====
-- The unsubscribe list of mailman/cloud/dynamo.py: `put_unsub` and `list_unsubs`. A cache row under
-- the address's hash stands for the person; a log row, under time and hash, tells the terminals.
pub mod Scope
mod Tests
use mathlib.Core.Option
use mail_chad.Base.{
  ℕ, Bool, true, false, not, ◌&&◌, ◌||◌, Option, none, some, List, [], ◌∷◌, ◌++◌, Text, text_eq,
  text_lt, is_empty, if◌then◌else◌, str, keep, take,
}
use mail_chad.Base.Table.{Table, get_item, write_item, always}
use mail_chad.Base.Partition.{Rows, put_row}

pub record UnsubRow : Type 0 where
  pub email_hash : Text
  pub source_token : Text
  pub scope : Text
  pub added_at : Text

pub record UnsubLog : Type 0 where
  pub email_hash : Text
  pub scope : Text
  pub added_at : Text

pub record Unsubs (Cache : Type 0) : Type 0 where
  pub cache : Cache
  pub log : Rows UnsubLog

abbrev pub is_all : Text → Bool
is_all scope = text_eq scope (str "all")

-- `f"{now}#{email_hash}"`
abbrev pub log_key : (now email_hash : Text) → Text
log_key now email_hash = now ++ (b'#' ∷ email_hash)

-- `Attr("email_hash").not_exists()`
abbrev pub no_row : Option UnsubRow → Bool
no_row none = true
no_row (some _) = false

abbrev pub widen : UnsubRow → UnsubRow
widen r = record r { scope = str "all" }

abbrev pub unsub_row : (email_hash source_token scope now : Text) → UnsubRow
unsub_row email_hash source_token scope now = record {
  email_hash = email_hash;
  source_token = source_token;
  scope = scope;
  added_at = now;
}

abbrev pub log_entry : (email_hash scope now : Text) → UnsubLog
log_entry email_hash scope now = record { email_hash = email_hash; scope = scope; added_at = now }

module _ {Cache : Type 0} ⦃rows : Table Cache UnsubRow⦄ where
  -- The second write of the cache row, where the first one met a row.
  abbrev pub upgrade : (email_hash scope : Text) → (is_new : Bool) → Cache → Cache
  upgrade email_hash scope is_new t =
      if not is_new && is_all scope
      then (write_item email_hash always (Option.map widen) t).1
      else t

  unfoldable pub put_unsub :
      (email_hash source_token scope now : Text) → Unsubs Cache → Bool × Unsubs Cache
  put_unsub email_hash source_token scope now s =
      let row = unsub_row email_hash source_token scope now in
      let (is_new, t) = write_item email_hash no_row (λ _. some row) s.cache in
      let entry = log_entry email_hash scope now in
      (
        is_new,
        record {
          cache = upgrade email_hash scope is_new t;
          log =
              if is_new || is_all scope
              then put_row (log_key now email_hash) entry s.log
              else s.log;
        },
      )

  unfoldable pub get_unsub : Text → Cache → Option UnsubRow
  get_unsub email_hash t = get_item email_hash t

-- `list_unsubs`: each entry with its cursor.
unfoldable pub list_unsubs : (since_cursor : Text) → (limit : ℕ) → Rows UnsubLog → Rows UnsubLog
list_unsubs since_cursor limit log =
    take limit (keep (λ r. is_empty since_cursor || text_lt since_cursor r.0) log)
