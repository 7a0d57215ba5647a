-- ===== src/Terminal/MergeUnsubs.antt =====
-- `_merge_unsubs` of mailman/terminal/sync_client.py: pulled unsubscribes go into the table
-- suppression_hashes, whose key is the hash.
pub mod Widen
mod Tests
use mathlib.Core.Option
use mail_chad.Base.{
  ℕ, ◌+◌, Bool, true, false, Option, none, some, List, [], ◌∷◌, Text, text_eq, is_empty, contains,
  if◌then◌else◌, str,
}
use mail_chad.Base.Table.{Table, get_item, write_item, always}

-- A pulled entry, as `u.get` finds it.
pub record Pulled : Type 0 where
  pub email_hash : Option Text
  pub scope : Option Text
  pub added_at : Option Text

pub record Suppressed : Type 0 where
  pub email_hash : Text
  pub reason : Text
  pub scope : Text
  pub source : Text
  pub added_at : Text

-- A missing scope counts as `all`, and so does one that is not known.
abbrev pub scope_of : Option Text → Text
scope_of none = str "all"
scope_of (some s) = if contains s (str "promotional" ∷ str "all" ∷ []) then s else str "all"

-- `func.coalesce(u.get("added_at") or None, now)`
abbrev pub added_or : (now : Text) → Option Text → Text
added_or now none = now
added_or now (some t) = if is_empty t then now else t

abbrev pub is_all : Text → Bool
is_all scope = text_eq scope (str "all")

abbrev pub new_row : (now h : Text) → Pulled → Suppressed
new_row now h u = record {
  email_hash = h;
  reason = str "unsubscribe";
  scope = scope_of u.scope;
  source = str "sync:unsub_pull";
  added_at = added_or now u.added_at;
}

abbrev pub to_all : Suppressed → Suppressed
to_all r = record r { scope = str "all" }

-- What one entry makes of the stored row, if anything.
abbrev pub merged : (now h : Text) → Pulled → Option Suppressed → Option Suppressed
merged now h u none = some (new_row now h u)
merged now h u (some r) = if is_all (scope_of u.scope) then some (to_all r) else some r

-- Whether the entry is applied.
abbrev pub changes : Pulled → Option Suppressed → Bool
changes u none = true
changes u (some r) =
    if is_all (scope_of u.scope) then (if is_all r.scope then false else true) else false

module _ {Tab : Type 0} ⦃rows : Table Tab Suppressed⦄ where
  abbrev pub merge_hash : (now h : Text) → Pulled → ℕ × Tab → ℕ × Tab
  merge_hash now h u (n, t) =
      if changes u (get_item h t)
      then (n + 1, (write_item h always (merged now h u) t).1)
      else (n, t)

  abbrev pub merge_entry : (now : Text) → Pulled → ℕ × Tab → ℕ × Tab
  merge_entry now u s = elim u.email_hash [
    | none ↦ s
    | some h ↦ if is_empty h then s else merge_hash now h u s
  ]

  unfoldable pub merge_all : (now : Text) → List Pulled → ℕ × Tab → ℕ × Tab
  merge_all now [] s = s
  merge_all now (u ∷ unsubs) s = merge_all now unsubs (merge_entry now u s)

  unfoldable pub merge_unsubs : (now : Text) → List Pulled → Tab → ℕ × Tab
  unfolding merge_all
  merge_unsubs now unsubs t = merge_all now unsubs (0, t)
