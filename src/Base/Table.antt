-- ===== src/Base/Table.antt =====
-- The interface of a keyed table of one kind of item, as the cloud code uses DynamoDB: a point
-- read, and an atomic write under a condition on the item that is stored.
use mathlib.Core.Path.{◌≡◌, refl}
use mathlib.Core.Bool.{Bool, true, ◌&&◌}
use mathlib.Core.Option.{Option, none}
use mail_chad.Base.Tests.{if◌then◌else◌}
use mail_chad.Base.Texts.{Text, text_eq}

-- `write k c f t` tests `c` on the item at `k` and, where it holds, stores what `f` makes of that
-- item (`none` deletes it). Its first part says whether the condition held; DynamoDB reports a
-- failed one as ConditionalCheckFailedException.
pub record Table (Tab Item : Type 0) : Type 0 where
  pub get : Text → Tab → Option Item
  pub write : Text → (Option Item → Bool) → (Option Item → Option Item) → Tab → Bool × Tab
  pub write_reports :
      (k : Text) (c : Option Item → Bool) (f : Option Item → Option Item) (t : Tab)
      → (write k c f t).0 ≡ c (get k t)
  pub get-write :
      (j k : Text) (c : Option Item → Bool) (f : Option Item → Option Item) (t : Tab)
      → get j (write k c f t).1 ≡ (if text_eq k j && c (get k t) then f (get k t) else get j t)

-- The condition of a write that has none.
abbrev pub always : {Item : Type 0} → Option Item → Bool
always _ = true

-- The methods, by the table that the types determine.
module _ {Tab Item : Type 0} ⦃store : Table Tab Item⦄ where
  abbrev pub get_item : Text → Tab → Option Item
  get_item = store.get

  abbrev pub write_item :
      Text → (Option Item → Bool) → (Option Item → Option Item) → Tab → Bool × Tab
  write_item = store.write

-- A table that runs: a function from keys to items.
abbrev pub FunTable : Type 0 → Type 0
FunTable Item = Text → Option Item

module _ {Item : Type 0} where
  abbrev fun_write :
      Text
      → (Option Item → Bool)
      → (Option Item → Option Item)
      → FunTable Item
      → Bool × FunTable Item
  fun_write k c f t = (c (t k), λ j. if text_eq k j && c (t k) then f (t k) else t j)

  instance abbrev pub fun_table : Table (FunTable Item) Item
  fun_table = record {
    get = λ k t. t k;
    write = fun_write;
    write_reports = λ k c f t. refl;
    get-write = λ j k c f t. refl;
  }

  abbrev pub empty_table : FunTable Item
  empty_table _ = none
