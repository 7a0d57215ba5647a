-- ===== src/Cloud/KTemp.antt =====
-- mailman/cloud/keys_dynamo.py: the temporary key that opens the packs. A key is stored under its
-- id, and one pointer item names the active key.
pub mod Life
mod Tests
use mail_chad.Base.{
  ℕ, ◌+◌, ◌-◌, Bool, ◌||◌, Option, none, some, Text, text_eq, is_empty, if◌then◌else◌, ◌==◌, ltb,
  str, length,
}
use mail_chad.Base.Table.{Table, get_item, write_item, always}

pub record KeyItem : Type 0 where
  pub key_id : Text
  pub key_bytes : Text
  pub expires_at : ℕ
  pub set_at : ℕ
  pub set_by : Text
  pub ttl_seconds : ℕ

pub record Keys (Pointers Items : Type 0) : Type 0 where
  pub active : Pointers
  pub items : Items

-- The exceptions of `set_k_temp`.
pub data KeyError : Type 0 where
  bad_length ttl_violation bad_actor : KeyError

pub data SetResult : Type 0 where
  set_meta : KeyItem → SetResult
  refused : KeyError → SetResult

-- What `k_temp_status` reports: never the key itself.
pub record Metadata : Type 0 where
  pub key_id : Text
  pub set_by : Text
  pub set_at : ℕ
  pub expires_at : ℕ
  pub remaining_s : ℕ
  pub ttl_seconds : ℕ

-- `VALID_TTLS`: an hour, a day, a week
abbrev pub is_valid_ttl : ℕ → Bool
is_valid_ttl ttl = ttl == 3600 || ttl == 86400 || ttl == 604800

abbrev pub is_party : Text → Bool
is_party actor = text_eq actor (str "operator") || text_eq actor (str "client")

abbrev pub pointer_key : Text
pointer_key = str "KTEMP_ACTIVE"

-- A write that deletes its item.
abbrev pub erase {ℓ} : {A : Type ℓ} → Option A → Option A
erase _ = none

module _ {Items : Type 0} ⦃rows : Table Items KeyItem⦄ where
  abbrev pub drop_item : Option Text → Items → Items
  drop_item none t = t
  drop_item (some kid) t = (write_item kid always (erase {A = KeyItem}) t).1

abbrev pub metadata : (now : ℕ) → Option KeyItem → Option Metadata
metadata now none = none
metadata now (some item) =
    if ltb item.expires_at now
    then none
    else some (record {
      key_id = item.key_id;
      set_by = item.set_by;
      set_at = item.set_at;
      expires_at = item.expires_at;
      remaining_s = item.expires_at - now;
      ttl_seconds = item.ttl_seconds;
    })

abbrev pub key_item : (key_id_of : Text → Text) → Text → (ttl now : ℕ) → (set_by : Text) → KeyItem
key_item key_id_of k ttl now set_by = record {
  key_id = key_id_of k;
  key_bytes = k;
  expires_at = now + ttl;
  set_at = now;
  set_by = set_by;
  ttl_seconds = ttl;
}

module _ {Pointers Items : Type 0} ⦃pointers : Table Pointers Text⦄
    ⦃rows : Table Items KeyItem⦄ where
  -- The id that the active pointer holds, if there is one that is not empty.
  unfoldable pub active_id : Keys Pointers Items → Option Text
  active_id s = elim (get_item pointer_key s.active) [
    | none ↦ none
    | some kid ↦ if is_empty kid then none else some kid
  ]

  unfoldable pub wipe_k_temp : Keys Pointers Items → Keys Pointers Items
  unfolding active_id
  wipe_k_temp s = record {
    active = (write_item pointer_key always (erase {A = Text}) s.active).1;
    items = drop_item (active_id s) s.items;
  }

  -- `now` is `int(time.time())`
  abbrev pub live_key :
      (now : ℕ) → Keys Pointers Items → Option KeyItem → Option Text × Keys Pointers Items
  live_key now s none = (none, s)
  live_key now s (some item) =
      if ltb item.expires_at now then (none, wipe_k_temp s) else (some item.key_bytes, s)

  unfoldable pub fetch_ktemp :
      (now : ℕ) → Text → Keys Pointers Items → Option Text × Keys Pointers Items
  unfolding wipe_k_temp
  fetch_ktemp now kid s = live_key now s (get_item kid s.items)

  unfoldable pub get_active_k_temp :
      (now : ℕ) → Keys Pointers Items → Option Text × Keys Pointers Items
  unfolding fetch_ktemp active_id
  get_active_k_temp now s = elim (active_id s) [
    | none ↦ (none, s)
    | some kid ↦ fetch_ktemp now kid s
  ]

  unfoldable pub k_temp_status : (now : ℕ) → Keys Pointers Items → Option Metadata
  unfolding active_id
  k_temp_status now s = elim (active_id s) [
    | none ↦ none
    | some kid ↦ metadata now (get_item kid s.items)
  ]

  abbrev pub store_key : KeyItem → Keys Pointers Items → Keys Pointers Items
  store_key item s = record {
    active = (write_item pointer_key always (λ _. some item.key_id) s.active).1;
    items = (write_item item.key_id always (λ _. some item) s.items).1;
  }

  -- The first eight hexadecimal digits of the key's SHA-256, `_key_id`, stand for `key_id_of`.
  module _ (key_id_of : Text → Text) where
    unfoldable pub set_k_temp :
        Text
        → (ttl now : ℕ) → (set_by : Text) → Keys Pointers Items
        → SetResult × Keys Pointers Items
    set_k_temp k ttl now set_by s =
        if length k == 32
        then if is_valid_ttl ttl
          then if is_party set_by
            then (
              set_meta (key_item key_id_of k ttl now set_by),
              store_key (key_item key_id_of k ttl now set_by) s,
            )
            else (refused bad_actor, s)
          else (refused ttl_violation, s)
        else (refused bad_length, s)
