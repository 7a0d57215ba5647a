-- ===== src/Cloud/KTemp/Life.antt =====
-- The life of the temporary key: what is set is read until it expires, and not after; the status
-- tells of the key that a read would return.
use mail_chad.Base.{
  ℕ, ◌+◌, ◌<◌, ◌≡◌, true, false, none, some, Text, text_eq_refl, ltb, if◌then◌else◌, arith,
  is_empty, is_some, length,
}
use mail_chad.Base.Table.{Table, always, get_item}
use mail_chad.Cloud.KTemp.{
  KeyItem, Keys, set_meta, key_item, is_valid_ttl, is_party, pointer_key, active_id, wipe_k_temp,
  get_active_k_temp, k_temp_status, set_k_temp, erase, store_key,
}

module _ {A K : Type 0} ⦃pointers : Table A Text⦄ ⦃rows : Table K KeyItem⦄ where
  wipe-none : (now : ℕ) (s : Keys A K) → (get_active_k_temp now (wipe_k_temp s)).0 ≡ none
  unfolding get_active_k_temp
  wipe-none now s = ground (
    arith,
    pointers.get-write pointer_key pointer_key always (erase {A = Text}) s.active,
    text_eq_refl pointer_key,
  )

  module _ (item : KeyItem) (s : Keys A K) where
    stored_pointer : get_item pointer_key (store_key item s).active ≡ some item.key_id
    stored_pointer = ground (
      arith,
      pointers.get-write pointer_key pointer_key always (λ _. some item.key_id) s.active,
      text_eq_refl pointer_key,
    )

    stored_item : get_item item.key_id (store_key item s).items ≡ some item
    stored_item = ground (
      arith,
      rows.get-write item.key_id item.key_id always (λ _. some item) s.items,
      text_eq_refl item.key_id,
    )

    stored_active : is_empty item.key_id ≡ false → active_id (store_key item s) ≡ some item.key_id
    unfolding active_id
    stored_active h = ground (arith, stored_pointer)

    stored_read :
        (later : ℕ)
        → is_empty item.key_id ≡ false
        → (get_active_k_temp later (store_key item s)).0
          ≡ (if ltb item.expires_at later then none else some item.key_bytes)
    unfolding get_active_k_temp
    stored_read later h = ground (arith, stored_active h, stored_item)

  module _ (key_id_of : Text → Text) where
    -- What is set is a key of 32 bytes with one of the three lifetimes, from one of the two parties.
    -- A later read returns exactly the key that was set last, at any time up to its expiry, and
    -- nothing from then on. The key's id is a text that is not empty.
    pub get_active-set_k_temp :
        (k : Text) (ttl now later : ℕ) (by : Text) (s : Keys A K) (m : KeyItem)
        → is_empty (key_id_of k) ≡ false
        → (set_k_temp key_id_of k ttl now by s).0 ≡ set_meta m
        → (length k ≡ 32)
          × (is_valid_ttl ttl ≡ true)
          × (is_party by ≡ true)
          × ((get_active_k_temp later (set_k_temp key_id_of k ttl now by s).1).0
              ≡ (if ltb (now + ttl) later then none else some k))
    unfolding set_k_temp
    get_active-set_k_temp k ttl now later by s m id h =
        ground (arith, stored_read (key_item key_id_of k ttl now by) s later id)

  -- An expired key is gone after the read that finds it expired, whatever the clock says later.
  pub get_active-expired :
      (now later : ℕ) (s : Keys A K) {kid : Text} {item : KeyItem}
      → active_id s ≡ some kid
      → get_item kid s.items ≡ some item
      → item.expires_at < now
      → let (key, s') = get_active_k_temp now s in
        (key ≡ none)
        × ((get_active_k_temp later s').0 ≡ none)
        × (get_item {Item = KeyItem} kid s'.items ≡ none)
  unfolding get_active_k_temp
  get_active-expired now later s {kid} {item} p q h =
      let gone = rows.get-write kid kid always (erase {A = KeyItem}) s.items in
      let wiped = wipe-none later s in ground (arith, p, q, gone, wiped, text_eq_refl kid)

  -- The status speaks of a key exactly when a read returns one.
  pub k_temp_status-reads :
      (now : ℕ) (s : Keys A K) → is_some (k_temp_status now s) ≡ is_some (get_active_k_temp now s).0
  unfolding k_temp_status get_active_k_temp
  k_temp_status-reads now s = ground arith
