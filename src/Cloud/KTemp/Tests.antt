-- ===== src/Cloud/KTemp/Tests.antt =====
-- One temporary key: set, read, expired.
use mail_chad.Base.{◌≡◌, refl, true, none, some, str, if◌then◌else◌, ltb, length, ◌+◌, text_eq}
use mail_chad.Base.Table.{fun_table}
use mail_chad.Cloud.Samples.{key_bytes, key_id_of, OneKey, no_key}
use mail_chad.Cloud.KTemp.{key_item, is_valid_ttl, is_party, set_k_temp, get_active_k_temp}
use mail_chad.Cloud.KTemp.Life.{get_active-set_k_temp}

abbrev just_set : OneKey
just_set = (set_k_temp key_id_of key_bytes 3600 100 (str "operator") no_key).1

get_active-set_k_temp_example :
    (length key_bytes ≡ 32)
    × (is_valid_ttl 3600 ≡ true)
    × (is_party (str "operator") ≡ true)
    × ((get_active_k_temp 200 just_set).0 ≡ (if ltb (100 + 3600) 200 then none else some key_bytes))
unfolding set_k_temp text_eq
get_active-set_k_temp_example =
    get_active-set_k_temp key_id_of key_bytes 3600 100 200 (str "operator") no_key
      (key_item key_id_of key_bytes 3600 100 (str "operator")) refl refl
