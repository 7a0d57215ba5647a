-- ===== src/Cloud/Samples.antt =====
-- Concrete packs, keys and answers for the tests of the cloud's modules.
use mail_chad.Base.{ℕ, none, some, [], Text, str}
use mail_chad.Base.Table.{FunTable, fun_table, empty_table, write_item, always}
use mail_chad.Cloud.Pack.{sent, Pack, NewPack, fresh_pack}
use mail_chad.Cloud.Event.{Event}
use mail_chad.Cloud.KTemp.{KeyItem, Keys, store_key, key_item}
use mail_chad.Cloud.Envelope.{ok, Message, Plain, Codec}
use mail_chad.Cloud.Dispatcher.{Reply, answer, Cloud, Moment}

abbrev pub new_pack : Text → ℕ → NewPack
new_pack id campaign_id = record {
  pack_id = id;
  campaign_id = campaign_id;
  recipient_hash = str "r";
  content_hash = str "c";
  send_at = str "08:00";
  key_id = str "k1";
  encrypted_payload = str "blob";
}

abbrev pub stored_pack : Text → ℕ → Pack
stored_pack id campaign_id = fresh_pack (new_pack id campaign_id) (str "operator") (str "07:00")

abbrev pub Packs : Type 0
Packs = FunTable Pack

abbrev pub store_pack : Pack → Packs → Packs
store_pack p t = (write_item p.pack_id always (λ _. some p) t).1

abbrev pub one_pack : Packs
one_pack = store_pack (stored_pack (str "p1") 7) empty_table

-- A pack that was sent at the given time.
abbrev pub sent_pack : Text → Text → Pack
sent_pack id at = record (stored_pack id 7) {
  status = sent;
  encrypted_payload = none;
  resolved_at = some at;
}

abbrev pub plain : Plain
plain = record {
  resend_api_key = some (str "api");
  message = some (record {
    from = str "a";
    recipient = str "b";
    subject = str "s";
    html = str "h";
    headers = [];
    text = none;
  });
  campaign_id = some 7;
  group = 1;
}

-- A codec that takes every key and every payload.
abbrev pub lax_codec : Codec
lax_codec = record {
  json_envelope = λ t. ok (record { mode = str "K_temp"; nonce = str "n"; ct = t });
  b64decode = λ t. ok t;
  aes_open = λ key nonce ct. ok ct;
  json_plain = λ t. ok plain;
  no_payload = str "TypeError";
}

abbrev pub delivered : Message → Reply
delivered m = answer 200 none (some (str "re_1"))

abbrev pub key_bytes : Text
key_bytes = str "0123456789abcdef0123456789abcdef"

abbrev pub key_id_of : Text → Text
key_id_of k = str "ab12cd34"

abbrev pub OneKey : Type 0
OneKey = Keys (FunTable Text) (FunTable KeyItem)

abbrev pub no_key : OneKey
no_key = record { active = empty_table; items = empty_table }

-- Set at 100 for an hour.
abbrev pub one_key : OneKey
one_key = store_key (key_item key_id_of key_bytes 3600 100 (str "operator")) no_key

abbrev pub at_eight : Moment
at_eight = record {
  claim_at = str "08:00";
  unix = 200;
  resolve_at = str "08:01";
  sent_at = str "08:01";
  received_at = str "08:01";
}

abbrev pub Clouds : Type 0
Clouds = Cloud Packs (FunTable ℕ) (FunTable Event) (FunTable Text) (FunTable KeyItem)

abbrev pub one_cloud : Clouds
one_cloud = record {
  packs = one_pack;
  log = record { counters = empty_table; events = empty_table };
  keys = one_key;
  posts = [];
}
