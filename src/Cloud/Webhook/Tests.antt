-- ===== src/Cloud/Webhook/Tests.antt =====
-- A bounce that is delivered twice, and one that is signed by nobody. The tag under a secret is the
-- secret here.
use mail_chad.Base.{
  ℕ, ◌≡◌, ◌⊎◌, refl, none, some, Option, Text, str, text_eq, starts_with, split_on, lstrip, rstrip,
}
use mail_chad.Base.Table.{FunTable, fun_table, empty_table, get_item}
use mail_chad.Cloud.Event.{Event, put_event, next_id}
use mail_chad.Cloud.Handshake.{Pubkey}
use mail_chad.Cloud.Svix.{
  ℤ, pos, Request, Refusal, bad_signature, check_request, verify_with, has_signature,
}
use mail_chad.Cloud.Svix.Signed.{IsSigned, IsTimely}
use mail_chad.Cloud.Webhook.{
  Hook, Reading, hook, Payload, webhook_event, suppression, RawRow, Answer, refused, duplicate,
  forwarded, Hub, Clock, forward, resend_webhook,
}
use mail_chad.Cloud.Webhook.Once.{IsStored, receive, resend_webhook-Accepts, resend_webhook-once}

abbrev Sample : Type 0
Sample = Hub (FunTable ℕ) (FunTable Event) (FunTable RawRow) (FunTable Pubkey)

abbrev key_of : Text → Pubkey
key_of actor = record { actor = actor; kem_pub = actor; registered_at = str "07:00" }

abbrev registered : FunTable Pubkey
registered actor = some (key_of actor)

abbrev hub : Sample
hub = record {
  log = record { counters = empty_table; events = empty_table };
  raws = empty_table;
  pubkeys = registered;
}

abbrev request : (signature : Text) → Request
request signature = record {
  svix_id = str "msg_1";
  svix_timestamp = str "1000";
  svix_signature = signature;
  body = str "{}";
}

abbrev bounced : Hook
bounced = record {
  event_type = some (str "email.bounced");
  email_id = some (str "m1");
  id = none;
  recipient = some (str "ann@x.org");
}

abbrev bounce : Text → Reading
bounce body = hook bounced

abbrev label : Text × Text → Payload → Text
label k (webhook_event id type message recipient raw at) = str "hook"
label k (suppression hashed reason source at) = reason

abbrev tag : (secret message : Text) → Text
tag secret message = secret

abbrev no_base64 : Text → Option Text
no_base64 t = none

abbrev thousand : Text → Option ℤ
thousand t = some (pos 1000)

abbrev clock : Clock
clock = record { second = str "08:00"; instant = str "08:00:00.5" }

abbrev take_at : ℕ → Request → Sample → Answer × Sample
take_at now_s r h =
    receive (λ t. t) label bounce tag no_base64 (str "whsec_old, new") thousand 600 clock now_s r h

abbrev first : Answer × Sample
first = take_at 1100 (request (str "v1,other v1,new")) hub

both_logged :
    (first.0 ≡ forwarded 1 (some (str "bounce_hard")))
    × ((take_at 1200 (request (str "v1,new")) first.1).0 ≡ duplicate)
    × ((take_at 1200 (request (str "v1,none")) first.1).0 ≡ refused bad_signature)
unfolding resend_webhook check_request verify_with has_signature forward put_event next_id text_eq
    starts_with split_on lstrip rstrip
both_logged = (refl, refl, refl)

resend_webhook-Accepts_example :
    let r = request (str "v1,new") in
    let s = take_at 1100 r hub in
    (((e : Refusal) × (s.0 ≡ refused e)) × (s.1 ≡ hub))
    ⊎ (IsSigned tag no_base64 (str "whsec_old, new") r
        × IsTimely tag no_base64 (str "whsec_old, new") thousand 600 1100 r
        × (((s.0 ≡ duplicate) × (s.1 ≡ hub) × IsStored r.svix_id hub)
            ⊎ ((get_item {Item = RawRow} r.svix_id hub.raws ≡ none) × IsStored r.svix_id s.1)))
resend_webhook-Accepts_example =
    resend_webhook-Accepts (λ t. t) label bounce tag no_base64 (str "whsec_old, new") thousand 600
      clock 1100 (request (str "v1,new")) hub

resend_webhook-once_example : (take_at 1200 (request (str "v1,new")) first.1).1 ≡ first.1
unfolding resend_webhook check_request verify_with has_signature forward put_event next_id text_eq
    starts_with split_on lstrip rstrip
resend_webhook-once_example =
    resend_webhook-once (λ t. t) label bounce tag no_base64 (str "whsec_old, new") thousand 600
      clock clock 1100 1200 (request (str "v1,other v1,new")) (request (str "v1,new")) hub
      (λ e h. cc) refl

abbrev both : Text × Text
both = (str "operator", str "client")
