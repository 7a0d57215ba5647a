-- ===== src/Cloud/Webhook/Once.antt =====
-- Which requests the webhook receiver takes, and how often.
use mail_chad.Base.{
  ℕ, ◌≡◌, ◌≢◌, refl, sym, ◌⊎◌, subst, Option, none, some, Text, text_eq_refl, inl, inr,
}
use mail_chad.Base.Table.{Table, get_item, always}
use mail_chad.Cloud.Event.{Event}
use mail_chad.Cloud.Handshake.{Pubkey}
use mail_chad.Cloud.Svix.{ℤ, Request, Refusal, check_request}
use mail_chad.Cloud.Svix.Signed.{IsSigned, IsTimely, check_request-none}
use mail_chad.Cloud.Webhook.{
  Hook, Reading, no_json, unusable, hook, Payload, RawRow, Answer, refused, duplicate, Hub, Clock,
  raw_row, put_webhook_raw, forward, on_keys, on_stored, on_reading, on_check, resend_webhook,
}

module _ {Raws : Type 0} ⦃stored : Table Raws RawRow⦄ where
  put_webhook_raw-stored :
      (now : Clock) (r : Request) (h : Hook) (id : Option ℕ) (t : Raws)
      → get_item r.svix_id (put_webhook_raw now r h id t) ≡ some (raw_row now r h id)
  put_webhook_raw-stored now r h id t =
      rw
        (
          stored.get-write r.svix_id r.svix_id always (λ _. some (raw_row now r h id)) t,
          text_eq_refl r.svix_id,
        )
        refl

module _ {Counters Events Raws Pubkeys : Type 0} ⦃ids : Table Counters ℕ⦄
    ⦃rows : Table Events Event⦄ ⦃stored : Table Raws RawRow⦄ ⦃keys : Table Pubkeys Pubkey⦄ where
  -- The id has its row.
  abbrev pub IsStored : Text → Hub Counters Events Raws Pubkeys → Type 0
  IsStored svix_id hub = (row : RawRow) × (get_item svix_id hub.raws ≡ some row)

  -- What an answer says of the hub before and after it: a refusal changes nothing, a duplicate neither,
  -- and any other answer leaves the raw row of the request, which was not there before.
  abbrev pub Took :
      Text → Hub Counters Events Raws Pubkeys → Answer × Hub Counters Events Raws Pubkeys → Type 0
  Took svix_id hub s =
      (((e : Refusal) × (s.0 ≡ refused e)) × (s.1 ≡ hub))
      ⊎ ((s.0 ≡ duplicate) × (s.1 ≡ hub) × IsStored svix_id hub)
      ⊎ ((get_item {Item = RawRow} svix_id hub.raws ≡ none) × IsStored svix_id s.1)

  module _ (hash_of : Text → Text) (seal : Text × Text → Payload → Text) (now : Clock) where
    on_keys-stores :
        (o : Option (Text × Text)) (r : Request) (h : Hook) (hub : Hub Counters Events Raws Pubkeys)
        → IsStored r.svix_id (on_keys hash_of seal now o r h hub).1
    unfolding forward
    on_keys-stores none r h hub =
        (raw_row now r h none, put_webhook_raw-stored now r h none hub.raws)
    on_keys-stores (some k) r h hub = (_, put_webhook_raw-stored now r h _ hub.raws)

    on_stored-Took :
        (o : Option RawRow) (r : Request) (h : Hook) (hub : Hub Counters Events Raws Pubkeys)
        → get_item r.svix_id hub.raws ≡ o
        → Took r.svix_id hub (on_stored hash_of seal now o r h hub)
    on_stored-Took (some row) r h hub e = inr (inl (refl, refl, (row, e)))
    on_stored-Took none r h hub e = inr (inr (e, on_keys-stores _ r h hub))

    on_reading-Took :
        (b : Reading) (r : Request) (hub : Hub Counters Events Raws Pubkeys)
        → Took r.svix_id hub (on_reading hash_of seal now b r hub)
    on_reading-Took no_json r hub = inl ((_, refl), refl)
    on_reading-Took unusable r hub = inl ((_, refl), refl)
    on_reading-Took (hook h) r hub = on_stored-Took (get_item r.svix_id hub.raws) r h hub refl

module _ {Counters Events Raws Pubkeys : Type 0} ⦃ids : Table Counters ℕ⦄
    ⦃rows : Table Events Event⦄ ⦃stored : Table Raws RawRow⦄ ⦃keys : Table Pubkeys Pubkey⦄
    (hash_of : Text → Text) (seal : Text × Text → Payload → Text) (read_hook : Text → Reading)
    (hmac : (secret message : Text) → Text) (b64decode : Text → Option Text) (setting : Text)
    (parse_int : Text → Option ℤ) (max_skew : ℕ) where
  -- The receiver at a time.
  abbrev pub receive :
      Clock
      → ℕ
      → Request
      → Hub Counters Events Raws Pubkeys
      → Answer × Hub Counters Events Raws Pubkeys
  receive now now_s r hub =
      resend_webhook hash_of seal now read_hook hmac b64decode setting parse_int max_skew now_s r
        hub

  -- An answer of the receiver says what it did. A request is refused, and the hub stays as it was, or an
  -- entry of its signature header is the code of the id, the timestamp and the body under one of the
  -- configured secrets, and its timestamp is within the allowed skew. Then it is a duplicate, with
  -- the row of its id stored before and the hub as it was, or the id had no row before and has one
  -- afterwards.
  pub resend_webhook-Accepts :
      (now : Clock) (now_s : ℕ) (r : Request) (hub : Hub Counters Events Raws Pubkeys)
      → let s = receive now now_s r hub in
        (((e : Refusal) × (s.0 ≡ refused e)) × (s.1 ≡ hub))
        ⊎ (IsSigned hmac b64decode setting r
            × IsTimely hmac b64decode setting parse_int max_skew now_s r
            × (((s.0 ≡ duplicate) × (s.1 ≡ hub) × IsStored r.svix_id hub)
                ⊎ ((get_item {Item = RawRow} r.svix_id hub.raws ≡ none) × IsStored r.svix_id s.1)))
  unfolding resend_webhook
  resend_webhook-Accepts now now_s r hub = go _ refl
    where
      go :
          (o : Option Refusal)
          → check_request hmac b64decode setting parse_int max_skew now_s r ≡ o
          → let s = on_check hash_of seal now read_hook o r hub in
            (((e : Refusal) × (s.0 ≡ refused e)) × (s.1 ≡ hub))
            ⊎ (IsSigned hmac b64decode setting r
                × IsTimely hmac b64decode setting parse_int max_skew now_s r
                × (((s.0 ≡ duplicate) × (s.1 ≡ hub) × IsStored r.svix_id hub)
                    ⊎ ((get_item {Item = RawRow} r.svix_id hub.raws ≡ none)
                        × IsStored r.svix_id s.1)))
      go (some e) h = inl ((e, refl), refl)
      go none h =
          let (signed, timely) =
            check_request-none hmac b64decode setting parse_int max_skew now_s r h in
          elim (on_reading-Took hash_of seal now (read_hook r.body) r hub) [
            | inl k ↦ inl k
            | inr k ↦ inr (signed, timely, k)
          ]

  resend_webhook-IsStored :
      (now : Clock) (now_s : ℕ) (r : Request) (hub : Hub Counters Events Raws Pubkeys)
      → ((e : Refusal) → (receive now now_s r hub).0 ≢ refused e)
      → IsStored r.svix_id (receive now now_s r hub).1
  resend_webhook-IsStored now now_s r hub taken = elim (resend_webhook-Accepts now now_s r hub) [
    | inl k ↦ absurd (taken k.0.0 k.0.1)
    | inr (_, _, inl k) ↦ subst (IsStored r.svix_id) (sym k.1) k.2
    | inr (_, _, inr k) ↦ k.1
  ]

  -- A hook is stored once. After an answer that is no refusal, no delivery under the same id changes the
  -- hub, whenever it comes and whatever its timestamp, signature and body are.
  pub resend_webhook-once :
      (now now' : Clock) (now_s now_s' : ℕ) (r r' : Request)
      (hub : Hub Counters Events Raws Pubkeys)
      → ((e : Refusal) → (receive now now_s r hub).0 ≢ refused e)
      → r'.svix_id ≡ r.svix_id
      → (receive now' now_s' r' (receive now now_s r hub).1).1 ≡ (receive now now_s r hub).1
  resend_webhook-once now now' now_s now_s' r r' hub taken same =
      let (row, there) = resend_webhook-IsStored now now_s r hub taken in
      elim (resend_webhook-Accepts now' now_s' r' (receive now now_s r hub).1) [
        | inl k ↦ k.1
        | inr (_, _, inl k) ↦ k.1
        | inr (_, _, inr k) ↦ let e = rw same at k.0 in cc
      ]
