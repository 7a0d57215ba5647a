-- ===== src/Cloud/Envelope.antt =====
-- `decrypt_with_temp` of mailman/cloud/encryption_cloud.py, and the reading of the plain pack in
-- `_process` of mailman/cloud/dispatcher_lambda.py. The JSON reader, base64 and AES-GCM are
-- parameters: each returns its value or the text of the exception that it raises.
use mail_chad.Base.{
  ℕ, Option, none, some, List, Text, text_eq, if◌then◌else◌, ◌==◌, str, length, ◌++◌,
}

pub data Result {ℓ} (A : Type ℓ) : Type ℓ where
  ok : A → Result A
  err : (why : Text) → Result A

infixl 5 ◌>>=◌
abbrev pub ◌>>=◌ {ℓ κ} : {A : Type ℓ} {B : Type κ} → Result A → (A → Result B) → Result B
ok a >>= f = f a
err why >>= f = err why

pub record Envelope : Type 0 where
  pub mode : Text
  pub nonce : Text
  pub ct : Text

-- What the dispatcher hands to Resend; the settings for tracking are the same for all.
pub record Message : Type 0 where
  pub from : Text
  pub recipient : Text
  pub subject : Text
  pub html : Text
  pub headers : List (Text × Text)
  pub text : Option Text

-- The decrypted pack: `message` is `none` where one of the keys from, recipient, subject and html
-- is missing, and `group` is `int(plain.get("human_send_count") or 1)`.
pub record Plain : Type 0 where
  pub resend_api_key : Option Text
  pub message : Option Message
  pub campaign_id : Option ℕ
  pub group : ℕ

pub record Codec : Type 0 where
  pub json_envelope : Text → Result Envelope
  pub b64decode : Text → Result Text
  pub aes_open : (key nonce ct : Text) → Result Text
  pub json_plain : Text → Result Plain
  pub no_payload : Text

module _ (codec : Codec) where
  open codec use {json_envelope, b64decode, aes_open, json_plain, no_payload}

  unfoldable pub decrypt_with_temp : (envelope key : Text) → Result Text
  decrypt_with_temp envelope key =
      let opened : Result Text = do
        e ← json_envelope envelope
        nonce ←
            (if text_eq e.mode (str "K_temp")
              then b64decode e.nonce
              else err (str "wrong mode: " ++ e.mode))
        ct ← b64decode e.ct
        aes_open key nonce ct
      in if length key == 32 then opened else err (str "K_temp must be 32 bytes")

  -- The `try` block of `_process`; `json.loads(None)` and the like end in `no_payload`.
  unfoldable pub open_pack : (payload : Option Text) → (key : Text) → Result Plain
  unfolding decrypt_with_temp
  open_pack none key = err no_payload
  open_pack (some envelope) key = decrypt_with_temp envelope key >>= json_plain
