-- ===== src/Cloud/Svix.antt =====
-- The guards of `resend_webhook` in mailman/cloud/webhook_receiver.py, with `_all_secrets` and
-- `_verify_signature`. Base64, `int` and HMAC with its base64 text are parameters. The text of the
-- body is the one that decoding it with replacement gives.
pub mod Signed
use mathlib.Core.Option
use mail_chad.Base.{
  ℕ, suc, ◌+◌, ◌-◌, ◌==◌, Bool, false, not, ◌&&◌, ◌||◌, Option, none, some, List, [], ◌∷◌, ◌++◌,
  Text, text_eq, str, is_empty, if◌then◌else◌, keep, map, ltb, is_blank, strip, starts_with,
  removeprefix, split_on,
}

-- What `int` reads.
pub data ℤ : Type 0 where
  pos negsuc : ℕ → ℤ

-- The request: its three headers, missing ones empty, and its body.
pub record Request : Type 0 where
  pub svix_id : Text
  pub svix_timestamp : Text
  pub svix_signature : Text
  pub body : Text

pub data Refusal : Type 0 where
  missing_headers timestamp_not_int skewed bad_signature not_json failed : Refusal

-- `abs(now - ts)`
abbrev pub skew : (now : ℕ) → ℤ → ℕ
skew now (pos t) = (now - t) + (t - now)
skew now (negsuc t) = now + suc t

-- `header.split()`
abbrev pub words : Text → List Text
words s = keep (λ t. not (is_empty t)) (split_on is_blank s)

abbrev pub is_v1 : (expected entry : Text) → Bool
is_v1 expected entry =
    starts_with (str "v1,") entry && text_eq (removeprefix (str "v1,") entry) expected

unfoldable pub has_signature : (expected : Text) → List Text → Bool
has_signature expected [] = false
has_signature expected (e ∷ es) = is_v1 expected e || has_signature expected es

abbrev pub message_of : Request → Text
message_of r = r.svix_id ++ (b'.' ∷ r.svix_timestamp) ++ (b'.' ∷ r.body)

module _ (b64decode : Text → Option Text) where
  -- One part of the setting, where several accounts have a secret each.
  abbrev pub secret_of : Text → Text
  secret_of part =
      let bare = removeprefix (str "whsec_") part in
      elim (b64decode bare) [ none ↦ bare | some b ↦ b ]

  -- `_all_secrets`
  abbrev pub secrets_of : (setting : Text) → List Text
  secrets_of setting =
      map secret_of
        (keep (λ t. not (is_empty t)) (map (strip is_blank) (split_on (λ c. c == b',') setting)))

module _ (hmac : (secret message : Text) → Text) where
  unfoldable pub verify_with :
      (message : Text) → (entries : List Text) → (secrets : List Text) → Bool
  unfolding has_signature
  verify_with message entries [] = false
  verify_with message entries (s ∷ ss) =
      has_signature (hmac s message) entries || verify_with message entries ss

  module _ (b64decode : Text → Option Text) (setting : Text) where
    -- `_verify_signature`
    abbrev pub verify_signature : Request → Bool
    verify_signature r =
        verify_with (message_of r) (words r.svix_signature) (secrets_of b64decode setting)

    module _ (parse_int : Text → Option ℤ) (max_skew now_s : ℕ) where
      abbrev pub check_time : Option ℤ → Request → Option Refusal
      check_time none r = some timestamp_not_int
      check_time (some ts) r =
          if ltb max_skew (skew now_s ts)
          then some skewed
          else if verify_signature r
          then none
          else some bad_signature

      -- The guards before the body is read.
      unfoldable pub check_request : Request → Option Refusal
      unfolding verify_with
      check_request r =
          if is_empty r.svix_id || is_empty r.svix_timestamp || is_empty r.svix_signature
          then some missing_headers
          else check_time (parse_int r.svix_timestamp) r
