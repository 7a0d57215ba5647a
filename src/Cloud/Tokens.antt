-- ===== src/Cloud/Tokens.antt =====
-- mailman/cloud/compliance_tokens.py: `mint` and `verify` of the tokens in public links. HMAC, SHA-256,
-- URL-safe base64 and JSON are parameters; `none` of the decoder is its exception. Texts stand for
-- their UTF-8 bytes.
use mathlib.Core.Option
pub mod Minted
mod Tests
use mail_chad.Base.{
  ℕ, zero, suc, ◌+◌, ◌-◌, ◌%◌, ◌==◌, Bool, true, false, Option, none, some, List, [], ◌∷◌, ◌++◌,
  Text, str, text_eq, is_empty, if◌then◌else◌, ltb, length, rstrip,
}

pub data TokenKind : Type 0 where
  unsub erasure : TokenKind

-- The payload {"h", "n", "x"}; `x` is the time at which the token expires.
pub record Claims : Type 0 where
  pub h : Text
  pub n : Text
  pub x : ℕ

-- What the JSON reader makes of a payload: the keys `h` and `x`, if they are there.
pub data Reading : Type 0 where
  no_json wrong_shape : Reading
  claims : (h : Text) → (x : ℕ) → Reading

-- The address hash, or the exception: TokenInvalid with its message, TokenExpired, or the error of
-- the base64 decoder, which `verify` does not catch for the signature.
pub data Verified : Type 0 where
  valid : Text → Verified
  malformed bad_signature payload_not_json payload_shape expired decode_error : Verified

abbrev pub kind_name : TokenKind → Text
kind_name unsub = str "unsub"
kind_name erasure = str "erasure"

abbrev pub repeated : ℕ → ℕ → Text
repeated zero c = []
repeated (suc k) c = c ∷ repeated k c

-- `token.split(".", 1)`
unfoldable pub split_token : Text → Option (Text × Text)
split_token [] = none
split_token (c ∷ s) =
    let rest = split_token s in
    if c == b'.' then some ([], s) else Option.map (λ (p : Text × Text). (c ∷ p.0, p.1)) rest

-- `-n % 4`
abbrev pub missing : ℕ → ℕ
missing n = (4 - n % 4) % 4

module _ (b64encode : Text → Text) where
  abbrev pub b64u_encode : Text → Text
  b64u_encode b = rstrip (λ c. c == b'=') (b64encode b)

module _ (b64decode : Text → Option Text) where
  abbrev pub b64u_decode : Text → Option Text
  b64u_decode s = b64decode (s ++ repeated (missing (length s)) b'=')

-- `setting` is what the settings hold under the name of the kind's secret.
module _ (setting : TokenKind → Option Text) (sha256 : Text → Text)
    (hmac : (secret message : Text) → Text) where
  abbrev dev_secret : TokenKind → Text
  dev_secret kind = sha256 (str "dev-only-" ++ kind_name kind ++ str "-secret")

  abbrev secret_or : TokenKind → Option Text → Text
  secret_or kind none = dev_secret kind
  secret_or kind (some s) = if is_empty s then dev_secret kind else s

  abbrev pub secret_for : TokenKind → Text
  secret_for kind = secret_or kind (setting kind)

  abbrev pub code : TokenKind → (payload_b64 : Text) → Text
  code kind payload_b64 = hmac (secret_for kind) payload_b64

  module _ (b64encode : Text → Text) (write_json : Claims → Text) where
    abbrev pub payload_of : (email_hash nonce : Text) → (now ttl : ℕ) → Text
    payload_of email_hash nonce now ttl =
        b64u_encode b64encode (write_json (record { h = email_hash; n = nonce; x = now + ttl }))

    unfoldable pub mint : TokenKind → (email_hash nonce : Text) → (now ttl : ℕ) → Text
    unfolding rstrip
    mint kind email_hash nonce now ttl =
        let payload_b64 = payload_of email_hash nonce now ttl in
        payload_b64 ++ (b'.' ∷ b64u_encode b64encode (code kind payload_b64))

  module _ (b64decode : Text → Option Text) (read_json : Text → Reading) (now : ℕ) where
    abbrev pub check_claims : Reading → Verified
    check_claims no_json = payload_not_json
    check_claims wrong_shape = payload_shape
    check_claims (claims h x) = if ltb x now then expired else valid h

    abbrev pub check_payload : Option Text → Verified
    check_payload none = payload_not_json
    check_payload (some b) = check_claims (read_json b)

    abbrev pub check_code : TokenKind → (payload_b64 : Text) → Option Text → Verified
    check_code kind payload_b64 none = decode_error
    check_code kind payload_b64 (some sig) =
        if text_eq sig (code kind payload_b64)
        then check_payload (b64u_decode b64decode payload_b64)
        else bad_signature

    abbrev pub check_parts : TokenKind → Option (Text × Text) → Verified
    check_parts kind none = malformed
    check_parts kind (some (payload_b64, sig_b64)) =
        check_code kind payload_b64 (b64u_decode b64decode sig_b64)

    unfoldable pub verify : TokenKind → (token : Text) → Verified
    unfolding split_token
    verify kind token = check_parts kind (split_token token)
