-- ===== src/Cloud/Tokens/Minted.antt =====
-- What `verify` says of a token that `mint` made.
use mail_chad.Base.{
  ℕ, zero, suc, ◌+◌, ◌%◌, ◌<◌, ◌==◌, ◌≡◌, refl, sym, ap, ◌∙◌, subst, false, Option, some, [], ◌∷◌,
  ◌++◌, Text, text_eq, if◌then◌else◌, ltb, length, rstrip, All, arith,
}
use mail_chad.Cloud.Tokens.{
  TokenKind, Claims, Reading, claims, valid, expired, bad_signature, repeated, split_token, missing,
  b64u_encode, b64u_decode, code, payload_of, mint, check_claims, check_payload, check_code,
  check_parts, verify,
}

-- What is documented of URL-safe base64: the code of a text is a body without `=` and `.`, with fewer
-- than four `=` behind it that fill up a multiple of four, and it is decoded to the text.
abbrev pub IsUrlSafe : (b64encode : Text → Text) → (b64decode : Text → Option Text) → Type 0
IsUrlSafe b64encode b64decode =
    (b : Text)
    → (body : Text) × (k : ℕ) × (b64encode b ≡ body ++ repeated k b'=')
      × All (λ c. c == b'=' ≡ false) body
      × All (λ c. c == b'.' ≡ false) body
      × ((length body + k) % 4 ≡ 0)
      × (k < 4)
      × (b64decode (b64encode b) ≡ some b)

-- What is documented of the JSON library: it reads back what it wrote.
abbrev pub IsReadBack : (write_json : Claims → Text) → (read_json : Text → Reading) → Type 0
IsReadBack write_json read_json = (c : Claims) → read_json (write_json c) ≡ claims c.h c.x

split_token-first :
    (p s : Text) → All (λ c. c == b'.' ≡ false) p → split_token (p ++ (b'.' ∷ s)) ≡ some (p, s)
unfolding split_token
split_token-first [] s h = refl
split_token-first (c ∷ p) s h = rw (h.0, split_token-first p s h.1) refl

rstrip-repeated : (k : ℕ) → rstrip (λ c. c == b'=') (repeated k b'=') ≡ []
unfolding rstrip
rstrip-repeated zero = refl
rstrip-repeated (suc k) = rw (rstrip-repeated k) refl

rstrip-padding :
    (body : Text) (k : ℕ)
    → All (λ c. c == b'=' ≡ false) body
    → rstrip (λ c. c == b'=') (body ++ repeated k b'=') ≡ body
unfolding rstrip
rstrip-padding [] k h = rstrip-repeated k
rstrip-padding (c ∷ body) k h = rw (h.0, rstrip-padding body k h.1) refl

missing-padding : (n k : ℕ) → (n + k) % 4 ≡ 0 → k < 4 → missing n ≡ k
missing-padding n k h l = omega arith

module _ (b64encode : Text → Text) (b64decode : Text → Option Text)
    (url_safe : IsUrlSafe b64encode b64decode) where
  b64u_decode-encode : (b : Text) → b64u_decode b64decode (b64u_encode b64encode b) ≡ some b
  b64u_decode-encode b =
      let (body, k, made, no_equals, no_dot, whole, few, back) = url_safe b in
      let bare : b64u_encode b64encode b ≡ body = rw made (rstrip-padding body k no_equals) in
      rw (bare, missing-padding (length body) k whole few, ← made) back

  b64u_encode-no_dot : (b : Text) → All (λ c. c == b'.' ≡ false) (b64u_encode b64encode b)
  b64u_encode-no_dot b =
      let (body, k, made, no_equals, no_dot, _, _, _) = url_safe b in
      let bare : b64u_encode b64encode b ≡ body = rw made (rstrip-padding body k no_equals) in
      subst (All (λ c. c == b'.' ≡ false)) (sym bare) no_dot

  module _ (setting : TokenKind → Option Text) (sha256 : Text → Text)
      (hmac : (secret message : Text) → Text) (write_json : Claims → Text)
      (read_json : Text → Reading) (read_back : IsReadBack write_json read_json) where
    -- A minted token says what it was minted for, and no more. Checked as a token of some kind, at some
    -- time, it is valid for the address hash if the codes of its payload under the secrets of the two
    -- kinds are equal, as they are for one kind, and its time has not passed; it is expired if the
    -- codes are equal and its time has passed; if they differ, the signature is bad. This holds for
    -- a base64 and a JSON library that read back what they wrote.
    pub verify-mint :
        (kind kind' : TokenKind) (email_hash nonce : Text) (minted_at ttl now : ℕ)
        → let payload =
            payload_of setting sha256 hmac b64encode write_json email_hash nonce minted_at ttl in
          verify setting sha256 hmac b64decode read_json now kind'
            (mint setting sha256 hmac b64encode write_json kind email_hash nonce minted_at ttl)
          ≡ (if text_eq
                (code setting sha256 hmac kind payload)
                (code setting sha256 hmac kind' payload)
              then if ltb (minted_at + ttl) now then expired else valid email_hash
              else bad_signature)
    unfolding verify mint
    verify-mint kind kind' email_hash nonce minted_at ttl now =
        let c : Claims = record { h = email_hash; n = nonce; x = minted_at + ttl } in
        let p =
          payload_of setting sha256 hmac b64encode write_json email_hash nonce minted_at ttl in
        let sig = code setting sha256 hmac kind p in
        let same = text_eq sig (code setting sha256 hmac kind' p) in
        ap (check_parts setting sha256 hmac b64decode read_json now kind')
          (split_token-first p (b64u_encode b64encode sig) (b64u_encode-no_dot (write_json c)))
        ∙ ap (check_code setting sha256 hmac b64decode read_json now kind' p)
            (b64u_decode-encode sig)
        ∙ ap
            (λ (o : Option Text).
              if same
              then check_payload setting sha256 hmac b64decode read_json now o
              else bad_signature)
            (b64u_decode-encode (write_json c))
        ∙ ap
            (λ (r : Reading).
              if same
              then check_claims setting sha256 hmac b64decode read_json now r
              else bad_signature)
            (read_back c)
