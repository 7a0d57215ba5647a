-- ===== src/Cloud/Tokens/Tests.antt =====
-- Tokens under a base64 that writes four characters for one and always pads.
use mail_chad.Base.{
  ℕ, ◌+◌, ◌-◌, ◌%◌, ◌==◌, ◌≡◌, refl, false, none, some, Option, [], ◌∷◌, ◌++◌, Text, str, text_eq,
  if◌then◌else◌, ltb, length, rstrip, All, arith,
}
use mail_chad.Cloud.Tokens.{
  TokenKind, unsub, erasure, Claims, Reading, no_json, claims, Verified, valid, expired,
  bad_signature, repeated, code, payload_of, mint, verify, split_token,
}
use mail_chad.Cloud.Tokens.Minted.{IsUrlSafe, IsReadBack, verify-mint}

abbrev body_of : Text → Text
body_of [] = b'A' ∷ []
body_of (c ∷ s) = (c + 100) ∷ b'A' ∷ b'A' ∷ b'A' ∷ body_of s

abbrev encode : Text → Text
encode b = body_of b ++ repeated 3 b'='

abbrev onto : ℕ → Option Text → Option Text
onto c none = none
onto c (some s) = some (c ∷ s)

abbrev decode : Text → Option Text
decode (a ∷ b ∷ c ∷ d ∷ s) =
    let rest = decode s in if d == b'=' then some [] else onto (a - 100) rest
decode _ = none

decode-encode : (b : Text) → decode (encode b) ≡ some b
decode-encode [] = refl
decode-encode (c ∷ b) = let e : c + 100 - 100 ≡ c = omega arith in rw (decode-encode b, e) refl

body-no_equals : (b : Text) → All (λ c. c == b'=' ≡ false) (body_of b)
body-no_equals [] = (refl, tt)
body-no_equals (c ∷ b) = (ground arith, (refl, (refl, (refl, body-no_equals b))))

body-no_dot : (b : Text) → All (λ c. c == b'.' ≡ false) (body_of b)
body-no_dot [] = (refl, tt)
body-no_dot (c ∷ b) = (ground arith, (refl, (refl, (refl, body-no_dot b))))

body-whole : (b : Text) → (length (body_of b) + 3) % 4 ≡ 0
body-whole [] = refl
body-whole (c ∷ b) = omega (arith, body-whole b)

encode-IsUrlSafe : IsUrlSafe encode decode
encode-IsUrlSafe b = (
  body_of b,
  3,
  refl,
  body-no_equals b,
  body-no_dot b,
  body-whole b,
  omega arith,
  decode-encode b,
)

abbrev write : Claims → Text
write c = c.x ∷ c.h

abbrev read : Text → Reading
read [] = no_json
read (x ∷ h) = claims h x

write-IsReadBack : IsReadBack write read
write-IsReadBack c = refl

-- The secret of the erasure links is not set.
abbrev setting : TokenKind → Option Text
setting unsub = some (str "U")
setting erasure = none

abbrev keyed : (secret message : Text) → Text
keyed secret message = secret ++ message

abbrev token : Text
token = mint setting (λ t. t) keyed encode write unsub (str "h1") (str "n") 100 50

abbrev checked_at : ℕ → TokenKind → Text → Verified
checked_at now kind t = verify setting (λ t. t) keyed decode read now kind t

three_answers :
    (checked_at 150 unsub token ≡ valid (str "h1"))
    × (checked_at 151 unsub token ≡ expired)
    × (checked_at 120 erasure token ≡ bad_signature)
unfolding verify mint split_token rstrip text_eq
three_answers = (refl, refl, refl)

verify-mint_example :
    let payload = payload_of setting (λ t. t) keyed encode write (str "h1") (str "n") 100 50 in
    checked_at 120 erasure token ≡ (
      if text_eq
        (code setting (λ t. t) keyed unsub payload)
        (code setting (λ t. t) keyed erasure payload)
      then if ltb (100 + 50) 120 then expired else valid (str "h1")
      else bad_signature)
verify-mint_example =
    verify-mint encode decode encode-IsUrlSafe setting (λ t. t) keyed write read write-IsReadBack
      unsub erasure (str "h1") (str "n") 100 50 120
