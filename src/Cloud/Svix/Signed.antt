-- ===== src/Cloud/Svix/Signed.antt =====
-- What the guards of the webhook receiver let through.
use mail_chad.Base.{
  ℕ, ◌≤◌, ◌≡◌, refl, sym, ap, ◌∙◌, true, Option, none, some, List, [], ◌∷◌, ◌++◌, Text, str,
  text_eq, text_eq→eq, is_empty, ltb, In, inl, inr, Bool-cases, ◌||◌, starts_with, prefix_split,
  drop, arith,
}
use mail_chad.Cloud.Svix.{
  ℤ, Request, skew, words, is_v1, has_signature, message_of, secrets_of, verify_with,
  verify_signature, check_time, check_request,
}

is_v1-entry : (expected entry : Text) → is_v1 expected entry ≡ true → entry ≡ str "v1," ++ expected
is_v1-entry expected entry h = elim (Bool-cases (starts_with (str "v1,") entry)) [
  | inl s ↦
      let t : text_eq (drop 3 entry) expected ≡ true = rw s at h in
      sym (prefix_split (str "v1,") entry s)
      ∙ ap (λ x. str "v1," ++ x) (text_eq→eq (drop 3 entry) expected t)
  | inr s ↦ let k = rw s at h in cc
]

has_signature-In :
    (expected : Text) (es : List Text)
    → has_signature expected es ≡ true
    → In (str "v1," ++ expected) es
unfolding has_signature
has_signature-In expected [] h = cc
has_signature-In expected (e ∷ es) h = elim (Bool-cases (is_v1 expected e)) [
  | inl k ↦ inl (is_v1-entry expected e k)
  | inr k ↦ inr (has_signature-In expected es (rw k at h))
]

module _ (hmac : (secret message : Text) → Text) where
  verify_with-In :
      (message : Text) (entries secrets : List Text)
      → verify_with hmac message entries secrets ≡ true
      → (secret : Text) × In secret secrets × In (str "v1," ++ hmac secret message) entries
  unfolding verify_with
  verify_with-In message entries [] h = cc
  verify_with-In message entries (s ∷ ss) h =
      elim (Bool-cases (has_signature (hmac s message) entries)) [
        | inl k ↦ (s, inl refl, has_signature-In (hmac s message) entries k)
        | inr k ↦
            let (secret, m, e) = verify_with-In message entries ss (rw k at h) in (secret, inr m, e)
      ]

  module _ (b64decode : Text → Option Text) (setting : Text) where
    -- An entry of the header is the code of the message under a secret of the setting.
    abbrev pub IsSigned : Request → Type 0
    IsSigned r =
        (secret : Text) × In secret (secrets_of b64decode setting)
        × In (str "v1," ++ hmac secret (message_of r)) (words r.svix_signature)

    module _ (parse_int : Text → Option ℤ) (max_skew now_s : ℕ) where
      abbrev pub IsTimely : Request → Type 0
      IsTimely r = (ts : ℤ) × (parse_int r.svix_timestamp ≡ some ts) × (skew now_s ts ≤ max_skew)

      check_time-none :
          (o : Option ℤ) (r : Request)
          → check_time hmac b64decode setting parse_int max_skew now_s o r ≡ none
          → IsSigned r × ((ts : ℤ) × (o ≡ some ts) × (skew now_s ts ≤ max_skew))
      check_time-none none r h = cc
      check_time-none (some ts) r h = elim (Bool-cases (ltb max_skew (skew now_s ts))) [
        | inl k ↦ let k' = rw k at h in cc
        | inr k ↦ elim (Bool-cases (verify_signature hmac b64decode setting r)) [
          | inl v ↦ (verify_with-In (message_of r) _ _ v, (ts, refl, ground arith))
          | inr v ↦ let k' = rw (k, v) at h in cc
        ]
      ]

      pub check_request-none :
          (r : Request)
          → check_request hmac b64decode setting parse_int max_skew now_s r ≡ none
          → IsSigned r × IsTimely r
      unfolding check_request
      check_request-none r h =
          elim (Bool-cases
            (is_empty r.svix_id || is_empty r.svix_timestamp || is_empty r.svix_signature)) [
              | inl k ↦ let k' = rw k at h in cc
              | inr k ↦ check_time-none (parse_int r.svix_timestamp) r (rw k at h)
            ]
