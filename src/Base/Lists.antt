-- ===== src/Base/Lists.antt =====
-- Lists measured by native numbers, and filtered by Boolean tests.
use Prim.Native.Nat.{ℕ, zero, suc, ◌+◌, ◌≤◌}
use mathlib.Core.Path.{◌≡◌, refl, ap, subst}
use mathlib.Core.Logic.{◌⊎◌, inl, inr}
use mathlib.Core.Bool.{Bool, true, false, ◌&&◌, ◌||◌}
use mathlib.Core.List.{List, [], ◌∷◌, ◌++◌, map}
use native.Mathlib.Omega.{arith}
use mail_chad.Base.Tests.{if◌then◌else◌, Bool-cases}
use mail_chad.Base.Texts.{Text, text_eq}

module _ {ℓ} {A : Type ℓ} where
  abbrev pub length : List A → ℕ
  length [] = 0
  length (x ∷ xs) = suc (length xs)

  abbrev pub take : ℕ → List A → List A
  take zero xs = []
  take (suc n) [] = []
  take (suc n) (x ∷ xs) = x ∷ take n xs

  abbrev pub drop : ℕ → List A → List A
  drop zero xs = xs
  drop (suc n) [] = []
  drop (suc n) (x ∷ xs) = drop n xs

  -- The comprehension `[x for x in xs if p x]`.
  abbrev pub keep : (A → Bool) → List A → List A
  keep p [] = []
  keep p (x ∷ xs) = let rest = keep p xs in if p x then x ∷ rest else rest

  -- A predicate by recursion, which the tactics read and build.
  abbrev pub All {κ} : (A → Type κ) → List A → Type κ
  All P [] = Unit
  All P (x ∷ xs) = P x × All P xs

  pub take-append-drop : (n : ℕ) (xs : List A) → take n xs ++ drop n xs ≡ xs
  take-append-drop zero xs = refl
  take-append-drop (suc n) [] = refl
  take-append-drop (suc n) (x ∷ xs) = rw (take-append-drop n xs)

  pub length-append : (xs ys : List A) → length (xs ++ ys) ≡ length xs + length ys
  length-append [] ys = omega arith
  length-append (x ∷ xs) ys = omega (arith, length-append xs ys)

  pub length-take_le : (n : ℕ) (xs : List A) → length (take n xs) ≤ n
  length-take_le zero xs = omega arith
  length-take_le (suc n) [] = omega arith
  length-take_le (suc n) (x ∷ xs) = omega (arith, length-take_le n xs)

  pub append-snoc : (xs : List A) (x : A) (ys : List A) → (xs ++ (x ∷ [])) ++ ys ≡ xs ++ (x ∷ ys)
  append-snoc [] x ys = refl
  append-snoc (z ∷ xs) x ys = rw (append-snoc xs x ys)

  pub append-nil : (xs : List A) → xs ++ [] ≡ xs
  append-nil [] = refl
  append-nil (x ∷ xs) = rw (append-nil xs)

module _ {A : Type 0} where
  pub All-keep : (B : A → Type 0) (p : A → Bool) (xs : List A) → All B xs → All B (keep p xs)
  All-keep B p [] a = tt
  All-keep B p (x ∷ xs) a = elim (Bool-cases (p x)) [
    | inl e ↦ rw e (a.0, All-keep B p xs a.1)
    | inr e ↦ rw e (All-keep B p xs a.1)
  ]

  pub All-take : (B : A → Type 0) (n : ℕ) (xs : List A) → All B xs → All B (take n xs)
  All-take B zero xs a = tt
  All-take B (suc n) [] a = tt
  All-take B (suc n) (x ∷ xs) a = (a.0, All-take B n xs a.1)

  -- `x` stands in the list.
  abbrev pub In : A → List A → Type 0
  In x [] = ⊥
  In x (y ∷ ys) = (y ≡ x) ⊎ In x ys

  pub keep-In : (p : A → Bool) (x : A) (xs : List A) → In x xs → p x ≡ true → In x (keep p xs)
  keep-In p x [] m h = m
  keep-In p x (y ∷ ys) (inl e) h = rw (e, h) (inl refl)
  keep-In p x (y ∷ ys) (inr m) h = elim (Bool-cases (p y)) [
    | inl k ↦ rw k (inr (keep-In p x ys m h))
    | inr k ↦ rw k (keep-In p x ys m h)
  ]

  pub In-keep : (p : A → Bool) (x : A) (xs : List A) → In x (keep p xs) → In x xs × (p x ≡ true)
  In-keep p x [] m = absurd m
  In-keep p x (y ∷ ys) m = elim (Bool-cases (p y)) [
    | inl k ↦ elim (rw k at m) [
      | inl e ↦ (inl e, rw (← e) k)
      | inr m' ↦ let (n, h) = In-keep p x ys m' in (inr n, h)
    ]
    | inr k ↦ let (n, h) = In-keep p x ys (rw k at m) in (inr n, h)
  ]

  pub In-append_left : (x : A) (xs ys : List A) → In x xs → In x (xs ++ ys)
  In-append_left x [] ys m = absurd m
  In-append_left x (z ∷ xs) ys (inl e) = inl e
  In-append_left x (z ∷ xs) ys (inr m) = inr (In-append_left x xs ys m)

  pub In-append_right : (x : A) (xs ys : List A) → In x ys → In x (xs ++ ys)
  In-append_right x [] ys m = m
  In-append_right x (z ∷ xs) ys m = inr (In-append_right x xs ys m)

  pub append-In : (x : A) (xs ys : List A) → In x (xs ++ ys) → In x xs ⊎ In x ys
  append-In x [] ys m = inr m
  append-In x (z ∷ xs) ys (inl e) = inl (inl e)
  append-In x (z ∷ xs) ys (inr m) = elim (append-In x xs ys m) [
    | inl h ↦ inl (inr h)
    | inr h ↦ inr h
  ]

  pub In-snoc : (y x : A) (xs : List A) → In y (xs ++ (x ∷ [])) → In y xs ⊎ (x ≡ y)
  In-snoc y x [] (inl e) = inr e
  In-snoc y x [] (inr m) = absurd m
  In-snoc y x (z ∷ xs) (inl e) = inl (inl e)
  In-snoc y x (z ∷ xs) (inr m) = elim (In-snoc y x xs m) [ inl h ↦ inl (inr h) | inr e ↦ inr e ]

  pub All-In : (P : A → Type 0) (x : A) (xs : List A) → All P xs → In x xs → P x
  All-In P x [] h m = absurd m
  All-In P x (y ∷ ys) h (inl e) = subst P e h.0
  All-In P x (y ∷ ys) h (inr m) = All-In P x ys h.1 m

  pub In-take : (n : ℕ) (x : A) (xs : List A) → In x (take n xs) → In x xs
  In-take zero x xs m = absurd m
  In-take (suc n) x [] m = m
  In-take (suc n) x (y ∷ ys) (inl e) = inl e
  In-take (suc n) x (y ∷ ys) (inr m) = inr (In-take n x ys m)

  pub keep-keep : (p q : A → Bool) (xs : List A) → keep p (keep q xs) ≡ keep (λ x. q x && p x) xs
  keep-keep p q [] = refl
  keep-keep p q (x ∷ xs) = elim (Bool-cases (q x)) [
    | inr e ↦ rw e (keep-keep p q xs)
    | inl e ↦ rw (e, keep-keep p q xs)
  ]

  -- Two functions that agree on the members of a list.
  pub map_congr :
      {B : Type 0} (f g : A → B) (xs : List A)
      → ((x : A) → In x xs → f x ≡ g x)
      → map f xs ≡ map g xs
  map_congr f g [] h = refl
  map_congr f g (x ∷ xs) h = rw (h x (inl refl), map_congr f g xs (λ y m. h y (inr m)))

module _ {A B : Type 0} (f : A → B) where
  pub In-map : (x : A) (xs : List A) → In x xs → In (f x) (map f xs)
  In-map x [] m = m
  In-map x (y ∷ xs) (inl e) = inl (ap f e)
  In-map x (y ∷ xs) (inr m) = inr (In-map x xs m)

  pub map-In : (b : B) (xs : List A) → In b (map f xs) → (x : A) × In x xs × (f x ≡ b)
  map-In b [] m = absurd m
  map-In b (y ∷ xs) (inl e) = (y, inl refl, e)
  map-In b (y ∷ xs) (inr m) = let (x, h, e) = map-In b xs m in (x, inr h, e)

-- `s in xs`
abbrev pub contains : Text → List Text → Bool
contains s [] = false
contains s (x ∷ xs) = text_eq x s || contains s xs
