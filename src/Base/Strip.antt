-- ===== src/Base/Strip.antt =====
-- Python's `strip` and `removeprefix`.
use Prim.Native.Nat.{ℕ}
use mathlib.Core.Bool.{Bool, true, false, ◌&&◌, ◌||◌}
use mathlib.Core.List.{List, [], ◌∷◌, ◌++◌}
use mathlib.Core.Logic.{inl, inr}
use mathlib.Core.Path.{◌≡◌, refl, ap, ◌∙◌}
use native.Mathlib.Omega.{arith}
use mail_chad.Base.Tests.{if◌then◌else◌, ◌==◌, leb, ==_iff, Bool-cases}
use mail_chad.Base.Texts.{Text, is_empty}
use mail_chad.Base.Lists.{length, drop, All}

-- `s.lstrip` and `s.strip` of the characters that pass the test.
unfoldable pub lstrip : (ℕ → Bool) → Text → Text
lstrip p [] = []
lstrip p (c ∷ s) = let rest = lstrip p s in if p c then rest else c ∷ s

unfoldable pub rstrip : (ℕ → Bool) → Text → Text
rstrip p [] = []
rstrip p (c ∷ s) = let rest = rstrip p s in if p c && is_empty rest then [] else c ∷ rest

abbrev pub strip : (ℕ → Bool) → Text → Text
strip p s = rstrip p (lstrip p s)

unfoldable pub starts_with : Text → Text → Bool
starts_with [] s = true
starts_with (c ∷ p) [] = false
starts_with (c ∷ p) (d ∷ s) = c == d && starts_with p s

abbrev pub removeprefix : Text → Text → Text
removeprefix p s = if starts_with p s then drop (length p) s else s

-- The whitespace of `str.strip` among the characters of a header, which are Latin-1.
abbrev pub is_blank : ℕ → Bool
is_blank c = (leb 9 c && leb c 13) || (leb 28 c && leb c 32) || c == 133 || c == 160

pub starts_with_self : (p s : Text) → starts_with p (p ++ s) ≡ true
unfolding starts_with
starts_with_self [] s = refl
starts_with_self (c ∷ p) s = ground (arith, starts_with_self p s)

pub drop_prefix : (p s : Text) → drop (length p) (p ++ s) ≡ s
drop_prefix [] s = refl
drop_prefix (c ∷ p) s = drop_prefix p s

rstrip_clean : (p : ℕ → Bool) (s : Text) → All (λ c. p c ≡ false) s → rstrip p s ≡ s
unfolding rstrip
rstrip_clean p [] h = refl
rstrip_clean p (c ∷ s) h = rw (h.0, rstrip_clean p s h.1)

-- A text without such characters stays as it is.
pub strip_clean : (p : ℕ → Bool) (s : Text) → All (λ c. p c ≡ false) s → strip p s ≡ s
unfolding lstrip rstrip
strip_clean p [] h = refl
strip_clean p (c ∷ s) h =
    let kept : lstrip p (c ∷ s) ≡ c ∷ s = rw h.0 in ap (rstrip p) kept ∙ rstrip_clean p (c ∷ s) h

-- The pieces between the characters that pass the test, empty ones too.
abbrev onto_first : ℕ → List Text → List Text
onto_first c [] = (c ∷ []) ∷ []
onto_first c (t ∷ ts) = (c ∷ t) ∷ ts

unfoldable pub split_on : (ℕ → Bool) → Text → List Text
split_on p [] = [] ∷ []
split_on p (c ∷ s) = let rest = split_on p s in if p c then [] ∷ rest else onto_first c rest

-- A text with a prefix is the prefix and the rest.
pub prefix_split : (p s : Text) → starts_with p s ≡ true → p ++ drop (length p) s ≡ s
unfolding starts_with
prefix_split [] s h = refl
prefix_split (c ∷ p) [] h = cc
prefix_split (c ∷ p) (d ∷ s) h = elim (Bool-cases (c == d)) [
  | inl e ↦ let same : c ≡ d = (==_iff c d).0 e in rw (same, prefix_split p s (rw e at h)) refl
  | inr e ↦ let k = rw e at h in cc
]
