-- ===== src/Terminal/Schedule/Order.antt =====
-- Sorting the texts of the send times.
use mail_chad.Base.{
  ◌≡◌, refl, true, false, List, [], ◌∷◌, ◌++◌, map, Text, text_lt, text_le, text_le_trans,
  text_lt_irrefl, text_lt_trans, All, arith, Bool-cases, inl, inr,
}
use mail_chad.Terminal.Schedule.{insert_text, sort_texts}

abbrev pub IsSorted : List Text → Type 0
IsSorted [] = Unit
IsSorted (t ∷ ts) = All (λ u. text_le t u ≡ true) ts × IsSorted ts

pub All-weaken :
    {A : Type 0} (P Q : A → Type 0) (xs : List A) → ((x : A) → P x → Q x) → All P xs → All Q xs
All-weaken P Q [] f h = tt
All-weaken P Q (x ∷ xs) f h = (f x h.0, All-weaken P Q xs f h.1)

pub All-snoc :
    {A : Type 0} (P : A → Type 0) (xs : List A) (x : A) → All P xs → P x → All P (xs ++ (x ∷ []))
All-snoc P [] x h p = (p, tt)
All-snoc P (y ∷ xs) x h p = (h.0, All-snoc P xs x h.1 p)

pub map-snoc :
    {A B : Type 0} (f : A → B) (xs : List A) (x : A)
    → map f (xs ++ (x ∷ [])) ≡ map f xs ++ (f x ∷ [])
map-snoc f [] x = refl
map-snoc f (y ∷ xs) x = rw (map-snoc f xs x)

le_of_lt : (s t : Text) → text_lt s t ≡ true → text_le s t ≡ true
le_of_lt s t h = ground (arith, text_lt_trans s t s, text_lt_irrefl s)

All-insert_text :
    (P : Text → Type 0) (s : Text) (ts : List Text) → P s → All P ts → All P (insert_text s ts)
unfolding insert_text
All-insert_text P s [] p h = (p, tt)
All-insert_text P s (t ∷ ts) p h = elim (Bool-cases (text_lt t s)) [
  | inl e ↦ rw e (h.0, All-insert_text P s ts p h.1)
  | inr e ↦ rw e (p, h)
]

insert_text-IsSorted : (s : Text) (ts : List Text) → IsSorted ts → IsSorted (insert_text s ts)
unfolding insert_text
insert_text-IsSorted s [] h = (tt, tt)
insert_text-IsSorted s (t ∷ ts) h = elim (Bool-cases (text_lt t s)) [
  | inl e ↦ rw e (
    All-insert_text (λ u. text_le t u ≡ true) s ts (le_of_lt t s e) h.0,
    insert_text-IsSorted s ts h.1,
  )
  | inr e ↦ rw e (
    (ground arith, All-weaken (λ u. text_le t u ≡ true) (λ u. text_le s u ≡ true) ts (below e) h.0),
    h,
  )
]
  where
    below : text_lt t s ≡ false → (u : Text) → text_le t u ≡ true → text_le s u ≡ true
    below e u k = ground (arith, text_le_trans s t u)

pub sort_texts-IsSorted : (ts : List Text) → IsSorted (sort_texts ts)
unfolding sort_texts
sort_texts-IsSorted [] = tt
sort_texts-IsSorted (t ∷ ts) = insert_text-IsSorted t (sort_texts ts) (sort_texts-IsSorted ts)
