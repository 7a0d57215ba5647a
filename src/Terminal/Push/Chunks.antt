-- ===== src/Terminal/Push/Chunks.antt =====
-- How a push in chunks ends, and what it has taken along.
use mail_chad.Base.{
  ℕ, zero, suc, ◌+◌, ◌≤◌, ◌<◌, ◌≡◌, refl, sym, ap, ◌∙◌, ◌⊎◌, List, [], ◌∷◌, ◌++◌, length, take,
  drop, arith, inl, inr, append-nil, take-append-drop, length-append,
}
use mail_chad.Cloud.PackApi.{PackIn, Held}
use mail_chad.Terminal.Push.{
  Ack, Reply, acked, broken, PushEnd, all_pushed, cut_off, add_ack, push_chunks,
}

module _ (size : ℕ) (reply : ℕ → Reply) where
  -- How many packs stand in the chunks before the first one that is not acknowledged.
  pub acknowledged : (fuel i : ℕ) → List PackIn → ℕ
  acknowledged zero i packs = 0
  acknowledged (suc fuel) i [] = 0
  acknowledged (suc fuel) i (p ∷ ps) = elim (reply i) [
    | broken ↦ 0
    | acked a ↦ length (take size (p ∷ ps)) + acknowledged fuel (i + 1) (drop size (p ∷ ps))
  ]

  -- What the cloud reports as held in those chunks.
  pub held_in : (fuel i : ℕ) → List PackIn → List Held
  held_in zero i packs = []
  held_in (suc fuel) i [] = []
  held_in (suc fuel) i (p ∷ ps) = elim (reply i) [
    | broken ↦ []
    | acked a ↦ a.held ++ held_in fuel (i + 1) (drop size (p ∷ ps))
  ]

-- The end of a push of `total` packs, `n` of them acknowledged.
abbrev pub Ends : (n total : ℕ) → List Held → PushEnd → Type 0
Ends n total held (all_pushed pushed agg) = (pushed ≡ n) × (n ≡ total) × (agg.held ≡ held)
Ends n total held (cut_off i pushed agg) = (pushed ≡ n) × (n < total) × (agg.held ≡ held)

pub Ends-cast :
    (n n' total total' : ℕ) (held held' : List Held) (e : PushEnd)
    → n ≡ n'
    → total ≡ total'
    → held ≡ held'
    → Ends n total held e
    → Ends n' total' held' e
Ends-cast n n' total total' held held' (all_pushed pushed agg) a b c (x, y, w) =
    (omega arith, omega arith, w ∙ c)
Ends-cast n n' total total' held held' (cut_off i pushed agg) a b c (x, y, w) =
    (omega arith, omega arith, w ∙ c)

length-take-drop :
    {A : Type 0} (n : ℕ) (xs : List A) → length (take n xs) + length (drop n xs) ≡ length xs
length-take-drop n xs =
    sym (length-append (take n xs) (drop n xs)) ∙ ap length (take-append-drop n xs)

length-drop_le :
    {A : Type 0} (n : ℕ) (x : A) (xs : List A) → length (drop (suc n) (x ∷ xs)) ≤ length xs
length-drop_le n x xs = omega (arith, length-take-drop n xs)

append_assoc : {A : Type 0} (xs ys zs : List A) → (xs ++ ys) ++ zs ≡ xs ++ (ys ++ zs)
append_assoc [] ys zs = refl
append_assoc (x ∷ xs) ys zs = rw (append_assoc xs ys zs)

Reply-cases : (r : Reply) → (r ≡ broken) ⊎ ((a : Ack) × (r ≡ acked a))
Reply-cases (acked a) = inr (a, refl)
Reply-cases broken = inl refl

module _ (s : ℕ) (reply : ℕ → Reply) where
  pub push_chunks-Ends :
      (fuel i : ℕ) (packs : List PackIn) (pushed : ℕ) (agg : Ack)
      → length packs ≤ fuel
      → Ends
          (pushed + acknowledged (suc s) reply fuel i packs)
          (pushed + length packs)
          (agg.held ++ held_in (suc s) reply fuel i packs)
          (push_chunks (suc s) reply fuel i packs pushed agg)
  unfolding push_chunks acknowledged held_in
  push_chunks-Ends zero i [] pushed agg h = (omega arith, refl, sym (append-nil agg.held))
  push_chunks-Ends zero i (p ∷ ps) pushed agg h = absurd (omega arith)
  push_chunks-Ends (suc fuel) i [] pushed agg h = (omega arith, refl, sym (append-nil agg.held))
  push_chunks-Ends (suc fuel) i (p ∷ ps) pushed agg h = elim (Reply-cases (reply i)) [
    | inl e ↦
        rw (e, push_chunks, acknowledged, held_in)
          (omega arith, omega arith, sym (append-nil agg.held))
    | inr (a, e) ↦
        let xs = drop (suc s) (p ∷ ps) in
        let t = length (take (suc s) (p ∷ ps)) in
        rw (e, push_chunks, acknowledged, held_in)
          (Ends-cast (pushed + t + acknowledged (suc s) reply fuel (i + 1) xs) _
            (pushed + t + length xs) _
            ((agg.held ++ a.held) ++ held_in (suc s) reply fuel (i + 1) xs) _ _ (omega arith)
            (omega (arith, length-take-drop (suc s) (p ∷ ps)))
            (append_assoc agg.held a.held (held_in (suc s) reply fuel (i + 1) xs))
            (push_chunks-Ends fuel (i + 1) xs (pushed + t) (add_ack agg a)
              (omega (arith, length-drop_le s p ps))))
  ]

  -- With nothing acknowledged there is nothing held.
  pub held_in-nil :
      (fuel i : ℕ) (packs : List PackIn)
      → acknowledged (suc s) reply fuel i packs ≡ 0
      → held_in (suc s) reply fuel i packs ≡ []
  unfolding acknowledged held_in
  held_in-nil zero i packs h = refl
  held_in-nil (suc fuel) i [] h = refl
  held_in-nil (suc fuel) i (p ∷ ps) h = elim (Reply-cases (reply i)) [
    | inl e ↦ rw (e, held_in)
    | inr (a, e) ↦ absurd (some_taken (rw (e, acknowledged) at h))
  ]
    where
      some_taken :
          suc (length (take s ps)) + acknowledged (suc s) reply fuel (i + 1) (drop s ps) ≡ 0 → ⊥
      some_taken h' = omega arith
