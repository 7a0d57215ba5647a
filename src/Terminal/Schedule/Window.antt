-- ===== src/Terminal/Schedule/Window.antt =====
-- A sender stays inside the windows of the days.
use mail_chad.Base.{
  ℕ, zero, suc, ◌+◌, ◌≤◌, ◌<◌, ◌≡◌, subst, none, some, List, [], ◌∷◌, ◌==◌, ltb, leb, All, arith,
  Bool-cases, Option-cases, inl, inr,
}
use mail_chad.Terminal.Schedule.{
  Zone, Floats, Settings, Sender, min_of, replace_first, window_for, window_from, search_window,
  next_window, staggered, make_senders, gap_after, moved,
}

module _ (z : Zone) (c : Settings) where
  -- The instant lies in the window of some day.
  abbrev pub InWindow : ℕ → Type 0
  InWindow t = (d : ℕ) × ((window_for z c d).0 ≤ t) × (t < (window_for z c d).1)

  abbrev pub IsOpen : Sender → Type 0
  IsOpen s =
      (d : ℕ) × (s.opens ≡ (window_for z c d).0)
      × (s.closes ≡ (window_for z c d).1)
      × (s.opens ≤ s.at)
      × (s.at < s.closes)

  pub IsOpen-InWindow : (s : Sender) → IsOpen s → InWindow s.at
  IsOpen-InWindow s (d, o, e, a, b) = (d, rw (← o) a, rw (← e) b)

  IsOpen-later :
      (s : Sender) (t : ℕ) → IsOpen s → s.at ≤ t → t < s.closes → IsOpen (record s { at = t })
  IsOpen-later s t (d, o, e, a, b) h k = (d, o, e, omega arith, k)

  search_window-IsOpen :
      (days after d : ℕ) (s : Sender) → search_window z c days after d ≡ some s → IsOpen s
  unfolding search_window
  search_window-IsOpen zero after d s h = cc
  search_window-IsOpen (suc days) after d s h =
      elim (Option-cases (window_from z c after (window_for z c d))) [
        | inl e ↦ search_window-IsOpen days after (d + 1) s (rw (e, search_window) at h)
        | inr (x, e) ↦ subst IsOpen (same x e) (found x e)
      ]
    where
      same : (x : Sender) → window_from z c after (window_for z c d) ≡ some x → x ≡ s
      same x e = let h' = rw (e, search_window) at h in cc

      found : (x : Sender) → window_from z c after (window_for z c d) ≡ some x → IsOpen x
      found x e = (d, ground arith, ground arith, ground arith, ground arith)

  pub next_window-IsOpen : (after : ℕ) (s : Sender) → next_window z c after ≡ some s → IsOpen s
  unfolding next_window
  next_window-IsOpen after s h = search_window-IsOpen 400 after (z.date_of after) s h

  pub min_of-All :
      (P : Sender → Type 0) (s : Sender) (xs : List Sender) → P s → All P xs → P (min_of s xs)
  unfolding min_of
  min_of-All P s [] p h = p
  min_of-All P s (x ∷ xs) p h = elim (Bool-cases (ltb x.at s.at)) [
    | inl e ↦ rw e (min_of-All P x xs h.0 h.1)
    | inr e ↦ rw e (min_of-All P s xs p h.1)
  ]

  pub replace_first-All :
      (P : Sender → Type 0) (t : ℕ) (s : Sender) (xs : List Sender)
      → P s
      → All P xs
      → All P (replace_first t s xs)
  unfolding replace_first
  replace_first-All P t s [] p h = tt
  replace_first-All P t s (x ∷ xs) p h = elim (Bool-cases (x.at == t)) [
    | inl e ↦ rw e (p, h.1)
    | inr e ↦ rw e (h.0, replace_first-All P t s xs p h.1)
  ]

  module _ (f : Floats) where
    staggered-IsOpen : (s x : Sender) (i : ℕ) → IsOpen s → staggered z c f s i ≡ some x → IsOpen x
    staggered-IsOpen s x i o h = elim (Bool-cases (leb s.closes (s.at + f.stagger i))) [
      | inl e ↦ next_window-IsOpen s.closes x (rw e at h)
      | inr e ↦
          let h' : some (record s { at = s.at + f.stagger i }) ≡ some x = rw e at h in
          subst IsOpen (cc) (IsOpen-later s (s.at + f.stagger i) o (omega arith) (ground arith))
    ]

    pub make_senders-IsOpen :
        (count i : ℕ) (s : Sender) (xs : List Sender)
        → IsOpen s
        → make_senders z c f count i s ≡ some xs
        → All IsOpen xs
    unfolding make_senders
    make_senders-IsOpen zero i s xs o h = let e : [] ≡ xs = ground arith in subst (All IsOpen) e tt
    make_senders-IsOpen (suc count) i s xs o h = elim (Option-cases (staggered z c f s i)) [
      | inl e ↦ absurd (apart (rw (e, make_senders) at h))
      | inr (y, e) ↦ elim (Option-cases (make_senders z c f count (i + 1) s)) [
        | inl e' ↦ absurd (apart (rw (e, e', make_senders) at h))
        | inr (ys, e') ↦
            let h' = rw (e, e', make_senders) at h in
            let same : (y ∷ ys) ≡ xs = cc in
            subst (All IsOpen) same
              (staggered-IsOpen s y i o e, make_senders-IsOpen count (i + 1) s ys o e')
      ]
    ]
      where
        apart : none ≡ some xs → ⊥
        apart q = cc

    pub moved-IsOpen : (s x : Sender) (i : ℕ) → IsOpen s → moved z c f s i ≡ some x → IsOpen x
    moved-IsOpen s x i o h = elim (Bool-cases (leb s.closes (s.at + gap_after z c f s i))) [
      | inl e ↦ next_window-IsOpen s.closes x (rw e at h)
      | inr e ↦
          let h' : some (record s { at = s.at + gap_after z c f s i }) ≡ some x = rw e at h in
          subst IsOpen (cc)
            (IsOpen-later s (s.at + gap_after z c f s i) o (omega arith) (ground arith))
    ]
