-- ===== src/Terminal/Schedule/Filled.antt =====
-- Every mail of a batch gets a send time.
use mail_chad.Base.{
  ℕ, zero, suc, ◌+◌, ◌*◌, ◌≤◌, ◌<◌, ◌≡◌, refl, sym, ap, ◌∙◌, ◌⊎◌, subst, false, Option, none, some,
  List, [], ◌∷◌, Text, if◌then◌else◌, ltb, leb, length, arith, Bool-cases, Option-cases, inl, inr,
}
use mail_chad.Terminal.Schedule.{
  Zone, Floats, Settings, Sender, Loop, max, min_of, replace_first, is_full, insert_text,
  sort_texts, window_for, window_from, search_window, next_window, staggered, make_senders,
  gap_after, moved, emit, put_back, turn, turn_first, run, begin, compute_send_ats,
}
use mail_chad.Terminal.Schedule.Sound.{turn-emitted, run_senders-length}
use mail_chad.Terminal.Schedule.Window.{next_window-IsOpen, make_senders-IsOpen}

-- What is used of the time zone: a window closes after it opens, and that of the next date opens
-- later than now.
pub record HasWindows (z : Zone) (c : Settings) : Type 0 where
  pub opens_first : (d : ℕ) → (window_for z c d).0 < (window_for z c d).1
  pub next_later : (t : ℕ) → t < (window_for z c (z.date_of t + 1)).0

-- Without a cap there is a time for each; with one there are as many as the rounds allow.
abbrev pub IsFilled : Option ℕ → (n count : ℕ) → Type 0
IsFilled none n count = count ≡ n
IsFilled (some zero) n count = count ≡ n
IsFilled (some (suc k)) n count = count ≤ n

length-insert_text : (s : Text) (ts : List Text) → length (insert_text s ts) ≡ suc (length ts)
unfolding insert_text
length-insert_text s [] = refl
length-insert_text s (t ∷ ts) = ground (arith, length-insert_text s ts)

length-sort_texts : (ts : List Text) → length (sort_texts ts) ≡ length ts
unfolding sort_texts
length-sort_texts [] = refl
length-sort_texts (t ∷ ts) = length-insert_text t (sort_texts ts) ∙ ap suc (length-sort_texts ts)

length-replace_first :
    (t : ℕ) (s : Sender) (xs : List Sender) → length (replace_first t s xs) ≡ length xs
unfolding replace_first
length-replace_first t s [] = refl
length-replace_first t s (x ∷ xs) = ground (arith, length-replace_first t s xs)

module _ (z : Zone) (c : Settings) (law : HasWindows z c) where
  search_window-hit :
      (days after d : ℕ) (s : Sender)
      → window_from z c after (window_for z c d) ≡ some s
      → search_window z c (suc days) after d ≡ some s
  unfolding search_window
  search_window-hit days after d s e = rw (e, search_window)

  search_window-miss :
      (days after d : ℕ)
      → window_from z c after (window_for z c d) ≡ none
      → search_window z c (suc days) after d ≡ search_window z c days after (d + 1)
  unfolding search_window
  search_window-miss days after d e = rw (e, search_window)

  next_window-total : (after : ℕ) → (s : Sender) × (next_window z c after ≡ some s)
  unfolding next_window
  next_window-total after =
      elim (Option-cases (window_from z c after (window_for z c (z.date_of after)))) [
        | inr (s, e) ↦ (s, search_window-hit 399 after (z.date_of after) s e)
        | inl e ↦ (
          found,
          search_window-miss 399 after (z.date_of after) e
              ∙ search_window-hit 398 after (z.date_of after + 1) found open_later,
        )
      ]
    where
      found : Sender
      found = record {
        opens = (window_for z c (z.date_of after + 1)).0;
        closes = (window_for z c (z.date_of after + 1)).1;
        at = (window_for z c (z.date_of after + 1)).0;
      }

      open_later : window_from z c after (window_for z c (z.date_of after + 1)) ≡ some found
      open_later = ground (arith, law.opens_first (z.date_of after + 1), law.next_later after)

  module _ (f : Floats) where
    staggered-total : (s : Sender) (i : ℕ) → (x : Sender) × (staggered z c f s i ≡ some x)
    staggered-total s i = elim (Bool-cases (leb s.closes (s.at + f.stagger i))) [
      | inl e ↦ let (x, h) = next_window-total s.closes in (x, rw e h)
      | inr e ↦ (record s { at = s.at + f.stagger i }, rw e)
    ]

    make_senders-total :
        (count i : ℕ) (s : Sender)
        → (xs : List Sender) × (make_senders z c f count i s ≡ some xs) × (length xs ≡ count)
    unfolding make_senders
    make_senders-total zero i s = ([], refl, refl)
    make_senders-total (suc count) i s =
        let (x, e) = staggered-total s i in
        let (xs, e', k) = make_senders-total count (i + 1) s in
        (x ∷ xs, rw (e, e', make_senders), ap suc k)

    moved-total : (s : Sender) (i : ℕ) → (x : Sender) × (moved z c f s i ≡ some x)
    moved-total s i = elim (Bool-cases (leb s.closes (s.at + gap_after z c f s i))) [
      | inl e ↦ let (x, h) = next_window-total s.closes in (x, rw e h)
      | inr e ↦ (record s { at = s.at + gap_after z c f s i }, rw e)
    ]

    module _ (fmt : ℕ → Text) where
      put_back-total :
          (s : Sender) (o : Option Sender) (l : Loop)
          → (x : Sender) × (o ≡ some x)
          → (l' : Loop) × (put_back z c f fmt s o l ≡ some l')
            × (length l'.senders ≡ length l.senders)
      put_back-total s o l (x, e) = (
        record l { senders = replace_first s.at x l.senders },
        rw e,
        length-replace_first s.at x l.senders,
      )

      turn-total :
          (s : Sender) (l : Loop)
          → (l' : Loop) × (turn z c f fmt s l ≡ some l') × (length l'.senders ≡ length l.senders)
      unfolding turn
      turn-total s l = elim (Bool-cases (is_full c.daily_cap (l.day_counts (z.date_of s.at)))) [
        | inl e ↦
            let (l', h, k) =
              put_back-total s (next_window z c s.closes) l (next_window-total s.closes) in
            (l', rw e h, k)
        | inr e ↦
            let (l', h, k) =
              put_back-total s (moved z c f s l.emitted) (emit z c f fmt s l)
                (moved-total s l.emitted) in
            (l', rw e h, k)
      ]

      turn_first-total :
          (xs : List Sender) (l : Loop)
          → 0 < length xs
          → (l' : Loop) × (turn_first z c f fmt xs l ≡ some l')
            × (length l'.senders ≡ length l.senders)
      turn_first-total [] l h = absurd (omega arith)
      turn_first-total (x ∷ xs) l h = turn-total (min_of x xs) l

      turn_first-emitted :
          (xs : List Sender) (l l' : Loop)
          → turn_first z c f fmt xs l ≡ some l'
          → (count : ℕ) × (l'.emitted
              ≡ (if is_full c.daily_cap count then l.emitted else l.emitted + 1))
      turn_first-emitted [] l l' e = cc
      turn_first-emitted (x ∷ xs) l l' e =
          (l.day_counts (z.date_of (min_of x xs).at), turn-emitted z c f fmt 0 (min_of x xs) l l' e)

      -- The rounds that are left suffice for what is left to emit.
      abbrev IsPaid : Option ℕ → (fuel n emitted : ℕ) → Type 0
      IsPaid none fuel n emitted = (emitted ≤ n) × (n ≤ emitted + fuel)
      IsPaid (some zero) fuel n emitted = (emitted ≤ n) × (n ≤ emitted + fuel)
      IsPaid (some (suc k)) fuel n emitted = emitted ≤ n

      pay :
          (cap : Option ℕ) (fuel n count emitted emitted' : ℕ)
          → emitted < n
          → emitted' ≡ (if is_full cap count then emitted else emitted + 1)
          → IsPaid cap (suc fuel) n emitted
          → IsPaid cap fuel n emitted'
      pay none fuel n count emitted emitted' h e p = omega arith
      pay (some zero) fuel n count emitted emitted' h e p = omega arith
      pay (some (suc k)) fuel n count emitted emitted' h e p = ground arith

      paid :
          (cap : Option ℕ) (fuel n emitted : ℕ)
          → fuel ≡ 0 ⊎ (ltb emitted n ≡ false)
          → IsPaid cap fuel n emitted
          → IsFilled cap n emitted
      paid none fuel n emitted h p = ground arith
      paid (some zero) fuel n emitted h p = ground arith
      paid (some (suc k)) fuel n emitted h p = p

      run-total :
          (fuel n : ℕ) (l : Loop)
          → 0 < length l.senders
          → IsPaid c.daily_cap fuel n l.emitted
          → (l' : Loop) × (run z c f fmt fuel n l ≡ some l') × IsFilled c.daily_cap n l'.emitted
      unfolding run
      run-total zero n l some_sender p = (l, refl, paid c.daily_cap zero n l.emitted (inl refl) p)
      run-total (suc fuel) n l some_sender p = elim (Bool-cases (ltb l.emitted n)) [
        | inr e ↦ (l, rw (e, run), paid c.daily_cap (suc fuel) n l.emitted (inr e) p)
        | inl more ↦
            let (m, step, k) = turn_first-total l.senders l some_sender in
            let (l', h, q) = run-total fuel n m (rw k some_sender) (
              pay c.daily_cap fuel n _ l.emitted m.emitted (ground arith)
                (turn_first-emitted l.senders l m step).1 p) in
            (l', rw (more, step, run) h, q)
      ]

      begin-IsPaid : (cap : Option ℕ) (n : ℕ) → IsPaid cap (n * 8 + 2000) n 0
      begin-IsPaid none n = omega arith
      begin-IsPaid (some zero) n = omega arith
      begin-IsPaid (some (suc k)) n = omega arith

      -- Where each window closes after it opens, and the window of the next date opens later than now,
      -- the schedule is never given up: there is a result, and without a daily cap it holds exactly one
      -- time for each of the `n` mails. With a cap it holds no more than `n`.
      pub compute_send_ats-IsFilled :
          (n start_after : ℕ)
          → (ats : List Text) × (compute_send_ats z c f fmt n start_after ≡ some ats)
            × IsFilled c.daily_cap n (length ats)
      unfolding compute_send_ats
      compute_send_ats-IsFilled zero start_after = ([], refl, nothing c.daily_cap)
        where
          nothing : (cap : Option ℕ) → IsFilled cap 0 0
          nothing none = refl
          nothing (some zero) = refl
          nothing (some (suc k)) = omega arith
      compute_send_ats-IsFilled (suc n) start_after =
          let (s, e) = next_window-total start_after in
          let (senders, e', k) = make_senders-total (max c.sender_count 1) 0 s in
          let (l, e'', filled) =
            run-total (suc n * 8 + 2000) (suc n) (begin z c f fmt senders) (ground arith)
              (begin-IsPaid c.daily_cap (suc n)) in
          let all_out =
            run_senders-length z c f fmt (suc n) senders l
              (make_senders-IsOpen z c f (max c.sender_count 1) 0 s senders
                (next_window-IsOpen z c start_after s e) e')
              e'' in
          (
            sort_texts l.out,
            rw (e, e', e''),
            subst (IsFilled c.daily_cap (suc n)) (sym (length-sort_texts l.out ∙ all_out)) filled,
          )
