-- ===== src/Terminal/Schedule/Sound.antt =====
-- Where the send times of a batch lie, and how many of them there are on a date.
use mail_chad.Base.{
  ℕ, zero, suc, ◌+◌, ◌*◌, ◌≤◌, ◌≡◌, refl, sym, ap, subst, false, Option, none, some, List, [], ◌∷◌,
  ◌++◌, map, Text, if◌then◌else◌, ◌==◌, ltb, length, length-append, All, arith, Bool-cases,
  Option-cases, inl, inr,
}
use mail_chad.Terminal.Schedule.{
  Zone, Floats, Settings, Sender, Loop, max, min_of, is_full, count_day, sort_texts, next_window,
  make_senders, moved, emit, put_back, turn, turn_first, run, begin, compute_send_ats,
}
use mail_chad.Terminal.Schedule.Order.{IsSorted, All-snoc, map-snoc, sort_texts-IsSorted}
use mail_chad.Terminal.Schedule.Window.{
  InWindow, IsOpen, IsOpen-InWindow, min_of-All, replace_first-All, moved-IsOpen,
  make_senders-IsOpen, next_window-IsOpen,
}

-- How many of the instants lie on a date.
abbrev pub count_on : Zone → ℕ → List ℕ → ℕ
count_on z d [] = 0
count_on z d (t ∷ ts) = if d == z.date_of t then count_on z d ts + 1 else count_on z d ts

count_on-snoc :
    (z : Zone) (d : ℕ) (ts : List ℕ) (t : ℕ)
    → count_on z d (ts ++ (t ∷ [])) ≡ count_day (z.date_of t) (λ e. count_on z e ts) d
count_on-snoc z d [] t = ground arith
count_on-snoc z d (x ∷ ts) t = ground (arith, count_on-snoc z d ts t)

abbrev pub FitsCap : Option ℕ → ℕ → Type 0
FitsCap none n = Unit
FitsCap (some zero) n = Unit
FitsCap (some (suc k)) n = n ≤ suc k

module _ (z : Zone) (c : Settings) where
  module _ (f : Floats) where
    module _ (fmt : ℕ → Text) (n : ℕ) where
      -- The loop's state, for the instants whose texts it has put out.
      pub record IsSound (l : Loop) (times : List ℕ) : Type 0 where
        pub senders : All (IsOpen z c) l.senders
        pub out : l.out ≡ map fmt times
        pub emitted : l.emitted ≡ length times
        pub within : All (InWindow z c) times
        pub counts : (d : ℕ) → l.day_counts d ≡ count_on z d times
        pub capped : (d : ℕ) → FitsCap c.daily_cap (count_on z d times)

      cap_room : (cap : Option ℕ) (k : ℕ) → is_full cap k ≡ false → FitsCap cap (k + 1)
      cap_room none k h = tt
      cap_room (some zero) k h = tt
      cap_room (some (suc m)) k h = ground arith

      emit-IsSound :
          (s : Sender) (l : Loop) (times : List ℕ)
          → IsOpen z c s
          → is_full c.daily_cap (l.day_counts (z.date_of s.at)) ≡ false
          → IsSound l times
          → IsSound (emit z c f fmt s l) (times ++ (s.at ∷ []))
      emit-IsSound s l times o room h = record {
        senders = h.senders;
        out = rw (h.out, map-snoc fmt times s.at);
        emitted = omega (arith, h.emitted, length-append times (s.at ∷ []));
        within = All-snoc (InWindow z c) times s.at h.within (IsOpen-InWindow z c s o);
        counts = λ d. rw (count_on-snoc z d times s.at) (ground (arith, h.counts d));
        capped = λ d. capped_after d;
      }
        where
          capped_after : (d : ℕ) → FitsCap c.daily_cap (count_on z d (times ++ (s.at ∷ [])))
          capped_after d =
              rw (count_on-snoc z d times s.at) (elim (Bool-cases (d == z.date_of s.at)) [
                | inl e ↦
                    let same : d ≡ z.date_of s.at = ground arith in
                    rw e (
                      cap_room c.daily_cap (count_on z d times) (
                        subst (λ k. is_full c.daily_cap k ≡ false) (h.counts d)
                          (subst (λ k. is_full c.daily_cap (l.day_counts k) ≡ false) (sym same)
                            room)))
                | inr e ↦ rw e (h.capped d)
              ])

      put_back-IsSound :
          (s : Sender) (o : Option Sender) (l l' : Loop) (times : List ℕ)
          → ((x : Sender) → o ≡ some x → IsOpen z c x)
          → put_back z c f fmt s o l ≡ some l'
          → IsSound l times
          → IsSound l' times
      put_back-IsSound s none l l' times k e h = cc
      put_back-IsSound s (some x) l l' times k e h =
          subst (λ y. IsSound y times) (ground arith)
            (record {
              senders = replace_first-All z c (IsOpen z c) s.at x l.senders (k x refl) h.senders;
              out = h.out;
              emitted = h.emitted;
              within = h.within;
              counts = h.counts;
              capped = h.capped;
            })

      turn-IsSound :
          (s : Sender) (l l' : Loop) (times : List ℕ)
          → IsOpen z c s
          → turn z c f fmt s l ≡ some l'
          → IsSound l times
          → (after : List ℕ) × IsSound l' after
      unfolding turn
      turn-IsSound s l l' times o e h =
          elim (Bool-cases (is_full c.daily_cap (l.day_counts (z.date_of s.at)))) [
            | inl full ↦ (
              times,
              put_back-IsSound s (next_window z c s.closes) l l' times
                  (λ x. next_window-IsOpen z c s.closes x) (rw (full, turn) at e) h,
            )
            | inr room ↦ (
              times ++ (s.at ∷ []),
              put_back-IsSound s (moved z c f s l.emitted) (emit z c f fmt s l) l' _
                  (λ x. moved-IsOpen z c f s x l.emitted o) (rw (room, turn) at e)
                  (emit-IsSound s l times o room h),
            )
          ]

      turn_first-IsSound :
          (xs : List Sender) (l l' : Loop) (times : List ℕ)
          → All (IsOpen z c) xs
          → turn_first z c f fmt xs l ≡ some l'
          → IsSound l times
          → (after : List ℕ) × IsSound l' after
      turn_first-IsSound [] l l' times o e h = cc
      turn_first-IsSound (x ∷ xs) l l' times o e h =
          turn-IsSound (min_of x xs) l l' times (min_of-All z c (IsOpen z c) x xs o.0 o.1) e h

      put_back-emitted :
          (s : Sender) (o : Option Sender) (l l' : Loop)
          → put_back z c f fmt s o l ≡ some l'
          → l'.emitted ≡ l.emitted
      put_back-emitted s none l l' e = cc
      put_back-emitted s (some x) l l' e = ground arith

      -- A turn emits one text, unless the day of its sender is full.
      pub turn-emitted :
          (s : Sender) (l l' : Loop)
          → turn z c f fmt s l ≡ some l'
          → l'.emitted ≡ (
              if is_full c.daily_cap (l.day_counts (z.date_of s.at))
              then l.emitted
              else l.emitted + 1)
      unfolding turn
      turn-emitted s l l' e =
          elim (Bool-cases (is_full c.daily_cap (l.day_counts (z.date_of s.at)))) [
            | inl full ↦
                rw full (put_back-emitted s (next_window z c s.closes) l l' (rw (full, turn) at e))
            | inr room ↦ rw room (
                put_back-emitted s (moved z c f s l.emitted) (emit z c f fmt s l) l'
                  (rw (room, turn) at e))
          ]

      turn_first-le :
          (xs : List Sender) (l l' : Loop)
          → turn_first z c f fmt xs l ≡ some l'
          → l'.emitted ≤ l.emitted + 1
      turn_first-le [] l l' e = cc
      turn_first-le (x ∷ xs) l l' e = ground (arith, turn-emitted (min_of x xs) l l' e)

      pub run-IsSound :
          (fuel : ℕ) (l l' : Loop) (times : List ℕ)
          → run z c f fmt fuel n l ≡ some l'
          → IsSound l times
          → l.emitted ≤ n
          → (after : List ℕ) × IsSound l' after × (l'.emitted ≤ n)
      unfolding run
      run-IsSound zero l l' times e h k =
          let same : l ≡ l' = ground arith in
          (times, subst (λ y. IsSound y times) same h, subst (λ (y : Loop). y.emitted ≤ n) same k)
      run-IsSound (suc fuel) l l' times e h k = elim (Bool-cases (ltb l.emitted n)) [
        | inr done ↦
            let e' = rw (done, run) at e in
            let same : l ≡ l' = cc in
            (times, subst (λ y. IsSound y times) same h, subst (λ (y : Loop). y.emitted ≤ n) same k)
        | inl more ↦ elim (Option-cases (turn_first z c f fmt l.senders l)) [
          | inl stuck ↦ absurd (apart (rw (more, stuck, run) at e))
          | inr (m, step) ↦
              let (after, h') = turn_first-IsSound l.senders l m times h.senders step h in
              run-IsSound fuel m l' after (rw (more, step, run) at e) h'
                (ground (arith, turn_first-le l.senders l m step))
        ]
      ]
        where
          apart : none ≡ some l' → ⊥
          apart q = cc

      -- The texts are those of some instants, at most `n`, each in a window, and no more on a date than
      -- the cap allows.
      abbrev pub Fits : List Text → Type 0
      Fits ats =
          (times : List ℕ) × (ats ≡ sort_texts (map fmt times))
          × (length times ≤ n)
          × All (InWindow z c) times
          × ((d : ℕ) → FitsCap c.daily_cap (count_on z d times))

      begin_room : (cap : Option ℕ) → FitsCap cap 0
      begin_room none = tt
      begin_room (some zero) = tt
      begin_room (some (suc m)) = omega arith

      begin-IsSound :
          (senders : List Sender) → All (IsOpen z c) senders → IsSound (begin z c f fmt senders) []
      begin-IsSound senders o = record {
        senders = o;
        out = refl;
        emitted = refl;
        within = tt;
        counts = λ d. refl;
        capped = λ d. begin_room c.daily_cap;
      }

      pub run_senders-IsSound :
          (senders : List Sender) (l : Loop)
          → All (IsOpen z c) senders
          → run z c f fmt (n * 8 + 2000) n (begin z c f fmt senders) ≡ some l
          → Fits (sort_texts l.out)
      run_senders-IsSound senders l o e =
          let (times, h, k) =
            run-IsSound (n * 8 + 2000) _ l [] e (begin-IsSound senders o) (omega arith) in
          (times, ap sort_texts h.out, omega (arith, h.emitted), h.within, h.capped)

      length-map : (times : List ℕ) → length (map fmt times) ≡ length times
      length-map [] = refl
      length-map (t ∷ times) = ap suc (length-map times)

      pub run_senders-length :
          (senders : List Sender) (l : Loop)
          → All (IsOpen z c) senders
          → run z c f fmt (n * 8 + 2000) n (begin z c f fmt senders) ≡ some l
          → length l.out ≡ l.emitted
      run_senders-length senders l o e =
          let (times, h, k) =
            run-IsSound (n * 8 + 2000) _ l [] e (begin-IsSound senders o) (omega arith) in
          rw (h.out, h.emitted) (length-map times)

    -- The result is sorted, and fits: it holds the texts of instants, at most `n` of them, each in the
    -- window of some day, and no more of one local date than the daily cap allows.
    pub compute_send_ats-Fits :
        (fmt : ℕ → Text) (n start_after : ℕ) (ats : List Text)
        → compute_send_ats z c f fmt n start_after ≡ some ats
        → IsSorted ats × Fits fmt n ats
    unfolding compute_send_ats sort_texts
    compute_send_ats-Fits fmt zero start_after ats h =
        let same : [] ≡ ats = ground arith in
        subst (λ a. IsSorted a × Fits fmt 0 a) same
          (tt, ([], refl, omega arith, tt, λ d. begin_room fmt 0 c.daily_cap))
    compute_send_ats-Fits fmt (suc n) start_after ats h =
        elim (Option-cases (next_window z c start_after)) [
          | inl e ↦ absurd (apart (rw e at h))
          | inr (s, e) ↦ elim (Option-cases (make_senders z c f (max c.sender_count 1) 0 s)) [
            | inl e' ↦ absurd (apart (rw (e, e') at h))
            | inr (senders, e') ↦
                elim (Option-cases
                  (run z c f fmt (suc n * 8 + 2000) (suc n) (begin z c f fmt senders))) [
                    | inl e'' ↦ absurd (apart (rw (e, e', e'') at h))
                    | inr (l, e'') ↦
                        let same : sort_texts l.out ≡ ats = let h' = rw (e, e', e'') at h in cc in
                        subst (λ a. IsSorted a × Fits fmt (suc n) a) same
                          (
                            sort_texts-IsSorted l.out,
                            run_senders-IsSound fmt (suc n) senders l
                                (make_senders-IsOpen z c f (max c.sender_count 1) 0 s senders
                                  (next_window-IsOpen z c start_after s e) e')
                                e'',
                          )
                  ]
          ]
        ]
      where
        apart : none ≡ some ats → ⊥
        apart q = cc
