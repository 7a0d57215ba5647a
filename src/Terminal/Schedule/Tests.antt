-- ===== src/Terminal/Schedule/Tests.antt =====
-- UTC, a window from nine to ten, two senders, and a mail a minute from each.
use mail_chad.Base.{ℕ, ◌*◌, ◌/◌, ◌≡◌, refl, none, some, List, [], ◌∷◌, Text, length, text_lt, arith}
use mail_chad.Terminal.Schedule.{
  Zone, Floats, Settings, minute, next_window, min_of, compute_send_ats,
}
use mail_chad.Terminal.Schedule.Order.{IsSorted}
use mail_chad.Terminal.Schedule.Sound.{Fits, compute_send_ats-Fits}
use mail_chad.Terminal.Schedule.Filled.{HasWindows, IsFilled, compute_send_ats-IsFilled}

abbrev utc : Zone
utc = record { to_utc = λ t. t; date_of = λ t. t / 86_400_000_000 }

abbrev hourly : Settings
hourly = record {
  start_hour = 9;
  window_hours = 1;
  sender_count = 2;
  rush_tail_minutes = 10;
  daily_cap = some 3;
}

abbrev uncapped : Settings
uncapped = record hourly { daily_cap = none }

abbrev gaps : Floats
gaps = record { stagger = λ i. i * 30_000_000; rush_gap = λ _. minute; wide_gap = λ _. minute }

-- The text of an instant: one number, in hundredths of a minute.
abbrev minute_text : ℕ → Text
minute_text t = (t / 600_000) ∷ []

-- The fourth mail is moved to the next day, by the cap.
over_two_days :
    compute_send_ats utc hourly gaps minute_text 4 0
    ≡ some ((54_000 ∷ []) ∷ (54_050 ∷ []) ∷ (54_100 ∷ []) ∷ (198_000 ∷ []) ∷ [])
unfolding compute_send_ats next_window min_of text_lt
over_two_days = refl

compute_send_ats-Fits_example :
    IsSorted ((54_000 ∷ []) ∷ (54_050 ∷ []) ∷ (54_100 ∷ []) ∷ (198_000 ∷ []) ∷ [])
    × Fits utc hourly gaps minute_text 4
        ((54_000 ∷ []) ∷ (54_050 ∷ []) ∷ (54_100 ∷ []) ∷ (198_000 ∷ []) ∷ [])
compute_send_ats-Fits_example =
    compute_send_ats-Fits utc hourly gaps minute_text 4 0
      ((54_000 ∷ []) ∷ (54_050 ∷ []) ∷ (54_100 ∷ []) ∷ (198_000 ∷ []) ∷ []) over_two_days

utc-HasWindows : HasWindows utc uncapped
utc-HasWindows = record { opens_first = λ d. omega arith; next_later = λ t. omega arith }

compute_send_ats-IsFilled_example :
    (ats : List Text) × (compute_send_ats utc uncapped gaps minute_text 4 0 ≡ some ats)
    × IsFilled none 4 (length ats)
compute_send_ats-IsFilled_example =
    compute_send_ats-IsFilled utc uncapped utc-HasWindows gaps minute_text 4 0
