-- ===== src/Scoring/Points/Window.antt =====
-- The windows of time bonuses (`time_bonus_points` of backend/src/scoring.rs) as arcs of a day.
use log.Base.{ℕ, ◌+◌, ◌-◌, ◌%◌, ◌<◌, ◌≡◌, none, some, refl, arith, ltb, if◌then◌else◌}
use log.Base.Text.{Text}
use log.ContestRules.{TimeBonusPointRule}
use log.QsoTime.{parse_utc_minute}
use log.Scoring.Points.{in_window, time_bonus}

-- Minutes from one time of the day to the next time that is another.
abbrev pub minutes_after : ℕ → ℕ → ℕ
minutes_after start minute = (minute + 1440 - start) % 1440

parse_utc_minute-lt : (s : Text) (n : ℕ) → parse_utc_minute s ≡ some n → n < 1440
unfolding parse_utc_minute
parse_utc_minute-lt s n h = ground arith

in_window_lem :
    (start end_minute minute : ℕ)
    → start < 1440
    → end_minute < 1440
    → minute < 1440
    → (start ≡ end_minute → ⊥)
    → in_window start end_minute minute
      ≡ ltb (minutes_after start minute) (minutes_after start end_minute)
unfolding in_window
in_window_lem start end_minute minute a b c d = ground arith

-- A time bonus whose two ends are read and differ counts in the minutes of the day that are fewer
-- minutes after its start than its end is, also where the window crosses midnight.
pub time_bonus_lem :
    (rule : TimeBonusPointRule) (start end_minute minute : ℕ)
    → parse_utc_minute rule.start_utc ≡ some start
    → parse_utc_minute rule.end_utc ≡ some end_minute
    → (start ≡ end_minute → ⊥)
    → minute < 1440
    → time_bonus minute rule ≡ (
        if ltb (minutes_after start minute) (minutes_after start end_minute)
        then some rule.points
        else none)
unfolding time_bonus
time_bonus_lem rule start end_minute minute a b d m =
    rw
      (
        a,
        b,
        in_window_lem start end_minute minute (parse_utc_minute-lt rule.start_utc start a)
            (parse_utc_minute-lt rule.end_utc end_minute b) m d,
      )
      refl
