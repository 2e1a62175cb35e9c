-- ===== src/LeapSecond.antt =====
-- horace/leap_second_corrector.{h,cc}. A time_t, a long and an int64_t are patterns of 64 bits. What
-- `ntp_adjtime` reports at the moment of a call is an argument.
pub mod Corrected
use libholmes_horace.Common.{
  ℕ, ◌+◌, ◌-◌, ◌/◌, ◌%◌, ◌^◌, Bool, not, ◌&&◌, ◌||◌, List, [], ◌∷◌, ◌++◌, ltb, ◌==◌, if◌then◌else◌,
}
use libholmes_horace.Common.Words.{sign64}

-- `a / b` and `a % b` for a positive `b`: towards zero.
unfoldable pub div64 : ℕ → ℕ → ℕ
div64 a b = if sign64 a then (2 ^ 64 - (2 ^ 64 - a) / b) % 2 ^ 64 else a / b

unfoldable pub mod64 : ℕ → ℕ → ℕ
mod64 a b = if sign64 a then (2 ^ 64 - (2 ^ 64 - a) % b) % 2 ^ 64 else a % b

-- `a > b` on int64_t.
unfoldable pub greater : ℕ → ℕ → Bool
greater a b = ltb ((b + 2 ^ 63) % 2 ^ 64) ((a + 2 ^ 63) % 2 ^ 64)

pub record Timespec : Type 0 where
  pub tv_sec : ℕ
  pub tv_nsec : ℕ

pub record Timeval : Type 0 where
  pub tv_sec : ℕ
  pub tv_usec : ℕ

-- The result of `ntp_adjtime`, and whether `STA_NANO` is set in the status.
pub record Timex : Type 0 where
  pub state : ℕ
  pub time : Timeval
  pub nano : Bool

-- The states that <sys/timex.h> names.
abbrev pub time_ins : ℕ
time_ins = 1

abbrev pub time_oop : ℕ
time_oop = 3

abbrev pub time_wait : ℕ
time_wait = 4

pub record ClockState : Type 0 where
  pub index : ℕ
  pub time : Timeval
  pub state : ℕ

-- The index and the queue, its front first.
pub record LeapSecondCorrector : Type 0 where
  pub index : ℕ
  pub clock_states : List ClockState

abbrev pub seconds_per_day : ℕ
seconds_per_day = 86_400

abbrev pub leap_second_indicator : ℕ
leap_second_indicator = 1_000_000_000

-- `if (tmx.status & STA_NANO) { tmx.time.tv_usec /= 1000; }`
unfoldable pub reference_time : Timex → Timeval
unfolding div64
reference_time tmx =
    if tmx.nano
    then record { tv_sec = tmx.time.tv_sec; tv_usec = div64 tmx.time.tv_usec 1000 }
    else tmx.time

-- `while (!_clock_states.empty() && (_clock_states.front().index < _index)) { … }`
unfoldable pub discard_expired : ℕ → List ClockState → List ClockState
discard_expired index [] = []
discard_expired index (cs ∷ states) =
    let rest = discard_expired index states in if ltb cs.index index then rest else cs ∷ states

-- The clock state for the timestamp: the front of the queue, or that of the clock now.
unfoldable pub reference : List ClockState → Timex → ClockState
unfolding reference_time
reference [] tmx = record { index = 0; time = reference_time tmx; state = tmx.state }
reference (cs ∷ states) tmx = cs

unfoldable pub same_second : Timespec → Timespec
same_second ts = record ts { tv_nsec = (ts.tv_nsec + leap_second_indicator) % 2 ^ 64 }

unfoldable pub second_before : Timespec → Timespec
second_before ts = record {
  tv_sec = (ts.tv_sec + 2 ^ 64 - 1) % 2 ^ 64;
  tv_nsec = (ts.tv_nsec + leap_second_indicator) % 2 ^ 64;
}

-- Whether the timestamp, in microseconds, post-dates the reference.
unfoldable pub post_dates : Timespec → Timeval → Bool
unfolding greater div64
post_dates ts reftime =
    greater ts.tv_sec reftime.tv_sec
    || ((ts.tv_sec == reftime.tv_sec) && greater (div64 ts.tv_nsec 1000) reftime.tv_usec)

-- The tests on the reference state, in the last or the first second of a day.
unfoldable pub adjust : ClockState → Bool → Timespec → Timespec
unfolding same_second second_before post_dates
adjust ref is_last ts =
    if ref.state == time_wait
    then (if is_last then same_second ts else ts)
    else if ref.state == time_oop
    then (if post_dates ts ref.time
        then (if is_last then ts else second_before ts)
        else (if is_last then same_second ts else ts))
    else if ref.state == time_ins
    then (if is_last then ts else second_before ts)
    else ts

unfoldable pub correct_timespec : ClockState → Timespec → Timespec
unfolding mod64 adjust
correct_timespec ref ts =
    let second_of_day = mod64 ts.tv_sec seconds_per_day in
    let is_last = second_of_day == seconds_per_day - 1 in
    if not is_last && not (second_of_day == 0) then ts else adjust ref is_last ts

unfoldable pub correct : LeapSecondCorrector → Timex → Timespec → LeapSecondCorrector × Timespec
unfolding discard_expired reference correct_timespec
correct c tmx ts =
    let index = (c.index + 1) % 2 ^ 64 in
    let states = discard_expired index c.clock_states in
    (record { index = index; clock_states = states }, correct_timespec (reference states tmx) ts)

unfoldable pub record_clock_state : LeapSecondCorrector → Timex → ℕ → LeapSecondCorrector
unfolding reference_time
record_clock_state c tmx index = record c {
  clock_states =
      c.clock_states
      ++ (record { index = index; time = reference_time tmx; state = tmx.state } ∷ []);
}
