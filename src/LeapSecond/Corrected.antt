-- ===== src/LeapSecond/Corrected.antt =====
-- What a correction does to a timestamp and to the queue of clock states.
use libholmes_horace.LeapSecond.{
  mod64, time_ins, time_oop, time_wait, seconds_per_day, discard_expired, reference, same_second,
  second_before, post_dates, adjust, correct_timespec, correct, Timespec, Timex, ClockState,
  LeapSecondCorrector,
}
use libholmes_horace.Common.{
  ℕ, ◌+◌, ◌-◌, ◌%◌, ◌^◌, ◌≤◌, ◌<◌, ◌≡◌, refl, ap, ◌⊎◌, inl, inr, true, false, not, ◌&&◌, List, [],
  ◌∷◌, ◌++◌, arith, ltb, leb, ◌==◌, Bool-cases, test→eq, if-cases,
}

-- The timestamp is unchanged, or it is labelled as a leap second: 10^9 nanoseconds more, in the last
-- second of a day, which is its own second or the one before.
abbrev pub IsLabelling : Timespec → Timespec → Type 0
IsLabelling ts ts' =
    (ts ≡ ts')
    ⊎ ((ts'.tv_nsec ≡ ts.tv_nsec + 1_000_000_000)
        × (ts'.tv_sec % seconds_per_day ≡ seconds_per_day - 1)
        × ((ts'.tv_sec ≡ ts.tv_sec) ⊎ (ts'.tv_sec + 1 ≡ ts.tv_sec)))

adjust-last :
    (ref : ClockState) (ts : Timespec)
    → IsLabelling ts (same_second ts)
    → IsLabelling ts (adjust ref true ts)
unfolding adjust
adjust-last ref ts h =
    if-cases (IsLabelling ts) (ref.state == time_wait) _ _ (λ _. h)
      λ _.
        if-cases (IsLabelling ts) (ref.state == time_oop) _ _
          (λ _. if-cases (IsLabelling ts) (post_dates ts ref.time) _ _ (λ _. inl refl) (λ _. h))
          λ _. if-cases (IsLabelling ts) (ref.state == time_ins) _ _ (λ _. inl refl) (λ _. inl refl)

adjust-first :
    (ref : ClockState) (ts : Timespec)
    → IsLabelling ts (second_before ts)
    → IsLabelling ts (adjust ref false ts)
unfolding adjust
adjust-first ref ts h =
    if-cases (IsLabelling ts) (ref.state == time_wait) _ _ (λ _. inl refl)
      λ _.
        if-cases (IsLabelling ts) (ref.state == time_oop) _ _
          (λ _. if-cases (IsLabelling ts) (post_dates ts ref.time) _ _ (λ _. h) (λ _. inl refl))
          λ _. if-cases (IsLabelling ts) (ref.state == time_ins) _ _ (λ _. h) (λ _. inl refl)

same_second-IsLabelling :
    (ts : Timespec)
    → ts.tv_nsec < 1_000_000_000
    → ts.tv_sec % seconds_per_day ≡ seconds_per_day - 1
    → IsLabelling ts (same_second ts)
unfolding same_second
same_second-IsLabelling ts h e = inr (omega arith, e, inl refl)

second_before-IsLabelling :
    (ts : Timespec)
    → 1 ≤ ts.tv_sec
    → ts.tv_sec < 2 ^ 63
    → ts.tv_nsec < 1_000_000_000
    → ts.tv_sec % seconds_per_day ≡ 0
    → IsLabelling ts (second_before ts)
unfolding second_before
second_before-IsLabelling ts h k l e = inr (omega arith, omega arith, inr (omega arith))

-- `correct`, whatever the queue and the clock are: a timestamp later than the epoch, with less than
-- 10^9 nanoseconds, is unchanged or labelled as a leap second in the last second of a day.
pub correct-IsLabelling :
    (c : LeapSecondCorrector) (tmx : Timex) (ts : Timespec)
    → 1 ≤ ts.tv_sec
    → ts.tv_sec < 2 ^ 63
    → ts.tv_nsec < 1_000_000_000
    → IsLabelling ts (correct c tmx ts).1
unfolding correct correct_timespec mod64
correct-IsLabelling c tmx ts h k l =
    let ref = reference (discard_expired ((c.index + 1) % 2 ^ 64) c.clock_states) tmx in
    let plain : leb (2 ^ 63) ts.tv_sec ≡ false = ground arith in
    rw (plain) (
      if-cases (IsLabelling ts)
        (not (ts.tv_sec % seconds_per_day == seconds_per_day - 1)
          && not (ts.tv_sec % seconds_per_day == 0))
        _ _ (λ _. inl refl)
        λ near. elim (Bool-cases (ts.tv_sec % seconds_per_day == seconds_per_day - 1)) [
          | inl e ↦ rw (e) (adjust-last ref ts (same_second-IsLabelling ts l (test→eq _ _ e)))
          | inr e ↦
              let first : ts.tv_sec % seconds_per_day ≡ 0 = ground arith in
              rw (e) (adjust-first ref ts (second_before-IsLabelling ts h k l first))
        ])

-- The indices of the queue do not fall.
abbrev pub IsAscendingFrom : ℕ → List ClockState → Type 0
IsAscendingFrom n [] = Unit {0}
IsAscendingFrom n (cs ∷ states) = (n ≤ cs.index) × IsAscendingFrom cs.index states

IsAscendingFrom-mono :
    (m n : ℕ) (states : List ClockState)
    → m ≤ n
    → IsAscendingFrom n states
    → IsAscendingFrom m states
IsAscendingFrom-mono m n [] h s = tt
IsAscendingFrom-mono m n (cs ∷ states) h (k, s) = (omega arith, s)

discard_expired-IsAscendingFrom :
    (index n : ℕ) (states : List ClockState)
    → IsAscendingFrom n states
    → (expired : List ClockState) × (states ≡ expired ++ discard_expired index states)
      × IsAscendingFrom index (discard_expired index states)
unfolding discard_expired
discard_expired-IsAscendingFrom index n [] s = ([], refl, tt)
discard_expired-IsAscendingFrom index n (cs ∷ states) (k, s) =
    elim (Bool-cases (ltb cs.index index)) [
      | inl e ↦
          let (expired, p, a) = discard_expired-IsAscendingFrom index cs.index states s in
          (cs ∷ expired, rw (e) (ap (λ t. cs ∷ t) p), rw (e) a)
      | inr e ↦ ([], rw (e) refl, rw (e) (ground arith, s))
    ]

-- If clock states were recorded for indices that do not fall, `correct` takes the expired ones, and
-- no other, off the front of the queue: all that are left apply to this timestamp or a later one.
pub correct-queue :
    (c : LeapSecondCorrector) (tmx : Timex) (ts : Timespec)
    → IsAscendingFrom 0 c.clock_states
    → (expired : List ClockState) × (c.clock_states ≡ expired ++ (correct c tmx ts).0.clock_states)
      × IsAscendingFrom (correct c tmx ts).0.index (correct c tmx ts).0.clock_states
unfolding correct
correct-queue c tmx ts s = discard_expired-IsAscendingFrom _ 0 c.clock_states s
