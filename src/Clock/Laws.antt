-- ===== src/Clock/Laws.antt =====
-- The time of `USLOSSClock` in src/globals.c only goes forward, and fits in an `int`.
use usloss.Base.{ℕ, suc, ◌+◌, ◌%◌, ◌^◌, ◌<◌, ◌≤◌, List, [], ◌∷◌, leb, if_ind, arith, leb→le}
use usloss.Clock.{
  Ticks, no_ticks, alarm_time, atleast, time_of, read_ticks, alarm_ticks, usloss_clock,
}

-- The microseconds since the last tick are less than a tick.
pub record InTick (t : Ticks) : Type 0 where
  pub partial : t.partial_ticks < 10000

-- A later state of the ticks: still in a tick, and at a later time.
record Later (t t' : Ticks) : Type 0 where
  in_tick : InTick t'
  later : time_of t < time_of t'
  few : t'.pclock_ticks ≤ t.pclock_ticks + 1

read_ticks-Later : (random : ℕ) (t : Ticks) → InTick t → Later t (read_ticks random t)
unfolding read_ticks
read_ticks-Later random t h =
    let less : random % 5 < 5 = omega arith in
    if_ind (Later t) (leb alarm_time (t.partial_ticks + atleast 5 random))
      (λ e.
        let full = leb→le _ _ e in
        record {
          in_tick = record { partial = omega (arith, h.partial, less) };
          later = omega (arith, h.partial, full);
          few = omega arith;
        })
      (λ e. record {
        in_tick = record { partial = ground arith };
        later = omega arith;
        few = omega arith;
      })

alarm_ticks-Later : (t : Ticks) → InTick t → Later t (alarm_ticks t)
unfolding alarm_ticks
alarm_ticks-Later t h = record {
  in_tick = record { partial = omega arith };
  later = omega (arith, h.partial);
  few = omega arith;
}

-- What happens to the clock: a reading, with what `rand` returns for it, or an alarm signal.
pub data Happening : Type 0 where
  reading : ℕ → Happening
  alarm_tick : Happening

abbrev after : Happening → Ticks → Ticks
after (reading random) t = read_ticks random t
after alarm_tick t = alarm_ticks t

unfoldable pub ticks_after : List Happening → Ticks → Ticks
ticks_after [] t = t
ticks_after (h ∷ hs) t = ticks_after hs (after h t)

after-Later : (h : Happening) (t : Ticks) → InTick t → Later t (after h t)
after-Later (reading random) t i = read_ticks-Later random t i
after-Later alarm_tick t i = alarm_ticks-Later t i

unfoldable pub count : List Happening → ℕ
count [] = 0
count (_ ∷ hs) = suc (count hs)

-- What holds after any number of happenings.
record Since (t t' : Ticks) (n : ℕ) : Type 0 where
  in_tick : InTick t'
  later : time_of t ≤ time_of t'
  few : t'.pclock_ticks ≤ t.pclock_ticks + n

ticks_after-Since :
    (hs : List Happening) (t : Ticks) → InTick t → Since t (ticks_after hs t) (count hs)
unfolding ticks_after count
ticks_after-Since [] t i = record { in_tick = i; later = omega arith; few = omega arith }
ticks_after-Since (h ∷ hs) t i =
    let l = after-Later h t i in
    let s = ticks_after-Since hs (after h t) l.in_tick in
    record {
      in_tick = s.in_tick;
      later = omega (arith, s.later, l.later);
      few = omega (arith, s.few, l.few);
    }

-- The time of the first of two readings of the clock, and that of the second.
abbrev pub first_time : ℕ → List Happening → ℕ
first_time first before = (usloss_clock first (ticks_after before no_ticks)).0

abbrev pub second_time : ℕ → List Happening → ℕ → List Happening → ℕ
second_time first before second between =
    (usloss_clock second
      (ticks_after between (usloss_clock first (ticks_after before no_ticks)).1)).0

-- Of two readings of the clock the second gives a later time, whatever other readings and alarm
-- signals come before the first and between them; and as long as there are fewer than 214746 of
-- these since the start, the computation of `USLOSSClock` does not overflow an `int`: the time is
-- below 2^31.
pub usloss_clock-times :
    (first second : ℕ) (before between : List Happening)
    → count before + count between < 214746
    → (first_time first before < second_time first before second between)
      × (second_time first before second between < 2 ^ 31)
unfolding usloss_clock
usloss_clock-times first second before between few =
    let s = ticks_after-Since before no_ticks (record { partial = omega arith }) in
    let t = ticks_after before no_ticks in
    let l = read_ticks-Later first t s.in_tick in
    let s' = ticks_after-Since between (read_ticks first t) l.in_tick in
    let l' = read_ticks-Later second (ticks_after between (read_ticks first t)) s'.in_tick in
    (
      omega (arith, s'.later, l'.later),
      omega (arith, s.few, l.few, s'.few, l'.few, l'.in_tick.partial),
    )
