-- ===== src/Time/Laws.antt =====
-- What the readings of time.c promise, given a counter that does not run backwards.
use native.Mathlib.Nat.{mod-eq_of_lt, mul-div_cancel}
use zenedge.Common.{==_ne, ℕ, ◌+◌, ◌*◌, ◌^◌, ◌<◌, ◌≤◌, ◌≡◌, arith, ◌≢◌}
use zenedge.Time.{Time, time_init, time_usec, cycles_to_usec, usec_to_cycles}

-- The counter's readings do not fall, and do not wrap.
pub record IsMonotonic (tsc : ℕ → ℕ) : Type 0 where
  pub grows : (n : ℕ) → tsc n ≤ tsc (n + 1)
  pub small : (n : ℕ) → tsc n < 2 ^ 64

-- Microseconds turned into cycles and back are the same, where 64 bits hold the cycles and the
-- clock is calibrated.
cycles_to_usec-usec_to_cycles :
    (t : Time) (usec : ℕ)
    → t.cycles_per_usec ≢ 0
    → usec * t.cycles_per_usec < 2 ^ 64
    → cycles_to_usec t (usec_to_cycles t usec) ≡ usec
unfolding cycles_to_usec usec_to_cycles
cycles_to_usec-usec_to_cycles t usec h k =
    rw (==_ne t.cycles_per_usec 0 h, mod-eq_of_lt k) (mul-div_cancel usec (omega arith))

-- After `time_init`, two readings of `time_usec` in a row are in order.
time_usec_mono :
    (t : Time)
    → IsMonotonic t.tsc
    → let t0 = time_init t in let (u, t1) = time_usec t0 in let (v, t2) = time_usec t1 in u ≤ v
unfolding time_init time_usec
time_usec_mono t m = omega (
  arith,
  m.grows t.reads,
  m.grows (t.reads + 1),
  m.small t.reads,
  m.small (t.reads + 1),
  m.small (t.reads + 1 + 1),
)
