-- ===== src/Time.antt =====
-- kernel/time/time.c: time from the time stamp counter. `rdtsc` is an instruction, so the counter is
-- a parameter: `tsc n` is what the n-th reading since power-on returns, and `reads` counts them.
pub mod Laws
use zenedge.Common.{ℕ, ◌+◌, ◌*◌, ◌/◌, if◌then◌else◌, ◌==◌, u64, sub64}

pub record Time : Type 0 where
  pub cpu_mhz : ℕ
  pub cycles_per_usec : ℕ
  pub boot_tsc : ℕ
  pub tsc : ℕ → ℕ
  pub reads : ℕ

unfoldable pub rdtsc : Time → ℕ × Time
rdtsc t = (u64 (t.tsc t.reads), record t { reads = t.reads + 1 })

unfoldable pub time_init : Time → Time
unfolding rdtsc
time_init t =
    let (now, t') = rdtsc t in record t' { boot_tsc = now; cycles_per_usec = 1000; cpu_mhz = 1000 }

unfoldable pub time_cycles : Time → ℕ × Time
unfolding rdtsc
time_cycles t = rdtsc t

unfoldable pub time_usec : Time → ℕ × Time
unfolding rdtsc
time_usec t =
    if t.cycles_per_usec == 0
    then (0, t)
    else let (now, t') = rdtsc t in (sub64 now t.boot_tsc / t.cycles_per_usec, t')

unfoldable pub cycles_to_usec : Time → ℕ → ℕ
cycles_to_usec t cycles = if t.cycles_per_usec == 0 then 0 else cycles / t.cycles_per_usec

unfoldable pub usec_to_cycles : Time → ℕ → ℕ
usec_to_cycles t usec = u64 (usec * t.cycles_per_usec)
