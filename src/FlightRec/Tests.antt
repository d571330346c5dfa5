-- ===== src/FlightRec/Tests.antt =====
-- Runs of flightrec.c and time.c at concrete events, and the theorems at them.
use zenedge.Common.{
  ℕ, ◌-◌, ◌*◌, ◌^◌, ◌≡◌, refl, false, ◌∷◌, arith, get_or, take, replicate, u32, u64, sub64, min,
}
use zenedge.Time.{Time, time_usec, time_cycles, rdtsc, cycles_to_usec}
use zenedge.Time.Laws.{IsMonotonic}
use zenedge.FlightRec.{
  Recorder, blank, no_span, job_submit, step_start, step_end, budget_exceed, trace_buf_size, init,
  log, begin_span, end_span, free_slot, last_duration, get_job_stats, scan_back, tally_loop,
  tally_event,
}
use zenedge.FlightRec.History.{IsSound, history, logged, history-log}
use zenedge.FlightRec.Spans.{end_span-begin_span}
use zenedge.FlightRec.Stats.{steps_of, cpu_of, violations_of, get_job_stats-history}

-- A counter that gains 3000 cycles between two readings.
abbrev clock : Time
clock = record { cpu_mhz = 0; cycles_per_usec = 1000; boot_tsc = 0; tsc = λ n. 3000 * n; reads = 0 }

abbrev power_on : Recorder
power_on = record {
  time = clock;
  buf = replicate 256 blank;
  head = 0;
  initialized = false;
  spans = replicate 16 no_span;
  next_span_handle = 1;
}

abbrev started : Recorder
started = init power_on

started-IsSound : IsSound started
unfolding init log
started-IsSound = omega arith

abbrev stepping : Recorder
stepping = (begin_span step_start 7 2 started).1

-- Two readings of the clock by the start event, one by the end: 9 microseconds.
span_runs : last_duration 7 2 (end_span 1 step_end stepping) ≡ 9
unfolding last_duration scan_back end_span begin_span free_slot init log time_cycles time_usec rdtsc
    cycles_to_usec
span_runs = refl

stats_run :
    let s = get_job_stats 7 (log budget_exceed 7 2 9 (end_span 1 step_end stepping)) in
    (s.steps_completed ≡ 1) × (s.total_cpu_usec ≡ 9) × (s.violations ≡ 1)
unfolding get_job_stats tally_loop tally_event end_span begin_span free_slot init log time_cycles
    time_usec rdtsc cycles_to_usec
stats_run = (refl, refl, refl)

-- A counter that stops at its largest value.
abbrev capped : ℕ → ℕ
capped n = min (3000 * n) (2 ^ 64 - 1)

capped-IsMonotonic : IsMonotonic capped
capped-IsMonotonic = record { grows = λ n. omega arith; small = λ n. omega arith }

history-log_example :
    history (log job_submit 7 0 4 started)
    ≡ take trace_buf_size (logged job_submit 7 0 4 started ∷ history started)
unfolding init log
history-log_example = history-log job_submit 7 0 4 started refl started-IsSound

end_span-begin_span_example :
    (last_duration 7 2 (end_span 1 step_end stepping)
      ≡ u32 (
          cycles_to_usec
            (time_cycles stepping.time).1
            (sub64 (time_cycles stepping.time).0 (time_cycles started.time).0)))
    × ((get_or (end_span 1 step_end stepping).spans 0 no_span).active ≡ false)
unfolding begin_span free_slot init log
end_span-begin_span_example =
    end_span-begin_span step_start 7 2 started stepping refl refl (omega arith) refl (omega arith)
      (omega arith) refl refl

get_job_stats-history_example :
    let s = get_job_stats 7 stepping in
    (s.job_id ≡ 7)
    × (s.steps_completed ≡ u32 (steps_of 7 (history stepping)))
    × (s.total_cpu_usec ≡ u64 (cpu_of 7 (history stepping)))
    × (s.violations ≡ u32 (violations_of 7 (history stepping)))
unfolding begin_span free_slot init log
get_job_stats-history_example = get_job_stats-history 7 stepping (omega arith)
