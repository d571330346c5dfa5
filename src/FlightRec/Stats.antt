-- ===== src/FlightRec/Stats.antt =====
-- `flightrec_get_job_stats` against the history that it summarises.
use zenedge.Common.{
  ℕ, zero, suc, ◌+◌, ◌-◌, ◌^◌, ◌<◌, ◌≡◌, refl, sym, ap, ◌∙◌, Bool, List, [], ◌∷◌, ◌++◌, arith, ◌&&◌,
  ◌||◌, ltb, ◌==◌, if◌then◌else◌, get_or, u32, u64, sub32,
}
use zenedge.FlightRec.{
  TraceEvent, Recorder, Tally, blank, masked, count, trace_buf_size, code, step_end,
  contract_violation, budget_exceed, tally_event, tally_loop, get_job_stats,
}
use zenedge.FlightRec.History.{IsSound, history, recent}

-- The body of the loop on one entry.
abbrev visit : ℕ → TraceEvent → Tally → Tally
visit job_id e t = if e.job_id == job_id then tally_event e t else t

-- The events of a history, which has the newest first, from the oldest to the newest.
abbrev replay : ℕ → List TraceEvent → Tally → Tally
replay job_id [] t = t
replay job_id (e ∷ older) t = visit job_id e (replay job_id older t)

replay-snoc :
    (job_id : ℕ) (es : List TraceEvent) (e : TraceEvent) (t : Tally)
    → replay job_id (es ++ (e ∷ [])) t ≡ replay job_id es (visit job_id e t)
replay-snoc job_id [] e t = refl
replay-snoc job_id (x ∷ es) e t = ap (visit job_id x) (replay-snoc job_id es e t)

recent-snoc :
    (buf : List TraceEvent) (head n : ℕ)
    → recent buf head (suc n) ≡ recent buf head n ++ (get_or buf (masked (head - suc n)) blank ∷ [])
recent-snoc buf head zero = refl
recent-snoc buf head (suc n) = ap (◌∷◌ (get_or buf (masked (head - 1)) blank)) (
    let e : head - 1 - suc n ≡ head - suc (suc n) = omega arith in
    rw (← e) (recent-snoc buf (head - 1) n))

-- Round `i` of the loop reads the event that is `n` before the newest.
tally_loop-suc :
    (buf : List TraceEvent) (head job_id n i : ℕ) (t : Tally)
    → i + suc n ≡ count head
    → head < 2 ^ 32
    → tally_loop buf head job_id (suc n) i t
      ≡ tally_loop buf head job_id n
          (i + 1)
          (visit job_id (get_or buf (masked (head - suc n)) blank) t)
unfolding tally_loop
tally_loop-suc buf head job_id n i t e lt = rw index
  where
    index :
        (if ltb trace_buf_size head then masked (u32 (sub32 head trace_buf_size + i)) else i)
        ≡ masked (head - suc n)
    index = ground arith

tally_loop-replay :
    (buf : List TraceEvent) (head job_id n i : ℕ) (t : Tally)
    → i + n ≡ count head
    → head < 2 ^ 32
    → tally_loop buf head job_id n i t ≡ replay job_id (recent buf head n) t
tally_loop-replay buf head job_id zero i t e lt = unfold tally_loop in refl
tally_loop-replay buf head job_id (suc n) i t e lt =
    let e1 = get_or buf (masked (head - suc n)) blank in
    tally_loop-suc buf head job_id n i t e lt
    ∙ tally_loop-replay buf head job_id n (i + 1) (visit job_id e1 t) (omega arith) lt
    ∙ sym (replay-snoc job_id (recent buf head n) e1 t)
    ∙ ap (λ es. replay job_id es t) (sym (recent-snoc buf head n))

abbrev no_tally : Tally
no_tally = record {
  steps_completed = 0;
  total_cpu_usec = 0;
  violations = 0;
  first_ts = 0;
  last_ts = 0;
}

abbrev counted : ℕ → TraceEvent → Bool
counted job_id e = e.job_id == job_id && e.type == code step_end

-- How many STEP_END events of the job a history has, and the durations that they sum up to.
abbrev pub steps_of : ℕ → List TraceEvent → ℕ
steps_of job_id [] = 0
steps_of job_id (e ∷ es) =
    (if e.job_id == job_id && e.type == code step_end then 1 else 0) + steps_of job_id es

abbrev pub cpu_of : ℕ → List TraceEvent → ℕ
cpu_of job_id [] = 0
cpu_of job_id (e ∷ es) =
    (if e.job_id == job_id && e.type == code step_end then e.extra else 0) + cpu_of job_id es

-- How many CONTRACT_VIOLATION and BUDGET_EXCEED events of the job a history has.
abbrev pub violations_of : ℕ → List TraceEvent → ℕ
violations_of job_id [] = 0
violations_of job_id (e ∷ es) =
    (if e.job_id == job_id && (e.type == code contract_violation || e.type == code budget_exceed)
      then 1
      else 0)
    + violations_of job_id es

record Sums (job_id : ℕ) (es : List TraceEvent) (t : Tally) : Type 0 where
  steps : t.steps_completed ≡ u32 (steps_of job_id es)
  cpu : t.total_cpu_usec ≡ u64 (cpu_of job_id es)
  bad : t.violations ≡ u32 (violations_of job_id es)

visit-Sums :
    (job_id : ℕ) (e : TraceEvent) (es : List TraceEvent) (t : Tally)
    → Sums job_id es t
    → Sums job_id (e ∷ es) (visit job_id e t)
unfolding tally_event
visit-Sums job_id e es t h = record { steps = ground arith; cpu = ground arith; bad = ground arith }

replay-Sums : (job_id : ℕ) (es : List TraceEvent) → Sums job_id es (replay job_id es no_tally)
replay-Sums job_id [] = record { steps = refl; cpu = refl; bad = refl }
replay-Sums job_id (e ∷ es) =
    visit-Sums job_id e es (replay job_id es no_tally) (replay-Sums job_id es)

-- Where the ring is whole and the count of events has room for one more in 32 bits, the statistics count
-- the job's STEP_END events in the ring, sum up their durations, and count its CONTRACT_VIOLATION and
-- BUDGET_EXCEED events, each modulo the width of its field. The events of memory violations are not
-- counted.
pub get_job_stats-history :
    (job_id : ℕ) (r : Recorder)
    → IsSound r
    → let s = get_job_stats job_id r in
      (s.job_id ≡ job_id)
      × (s.steps_completed ≡ u32 (steps_of job_id (history r)))
      × (s.total_cpu_usec ≡ u64 (cpu_of job_id (history r)))
      × (s.violations ≡ u32 (violations_of job_id (history r)))
unfolding get_job_stats
get_job_stats-history job_id r h =
    let sums = replay-Sums job_id (history r) in
    rw
      (tally_loop-replay r.buf r.head job_id (count r.head) 0 no_tally (omega arith)
        (omega (arith, h.fits)))
      (refl, sums.steps, sums.cpu, sums.bad)
