-- ===== src/FlightRec/Spans.antt =====
-- Spans: from `flightrec_begin_span` to the duration that `flightrec_last_duration` reports.
use mathlib.Core.Path.{subst}
use zenedge.Common.{
  ℕ, suc, ◌+◌, ◌-◌, ◌^◌, ◌<◌, ◌≤◌, ◌≡◌, ◌≢◌, ◌⊎◌, refl, sym, ap, ◌∙◌, true, false, List, [], ◌∷◌,
  none, some, arith, length, get_or, set, u8, u32, sub64, get_or-set_self, Bool-cases, inl, inr,
  All, take, Option-cases,
}
use zenedge.Time.{time_cycles, cycles_to_usec}
use zenedge.FlightRec.{
  TraceEvent, EventType, ActiveSpan, Recorder, no_span, max_active_spans, close_span, code,
  step_end, log, free_slot, begin_span, end_span, last_duration, contract_violation,
}
use zenedge.FlightRec.History.{
  IsSound, history, logged, history-log, newest_duration, last_duration-history, log-IsSound,
}

-- What the table of spans has to say of a free slot.
free_slot-none :
    (ss : List ActiveSpan) (i : ℕ) → free_slot ss i ≡ none → All (λ s. s.active ≡ true) ss
unfolding free_slot
free_slot-none [] i h = tt
free_slot-none (s ∷ ss) i h = (ground arith, free_slot-none ss (i + 1) (ground arith))

free_slot-some :
    (ss : List ActiveSpan) (i k : ℕ)
    → free_slot ss i ≡ some k
    → (i ≤ k) × (k < i + length ss) × ((get_or ss (k - i) no_span).active ≡ false)
unfolding free_slot
free_slot-some [] i k h = absurd (ground arith)
free_slot-some (s ∷ ss) i k h = elim (Bool-cases s.active) [
  | inl a ↦
      let (le, lt, off) = free_slot-some ss (i + 1) k (ground arith) in
      let e : k - i ≡ suc (k - (i + 1)) = omega arith in (omega arith, omega arith, rw e off)
  | inr a ↦
      let same : k ≡ i = ground arith in
      let e : k - i ≡ 0 = omega arith in (omega arith, omega arith, rw e a)
]

-- The span that `flightrec_begin_span` opens at its reading of the clock.
abbrev opened : EventType → ℕ → ℕ → Recorder → ActiveSpan
opened type job_id step_id r = record {
  active = true;
  job_id = job_id;
  step_id = step_id;
  start_cycles = (time_cycles r.time).0;
  start_type = u8 (code type);
}

module _ (type : EventType) (job_id step_id : ℕ) (r : Recorder) (on : r.initialized ≡ true) where
  begin_span-none :
      free_slot r.spans 0 ≡ none
      → begin_span type job_id step_id r ≡ (0, log contract_violation job_id step_id 0xDEAD r)
  unfolding begin_span
  begin_span-none e = ground arith

  begin_span-some :
      (k : ℕ)
      → free_slot r.spans 0 ≡ some k
      → begin_span type job_id step_id r ≡ (
        k + 1,
        log type job_id step_id 0 (record r {
          time = (time_cycles r.time).1;
          spans = set r.spans k (opened type job_id step_id r);
        }),
      )
  unfolding begin_span
  begin_span-some k e = ground arith

  -- `flightrec_begin_span` takes a slot that is not in use, opens the span in it, logs its start
  -- and returns the slot's number plus one; where every slot is in use it returns 0, logs a
  -- violation and leaves the table as it is.
  pub begin_span_lem :
      ((k : ℕ) × (begin_span type job_id step_id r ≡ (
        k + 1,
        log type job_id step_id 0 (record r {
          time = (time_cycles r.time).1;
          spans = set r.spans k (opened type job_id step_id r);
        }),
      ))
        × (k < length r.spans)
        × ((get_or r.spans k no_span).active ≡ false))
      ⊎ ((begin_span type job_id step_id r ≡ (0, log contract_violation job_id step_id 0xDEAD r))
          × All (λ s. s.active ≡ true) r.spans)
  begin_span_lem = elim (Option-cases (free_slot r.spans 0)) [
    | inl e ↦ inr (begin_span-none e, free_slot-none r.spans 0 e)
    | inr (k, e) ↦
        let (le, lt, off) = free_slot-some r.spans 0 k e in
        let at : k - 0 ≡ k = omega arith in
        inl (
          k,
          begin_span-some k e,
          omega arith,
          subst (λ j. (get_or r.spans j no_span).active ≡ false) at off,
        )
  ]

-- Ending a span that was never begun, or that is ended, changes nothing.
end_span_stale :
    (h : ℕ) (type : EventType) (r : Recorder)
    → (h ≡ 0) ⊎ ((max_active_spans < h) ⊎ ((get_or r.spans (h - 1) no_span).active ≡ false))
    → end_span h type r ≡ r
unfolding end_span
end_span_stale h type r c = ground arith

spans-log :
    (type : EventType) (job_id step_id extra : ℕ) (r : Recorder)
    → (log type job_id step_id extra r).spans ≡ r.spans
unfolding log
spans-log type job_id step_id extra r = ground arith

module _ (h : ℕ) (type : EventType) (r : Recorder) where
  -- The duration that `flightrec_end_span` logs.
  abbrev pub elapsed : ℕ
  elapsed =
      let (cycles, t) = time_cycles r.time in
      u32 (cycles_to_usec t (sub64 cycles (get_or r.spans (h - 1) no_span).start_cycles))

  -- What an open span ends in: its slot is free, and its end is logged with the time elapsed.
  end_span_open :
      r.initialized ≡ true
      → 0 < h
      → h ≤ max_active_spans
      → (get_or r.spans (h - 1) no_span).active ≡ true
      → let s = get_or r.spans (h - 1) no_span in
        let r' = log type s.job_id s.step_id elapsed (record r { time = (time_cycles r.time).1 }) in
        end_span h type r ≡ record r' { spans = set r'.spans (h - 1) (close_span s) }
  unfolding end_span
  end_span_open on lo hi act = ground arith

newest_duration-cons :
    (job_id step_id : ℕ) (e : TraceEvent) (es : List TraceEvent)
    → e.type ≡ code step_end
    → e.job_id ≡ job_id
    → e.step_id ≡ step_id
    → newest_duration job_id step_id (e ∷ es) ≡ e.extra
newest_duration-cons job_id step_id e es t j s = ground arith

last_duration-spans :
    (job_id step_id : ℕ) (r : Recorder) (ss : List ActiveSpan)
    → last_duration job_id step_id (record r { spans = ss }) ≡ last_duration job_id step_id r
unfolding last_duration
last_duration-spans job_id step_id r ss = refl

-- When an open span is ended as a step, `flightrec_last_duration` reports for its job and step the
-- time since the start that the span holds, and its slot is free again.
end_span_duration :
    (h : ℕ) (r : Recorder)
    → r.initialized ≡ true
    → IsSound r
    → r.head + 2 < 2 ^ 32
    → 0 < h
    → h ≤ max_active_spans
    → h ≤ length r.spans
    → (get_or r.spans (h - 1) no_span).active ≡ true
    → let s = get_or r.spans (h - 1) no_span in
      let r' = end_span h step_end r in
      (last_duration s.job_id s.step_id r' ≡ elapsed h step_end r)
      × ((get_or r'.spans (h - 1) no_span).active ≡ false)
end_span_duration h r on sound fits lo hi room act = rw (end_span_open h step_end r on lo hi act) (
  last_duration-spans s.job_id s.step_id r2 (set r2.spans (h - 1) (close_span s))
      ∙ last_duration-history s.job_id s.step_id r2
          (log-IsSound step_end s.job_id s.step_id usec r1 sound1 fits)
      ∙ ap (newest_duration s.job_id s.step_id)
          (history-log step_end s.job_id s.step_id usec r1 on sound1)
      ∙ newest_duration-cons s.job_id s.step_id (logged step_end s.job_id s.step_id usec r1)
          (take 255 (history r1)) refl refl refl,
  ap (λ (x : ActiveSpan). x.active)
      (get_or-set_self r2.spans (h - 1) (close_span s) no_span inside),
)
  where
    s : ActiveSpan
    s = get_or r.spans (h - 1) no_span

    usec : ℕ
    usec = elapsed h step_end r

    r1 : Recorder
    r1 = record r { time = (time_cycles r.time).1 }

    sound1 : IsSound r1
    sound1 = record { whole = sound.whole; fits = sound.fits }

    r2 : Recorder
    r2 = log step_end s.job_id s.step_id usec r1

    inside : h - 1 < length r2.spans
    inside = rw (spans-log step_end s.job_id s.step_id usec r1) (omega arith)

get_or-opened :
    (ss : List ActiveSpan) (k : ℕ) (s : ActiveSpan)
    → k < length ss
    → get_or (set ss k s) (k + 1 - 1) no_span ≡ s
get_or-opened ss k s lt =
    let at : k + 1 - 1 ≡ k = omega arith in
    ap (λ j. get_or (set ss k s) j no_span) at ∙ get_or-set_self ss k s no_span lt

-- What `flightrec_begin_span` leaves under the handle that it returns.
begin_span-opened :
    (type : EventType) (job_id step_id : ℕ) (r : Recorder)
    → r.initialized ≡ true
    → (begin_span type job_id step_id r).0 ≢ 0
    → let (h, r1) = begin_span type job_id step_id r in
      (0 < h)
      × (h ≤ length r.spans)
      × (get_or r1.spans (h - 1) no_span ≡ opened type job_id step_id r)
begin_span-opened type job_id step_id r on some_slot =
    elim (begin_span_lem type job_id step_id r on) [
      | inr (e, all) ↦ absurd (some_slot (ap (λ q. q.0) e))
      | inl (k, e, lt, off) ↦
          let begun = record r {
            time = (time_cycles r.time).1;
            spans = set r.spans k (opened type job_id step_id r);
          } in
          subst
            (λ (q : ℕ × Recorder).
              (0 < q.0)
              × (q.0 ≤ length r.spans)
              × (get_or q.1.spans (q.0 - 1) no_span ≡ opened type job_id step_id r))
            (sym e)
            (
              omega arith,
              omega arith,
              ap (λ ss. get_or ss (k + 1 - 1) no_span) (spans-log type job_id step_id 0 begun)
                  ∙ get_or-opened r.spans k (opened type job_id step_id r) lt,
            )
    ]

-- A span of a job's step is opened by `flightrec_begin_span` in an initialized recorder with a table of
-- 16, and is ended as a step in a later recorder whose table of 16 has it as it was opened, which is
-- initialized and has a whole ring with room for two events more in 32 bits: `flightrec_last_duration`
-- reports for the job and step the time from the reading of the clock by `flightrec_begin_span` to the
-- one by `flightrec_end_span`, in 32 bits, and the slot is free again.
pub end_span-begin_span :
    (type : EventType) (job_id step_id : ℕ) (r later : Recorder)
    → r.initialized ≡ true
    → length r.spans ≡ max_active_spans
    → (begin_span type job_id step_id r).0 ≢ 0
    → later.initialized ≡ true
    → IsSound later
    → later.head + 2 < 2 ^ 32
    → length later.spans ≡ max_active_spans
    → let (h, r1) = begin_span type job_id step_id r in
      get_or later.spans (h - 1) no_span ≡ get_or r1.spans (h - 1) no_span
      → let h = (begin_span type job_id step_id r).0 in
        let (now, t) = time_cycles later.time in
        let ended = end_span h step_end later in
        (last_duration job_id step_id ended
          ≡ u32 (cycles_to_usec t (sub64 now (time_cycles r.time).0)))
        × ((get_or ended.spans (h - 1) no_span).active ≡ false)
end_span-begin_span type job_id step_id r later on whole some_slot on' sound fits whole' kept =
    let (pos, le, is_open) = begin_span-opened type job_id step_id r on some_slot in
    let h = (begin_span type job_id step_id r).0 in
    let same = kept ∙ is_open in
    let (reported, free) =
      end_span_duration h later on' sound fits pos (omega arith) (omega arith)
        (ap (λ (s : ActiveSpan). s.active) same) in
    let (now, t) = time_cycles later.time in
    (
      ap (λ (s : ActiveSpan). last_duration s.job_id s.step_id (end_span h step_end later))
            (sym same)
          ∙ reported
          ∙ ap (λ (s : ActiveSpan). u32 (cycles_to_usec t (sub64 now s.start_cycles))) same,
      free,
    )
