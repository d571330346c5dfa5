-- ===== src/FlightRec/History.antt =====
-- The ring of the flight recorder holds the last 256 events, and its readers read them in order.
use mathlib.Core.Path.{ap₂}
use zenedge.Common.{
  ℕ, zero, suc, ◌+◌, ◌-◌, ◌^◌, ◌<◌, ◌≤◌, ◌≡◌, refl, sym, ap, ◌∙◌, true, List, [], ◌∷◌, min, arith,
  ◌&&◌, ◌==◌, if◌then◌else◌, length, get_or, set, take, u32, sub32, get_or-set_self, get_or-set_ne,
  length-set,
}
use zenedge.Time.{time_cycles, time_usec}
use zenedge.FlightRec.{
  TraceEvent, EventType, Recorder, blank, filled, masked, count, trace_buf_size, code, step_end,
  log, scan_back, last_duration,
}

-- The `n` events that were logged before the `head`-th, the newest first.
abbrev pub recent : List TraceEvent → ℕ → ℕ → List TraceEvent
recent buf head zero = []
recent buf head (suc n) = get_or buf (masked (head - 1)) blank ∷ recent buf (head - 1) n

-- What the recorder holds, the newest event first.
abbrev pub history : Recorder → List TraceEvent
history r = recent r.buf r.head (count r.head)

-- A recorder whose ring is whole and whose count of events fits 32 bits.
pub record IsSound (r : Recorder) : Type 0 where
  pub whole : length r.buf ≡ trace_buf_size
  pub fits : r.head + 1 < 2 ^ 32

recent-set :
    (buf : List TraceEvent) (e : TraceEvent) (h head n : ℕ)
    → n ≤ head
    → head ≤ h
    → h < head - n + 256
    → recent (set buf (masked h) e) head n ≡ recent buf head n
recent-set buf e h head zero le le' lt = refl
recent-set buf e h head (suc n) le le' lt =
    ap₂ ◌∷◌ (get_or-set_ne buf (masked h) (masked (head - 1)) e blank (omega arith))
      (recent-set buf e h (head - 1) n (omega arith) (omega arith) (omega arith))

take-recent :
    (buf : List TraceEvent) (k head n : ℕ) → take k (recent buf head n) ≡ recent buf head (min k n)
take-recent buf zero head n = let e : min 0 n ≡ 0 = omega arith in rw e
take-recent buf (suc k) head zero = let e : min (suc k) 0 ≡ 0 = omega arith in rw e
take-recent buf (suc k) head (suc n) =
    let e : min (suc k) (suc n) ≡ suc (min k n) = omega arith in
    rw e (ap (◌∷◌ (get_or buf (masked (head - 1)) blank)) (take-recent buf k (head - 1) n))

recent-push :
    (buf : List TraceEvent) (e : TraceEvent) (head : ℕ)
    → length buf ≡ 256
    → recent (set buf (masked head) e) (head + 1) (count (head + 1))
      ≡ e ∷ take 255 (recent buf head (count head))
recent-push buf e head whole =
    rw (full, back)
      (ap₂ ◌∷◌ (get_or-set_self buf (masked head) e blank (omega arith)) (
        recent-set buf e head head (min 255 (count head)) (ground arith) (omega arith) (omega arith)
        ∙ sym (take-recent buf 255 head (count head))))
  where
    full : count (head + 1) ≡ suc (min 255 (count head))
    full = ground arith

    back : head + 1 - 1 ≡ head
    back = omega arith

module _ (type : EventType) (job_id step_id extra : ℕ) (r : Recorder) where
  -- The event that a call of `flightrec_log` writes.
  abbrev pub logged : TraceEvent
  logged =
      let (cycles, t) = time_cycles r.time in
      let (usec, t') = time_usec t in
      filled type job_id step_id extra cycles usec (get_or r.buf (masked r.head) blank)

  -- Where the recorder is initialized, its ring is whole and the count of events has room for one more
  -- in 32 bits, logging puts the event in front of the history and keeps the newest 256 events.
  pub history-log :
      r.initialized ≡ true
      → IsSound r
      → history (log type job_id step_id extra r) ≡ take trace_buf_size (logged ∷ history r)
  unfolding log
  history-log on h =
      let fits : u32 (r.head + 1) ≡ r.head + 1 = omega (arith, h.fits) in
      rw (on, log, fits) (recent-push r.buf logged r.head h.whole)

-- The duration of the newest STEP_END event of a job's step, 0 if there is none.
abbrev pub newest_duration : ℕ → ℕ → List TraceEvent → ℕ
newest_duration job_id step_id [] = 0
newest_duration job_id step_id (e ∷ es) =
    if e.type == code step_end && e.job_id == job_id && e.step_id == step_id
    then e.extra
    else newest_duration job_id step_id es

scan_back-recent :
    (buf : List TraceEvent) (head job_id step_id n i : ℕ)
    → i + n ≤ head
    → head < 2 ^ 32
    → scan_back buf head job_id step_id n i
      ≡ newest_duration job_id step_id (recent buf (head - i) n)
unfolding scan_back
scan_back-recent buf head job_id step_id zero i le lt = refl
scan_back-recent buf head job_id step_id (suc n) i le lt =
    rw (scan_back-recent buf head job_id step_id n (i + 1) (omega arith) lt, here, next) refl
  where
    here : masked (sub32 (sub32 head 1) i) ≡ masked (head - i - 1)
    here = omega arith

    next : head - (i + 1) ≡ head - i - 1
    next = omega arith

-- `flightrec_last_duration` returns the duration of the newest STEP_END event of the step that the
-- ring still holds, and 0 if it holds none.
pub last_duration-history :
    (job_id step_id : ℕ) (r : Recorder)
    → IsSound r
    → last_duration job_id step_id r ≡ newest_duration job_id step_id (history r)
unfolding last_duration
last_duration-history job_id step_id r h =
    rw
      (scan_back-recent r.buf r.head job_id step_id (count r.head) 0 (ground arith)
        (omega (arith, h.fits)))
      (rw start refl)
  where
    start : r.head - 0 ≡ r.head
    start = omega arith

-- Logging keeps the ring whole, and counts one event more.
pub log-IsSound :
    (type : EventType) (job_id step_id extra : ℕ) (r : Recorder)
    → IsSound r
    → r.head + 2 < 2 ^ 32
    → IsSound (log type job_id step_id extra r)
unfolding log
log-IsSound type job_id step_id extra r h lt =
    ground (arith, length-set r.buf (masked r.head) (logged type job_id step_id extra r))
