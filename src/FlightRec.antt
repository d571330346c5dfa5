-- ===== src/FlightRec.antt =====
-- kernel/trace/flightrec.h and flightrec.c: the flight recorder, a ring of the last 256 events, and
-- the table of open spans. The console dumps are not modelled.
pub mod History
pub mod Spans
pub mod Stats
pub mod Tests
use zenedge.Common.{
  ℕ, zero, suc, ◌+◌, ◌-◌, ◌*◌, ◌%◌, ◌^◌, Bool, true, false, Option, none, some, List, [], ◌∷◌, ◌&&◌,
  ◌||◌, not, leb, ltb, ◌==◌, if◌then◌else◌, length, get_or, set, replicate, map, u8, u32, u64,
  sub32, sub64,
}
use zenedge.Time.{Time, time_cycles, time_usec, cycles_to_usec}

abbrev pub trace_buf_size : ℕ
trace_buf_size = 256

-- `x & TRACE_BUF_MASK`, the low eight bits.
abbrev pub masked : ℕ → ℕ
masked x = x % 2 ^ 8

pub data EventType : Type 0 where
  sched_tick job_submit job_complete step_start step_end step_preempt job_admit job_reject :
      EventType
  contract_apply budget_warn budget_exceed contract_violation state_change safe_mode : EventType
  mem_alloc mem_free mem_alloc_fail locality_miss contract_exceed node_unsupported : EventType
  io_submit io_complete io_stall accel_submit accel_complete accel_throttle : EventType
  thermal_warn power_cap boot halt panic : EventType

-- The value of `trace_event_type_t`.
abbrev pub code : EventType → ℕ
code sched_tick = 0x00
code job_submit = 0x01
code job_complete = 0x02
code step_start = 0x03
code step_end = 0x04
code step_preempt = 0x05
code job_admit = 0x06
code job_reject = 0x07
code contract_apply = 0x10
code budget_warn = 0x11
code budget_exceed = 0x12
code contract_violation = 0x13
code state_change = 0x14
code safe_mode = 0x15
code mem_alloc = 0x20
code mem_free = 0x21
code mem_alloc_fail = 0x22
code locality_miss = 0x23
code contract_exceed = 0x24
code node_unsupported = 0x25
code io_submit = 0x30
code io_complete = 0x31
code io_stall = 0x32
code accel_submit = 0x40
code accel_complete = 0x41
code accel_throttle = 0x42
code thermal_warn = 0x50
code power_cap = 0x51
code boot = 0xF0
code halt = 0xF1
code panic = 0xFF

pub record TraceEvent : Type 0 where
  pub ts_usec : ℕ
  pub ts_cycles : ℕ
  pub type : ℕ
  pub flags : ℕ
  pub cpu_id : ℕ
  pub job_id : ℕ
  pub step_id : ℕ
  pub extra : ℕ
  pub tpm_signature : List ℕ

-- An entry of the zeroed `buf`.
abbrev pub blank : TraceEvent
blank = record {
  ts_usec = 0;
  ts_cycles = 0;
  type = 0;
  flags = 0;
  cpu_id = 0;
  job_id = 0;
  step_id = 0;
  extra = 0;
  tpm_signature = [];
}

abbrev pub max_active_spans : ℕ
max_active_spans = 16

pub record ActiveSpan : Type 0 where
  pub active : Bool
  pub job_id : ℕ
  pub step_id : ℕ
  pub start_cycles : ℕ
  pub start_type : ℕ

abbrev pub no_span : ActiveSpan
no_span = record { active = false; job_id = 0; step_id = 0; start_cycles = 0; start_type = 0 }

-- The statics of flightrec.c, with the clock that the recorder reads.
pub record Recorder : Type 0 where
  pub time : Time
  pub buf : List TraceEvent
  pub head : ℕ
  pub initialized : Bool
  pub spans : List ActiveSpan
  pub next_span_handle : ℕ

abbrev seal_episode : TraceEvent → TraceEvent
seal_episode e = record e { tpm_signature = replicate (length e.tpm_signature) 0 }

-- The entry that `flightrec_log` writes over `e`, at its two readings of the clock.
abbrev pub filled : EventType → ℕ → ℕ → ℕ → ℕ → ℕ → TraceEvent → TraceEvent
filled type job_id step_id extra cycles usec e = seal_episode (record e {
  ts_cycles = cycles;
  ts_usec = usec;
  type = u8 (code type);
  flags = 0;
  cpu_id = 0;
  job_id = job_id;
  step_id = step_id;
  extra = extra;
})

unfoldable pub log : EventType → ℕ → ℕ → ℕ → Recorder → Recorder
log type job_id step_id extra r =
    let (cycles, t) = time_cycles r.time in
    let (usec, t') = time_usec t in
    let slot = masked r.head in
    if r.initialized
    then record r {
      time = t';
      buf = set r.buf slot (filled type job_id step_id extra cycles usec (get_or r.buf slot blank));
      head = u32 (r.head + 1);
    }
    else r

abbrev pub close_span : ActiveSpan → ActiveSpan
close_span s = record s { active = false }

unfoldable pub init : Recorder → Recorder
init r = log boot 0 0 0 (record r {
  head = 0;
  initialized = true;
  spans = map close_span r.spans;
  next_span_handle = 1;
})

-- The first slot that is not active, counted from `i`.
unfoldable pub free_slot : List ActiveSpan → ℕ → Option ℕ
free_slot [] i = none
free_slot (s ∷ ss) i = if s.active then free_slot ss (i + 1) else some i

-- Returns the handle, 0 if there is none.
unfoldable pub begin_span : EventType → ℕ → ℕ → Recorder → ℕ × Recorder
begin_span start_type job_id step_id r =
    if r.initialized
    then elim (free_slot r.spans 0) [
      | none ↦ (0, log contract_violation job_id step_id 0xDEAD r)
      | some slot ↦
          let (cycles, t) = time_cycles r.time in
          let span : ActiveSpan = record {
            active = true;
            job_id = job_id;
            step_id = step_id;
            start_cycles = cycles;
            start_type = u8 (code start_type);
          } in
          (
            slot + 1,
            log start_type job_id step_id 0 (record r { time = t; spans = set r.spans slot span }),
          )
    ]
    else (0, r)

unfoldable pub end_span : ℕ → EventType → Recorder → Recorder
end_span span end_type r =
    let slot = span - 1 in
    let s = get_or r.spans slot no_span in
    let (cycles, t) = time_cycles r.time in
    let usec = cycles_to_usec t (sub64 cycles s.start_cycles) in
    let r' = log end_type s.job_id s.step_id (u32 usec) (record r { time = t }) in
    if not r.initialized || span == 0
    then r
    else if leb max_active_spans slot || not s.active
    then r
    else record r' { spans = set r'.spans slot (close_span s) }

-- How many entries of the ring are filled.
abbrev pub count : ℕ → ℕ
count head = if ltb trace_buf_size head then trace_buf_size else head

-- The loop of `flightrec_last_duration`: `n` rounds are left, from round `i` on.
unfoldable pub scan_back : List TraceEvent → ℕ → ℕ → ℕ → ℕ → ℕ → ℕ
scan_back buf head job_id step_id zero i = 0
scan_back buf head job_id step_id (suc n) i =
    let e = get_or buf (masked (sub32 (sub32 head 1) i)) blank in
    let rest = scan_back buf head job_id step_id n (i + 1) in
    if e.type == code step_end && e.job_id == job_id && e.step_id == step_id then e.extra else rest

unfoldable pub last_duration : ℕ → ℕ → Recorder → ℕ
unfolding scan_back
last_duration job_id step_id r = scan_back r.buf r.head job_id step_id (count r.head) 0

pub record JobStats : Type 0 where
  pub job_id : ℕ
  pub steps_completed : ℕ
  pub total_cpu_usec : ℕ
  pub total_wall_usec : ℕ
  pub violations : ℕ

-- The statistics and the two time stamps that the loop of `flightrec_get_job_stats` carries.
pub record Tally : Type 0 where
  pub steps_completed : ℕ
  pub total_cpu_usec : ℕ
  pub violations : ℕ
  pub first_ts : ℕ
  pub last_ts : ℕ

-- The body of the loop, for an event of the job.
unfoldable pub tally_event : TraceEvent → Tally → Tally
tally_event e t =
    let t1 =
      if t.first_ts == 0 || ltb e.ts_usec t.first_ts
      then record t { first_ts = e.ts_usec }
      else t in
    let t2 = if ltb t1.last_ts e.ts_usec then record t1 { last_ts = e.ts_usec } else t1 in
    if e.type == code step_end
    then record t2 {
      steps_completed = u32 (t2.steps_completed + 1);
      total_cpu_usec = u64 (t2.total_cpu_usec + e.extra);
    }
    else if e.type == code contract_violation || e.type == code budget_exceed
    then record t2 { violations = u32 (t2.violations + 1) }
    else t2

-- The loop: `n` rounds are left, from round `i` on.
unfoldable pub tally_loop : List TraceEvent → ℕ → ℕ → ℕ → ℕ → Tally → Tally
tally_loop buf head job_id zero i t = t
tally_loop buf head job_id (suc n) i t =
    let idx = if ltb trace_buf_size head then masked (u32 (sub32 head trace_buf_size + i)) else i in
    let e = get_or buf idx blank in
    tally_loop buf head job_id n (i + 1) (if e.job_id == job_id then tally_event e t else t)

unfoldable pub get_job_stats : ℕ → Recorder → JobStats
unfolding tally_loop
get_job_stats job_id r =
    let t = tally_loop r.buf r.head job_id (count r.head) 0 (record {
      steps_completed = 0;
      total_cpu_usec = 0;
      violations = 0;
      first_ts = 0;
      last_ts = 0;
    }) in
    record {
      job_id = job_id;
      steps_completed = t.steps_completed;
      total_cpu_usec = t.total_cpu_usec;
      total_wall_usec = sub64 t.last_ts t.first_ts;
      violations = t.violations;
    }

unfoldable get_buffer : Recorder → ℕ × ℕ × List TraceEvent
get_buffer r = (r.head, count r.head, r.buf)
