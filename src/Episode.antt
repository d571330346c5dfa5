-- ===== src/Episode.antt =====
-- kernel/engine/episode.c and kernel/include/engine/episode.h: the tuning episodes, a state machine that
-- is driven by ticks and acts on the devices behind kernel/include/api/actuator.h and collector.h.
pub mod MockGpu
pub mod Ends
pub mod Clock
pub mod Average
pub mod Tests
use zenedge.Common.{
  ℕ, ◌+◌, ◌/◌, Bool, true, false, ◌||◌, Option, none, some, leb, ltb, ◌==◌, if◌then◌else◌, u32,
  Status, ok, failed,
}

pub data EpisodeState : Type 0 where
  ep_idle ep_propose ep_validate ep_apply ep_monitor ep_decide ep_rollback ep_safe : EpisodeState

pub record MetricSnapshot : Type 0 where
  pub timestamp : ℕ
  pub gpu_temp_c : ℕ
  pub gpu_util_pct : ℕ
  pub mem_used_mb : ℕ
  pub pcie_bw_mbps : ℕ
  pub ecc_errors : ℕ
  pub pcie_retries : ℕ
  pub xid_errors : ℕ

pub record EpisodeCtx : Type 0 where
  pub episode_id : ℕ
  pub state : EpisodeState
  pub monitor_steps_total : ℕ
  pub monitor_steps_done : ℕ
  pub baseline : MetricSnapshot
  pub current_accum : MetricSnapshot
  pub samples : ℕ
  pub start_time : ℕ
  pub end_time : ℕ
  pub proposed_clock : ℕ
  pub original_clock : ℕ

-- The default collector and actuator, null or not, over the state `D` of the devices. A collector
-- answers 0 for a snapshot that it took; the actuator's answer is not looked at.
pub record Devices (D : Type 0) : Type 0 where
  pub collector : Option (D → ℕ × (MetricSnapshot × D))
  pub actuator : Option (ℕ → D → D)

-- The statics of episode.c, and the devices.
pub record Engine (D : Type 0) : Type 0 where
  pub current_episode : EpisodeCtx
  pub episode_active : Bool
  pub devices : D

abbrev pub check_guardrails : MetricSnapshot → Bool
check_guardrails m = ltb 90 m.gpu_temp_c || ltb 0 m.ecc_errors

abbrev pub accumulate : MetricSnapshot → EpisodeCtx → EpisodeCtx
accumulate snap c =
    let accum = c.current_accum in
    record c {
      current_accum = record accum {
        gpu_temp_c = u32 (accum.gpu_temp_c + snap.gpu_temp_c);
        gpu_util_pct = u32 (accum.gpu_util_pct + snap.gpu_util_pct);
      };
      samples = u32 (c.samples + 1);
    }

abbrev pub average : EpisodeCtx → ℕ
average c = if ltb 0 c.samples then c.current_accum.gpu_util_pct / c.samples else 0

module _ {D : Type 0} where
  unfoldable pub init : Engine D → Engine D
  init e = record e {
    current_episode = record e.current_episode { episode_id = 0; state = ep_idle; samples = 0 };
    episode_active = false;
  }

  abbrev pub go_to : EpisodeState → Engine D → Engine D
  go_to state e = record e { current_episode = record e.current_episode { state = state } }

  -- The end of an episode.
  abbrev pub stop : Engine D → Engine D
  stop e = record (go_to ep_idle e) { episode_active = false }

  abbrev pub set_clock : Option (ℕ → D → D) → ℕ → Engine D → Engine D
  set_clock none clock e = e
  set_clock (some set_clock_limit) clock e = record e { devices = set_clock_limit clock e.devices }

  -- The end of a round of monitoring.
  abbrev pub count_round : Engine D → Engine D
  count_round e =
      let done = u32 (e.current_episode.monitor_steps_done + 1) in
      let c = record e.current_episode { monitor_steps_done = done } in
      record e {
        current_episode =
            if leb c.monitor_steps_total done then record c { state = ep_decide } else c;
      }

  -- A round with the answer `code` of the collector, and the devices afterwards.
  abbrev pub observe : ℕ → MetricSnapshot → D → Engine D → Engine D
  observe code snap d e =
      let e1 = record e { devices = d } in
      let e2 = record e1 { current_episode = accumulate snap e.current_episode } in
      if code == 0
      then (if check_guardrails snap then go_to ep_rollback e2 else count_round e2)
      else count_round e1

  abbrev pub monitor : Option (D → ℕ × (MetricSnapshot × D)) → Engine D → Engine D
  monitor none e = count_round e
  monitor (some get_snapshot) e =
      let (code, (snap, d)) = get_snapshot e.devices in observe code snap d e

  abbrev pub decide : Engine D → Engine D
  decide e = if ltb 50 (average e.current_episode) then stop e else go_to ep_rollback e

  unfoldable pub tick_in : EpisodeState → Devices D → Engine D → Engine D
  tick_in ep_idle dev e = e
  tick_in ep_propose dev e = go_to ep_validate e
  tick_in ep_validate dev e = go_to ep_apply e
  tick_in ep_apply dev e =
      go_to ep_monitor (set_clock dev.actuator e.current_episode.proposed_clock e)
  tick_in ep_monitor dev e = monitor dev.collector e
  tick_in ep_decide dev e = decide e
  tick_in ep_rollback dev e = stop (set_clock dev.actuator e.current_episode.original_clock e)
  tick_in ep_safe dev e = e

  unfoldable pub tick : Devices D → Engine D → Engine D
  tick dev e = if e.episode_active then tick_in e.current_episode.state dev e else e

  unfoldable pub propose : ℕ → ℕ → Engine D → Engine D × Status
  propose clock_mhz duration_steps e =
      let c = e.current_episode in
      let accum = record c.current_accum { gpu_temp_c = 0; gpu_util_pct = 0 } in
      if e.episode_active then (e, failed) else (
        record e {
          current_episode = record c {
            episode_id = u32 (c.episode_id + 1);
            state = ep_propose;
            proposed_clock = clock_mhz;
            original_clock = 1000;
            monitor_steps_total = duration_steps;
            monitor_steps_done = 0;
            current_accum = accum;
            samples = 0;
          };
          episode_active = true;
        },
        ok,
      )
