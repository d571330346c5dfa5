-- ===== src/Episode/Tests.antt =====
-- Episodes on the mock device, and the theorems at them.
use zenedge.Common.{ℕ, ◌<◌, ◌≡◌, ◌⊎◌, refl, true, false, arith, ok}
use zenedge.Episode.{
  MetricSnapshot, EpisodeCtx, Engine, ep_idle, ep_monitor, propose, tick, tick_in,
}
use zenedge.Episode.MockGpu.{MockGpu, mock_get_snapshot, mock_set_clock, mock_devices}
use zenedge.Episode.Ends.{ticks, HasEnded, ticks-propose}
use zenedge.Episode.Clock.{HasClock, ticks-violation}
use zenedge.Episode.Average.{mean_of, rounds_of, ticks-clock}

abbrev no_snapshot : MetricSnapshot
no_snapshot = record {
  timestamp = 0;
  gpu_temp_c = 0;
  gpu_util_pct = 0;
  mem_used_mb = 0;
  pcie_bw_mbps = 0;
  ecc_errors = 0;
  pcie_retries = 0;
  xid_errors = 0;
}

abbrev no_episode : EpisodeCtx
no_episode = record {
  episode_id = 0;
  state = ep_idle;
  monitor_steps_total = 0;
  monitor_steps_done = 0;
  baseline = no_snapshot;
  current_accum = no_snapshot;
  samples = 0;
  start_time = 0;
  end_time = 0;
  proposed_clock = 0;
  original_clock = 0;
}

-- A device at a utilisation and a temperature.
abbrev gpu : ℕ → ℕ → MockGpu
gpu util temp = record {
  current_clock = 1000;
  current_power = 250;
  current_temp = temp;
  current_util = util;
  scratch = no_snapshot;
}

abbrev idle : MockGpu → Engine MockGpu
idle g = record { current_episode = no_episode; episode_active = false; devices = g }

mock-HasClock : HasClock mock_get_snapshot mock_set_clock (λ g. g.current_clock)
unfolding mock_set_clock mock_get_snapshot
mock-HasClock = record { is_set = λ c d. refl; is_kept = λ d. refl }

-- At 60 percent the clock of 1400 is kept, at 40 percent it is not.
promoted : (ticks mock_devices 9 (propose 1400 3 (idle (gpu 60 65))).0).devices.current_clock ≡ 1400
unfolding ticks tick tick_in propose mock_set_clock mock_get_snapshot
promoted = refl

rejected : (ticks mock_devices 9 (propose 1400 3 (idle (gpu 40 65))).0).devices.current_clock ≡ 1000
unfolding ticks tick tick_in propose mock_set_clock mock_get_snapshot
rejected = refl

ticks-propose_example :
    let e' = ticks mock_devices 9 (propose 1400 3 (idle (gpu 60 65))).0 in
    HasEnded mock_devices e' × ((propose 1400 3 e').1 ≡ ok)
ticks-propose_example =
    ticks-propose mock_devices 1400 3 9 (idle (gpu 60 65)) refl (omega arith) (omega arith)

-- Three snapshots, of a utilisation that goes up, have an average of 61.
average_run :
    mean_of mock_get_snapshot mock_set_clock (λ g. g.current_clock) mock-HasClock 3 (gpu 60 65) ≡ 61
unfolding mock_get_snapshot
average_run = refl

ticks-clock_example :
    let e' = ticks mock_devices 9 (propose 1400 3 (idle (gpu 60 65))).0 in
    ((e'.devices.current_clock ≡ 1400)
      × (50
          < mean_of mock_get_snapshot mock_set_clock
              (λ g. g.current_clock)
              mock-HasClock
              (rounds_of mock_get_snapshot mock_set_clock (λ g. g.current_clock) mock-HasClock 3)
              (mock_set_clock 1400 (gpu 60 65))))
    ⊎ (e'.devices.current_clock ≡ 1000)
ticks-clock_example =
    ticks-clock mock_get_snapshot mock_set_clock (λ g. g.current_clock) mock-HasClock 1400 3 9
      (idle (gpu 60 65)) refl (omega arith) (omega arith)

-- An episode that monitors a device at 95 degrees.
abbrev hot : Engine MockGpu
hot = record {
  current_episode = record no_episode {
    state = ep_monitor;
    monitor_steps_total = 3;
    original_clock = 1000;
    proposed_clock = 1400;
  };
  episode_active = true;
  devices = record (gpu 99 95) { current_clock = 1400 };
}

ticks-violation_example :
    let e' = ticks mock_devices 2 hot in
    HasEnded mock_devices e' × (e'.devices.current_clock ≡ 1000)
unfolding mock_get_snapshot
ticks-violation_example =
    ticks-violation mock_get_snapshot mock_set_clock (λ g. g.current_clock) mock-HasClock hot refl
      refl refl refl
