-- ===== src/Episode/MockGpu.antt =====
-- kernel/drivers/mock_gpu.c: the devices that the kernel has.
use zenedge.Common.{ℕ, ◌+◌, ◌-◌, ◌%◌, some, ltb, if◌then◌else◌, u32}
use zenedge.Episode.{MetricSnapshot, Devices}

-- The statics of mock_gpu.c. `scratch` is what the snapshot on the caller's stack holds before: the
-- collector does not write all of its fields.
pub record MockGpu : Type 0 where
  pub current_clock : ℕ
  pub current_power : ℕ
  pub current_temp : ℕ
  pub current_util : ℕ
  pub scratch : MetricSnapshot

unfoldable pub mock_set_clock : ℕ → MockGpu → MockGpu
mock_set_clock clock_mhz g = record g {
  current_clock = clock_mhz;
  current_temp = u32 (g.current_temp + (if ltb 1500 clock_mhz then 5 else 1));
}

unfoldable mock_set_power : ℕ → MockGpu → MockGpu
mock_set_power watts g = record g { current_power = watts }

unfoldable mock_reset : MockGpu → MockGpu
mock_reset g = record g { current_clock = 1000; current_power = 250; current_temp = 60 }

unfoldable pub mock_get_snapshot : MockGpu → ℕ × (MetricSnapshot × MockGpu)
mock_get_snapshot g = (
  0,
  (
    record g.scratch {
      timestamp = 0;
      gpu_temp_c = g.current_temp;
      gpu_util_pct = g.current_util;
      ecc_errors = 0;
      xid_errors = 0;
    },
    record g {
      current_temp = if ltb 60 g.current_temp then g.current_temp - 1 else g.current_temp;
      current_util = u32 (g.current_util + 1) % 100;
    },
  ),
)

-- What `collector_get_default` and `actuator_get_default` lead to.
abbrev pub mock_devices : Devices MockGpu
mock_devices = record { collector = some mock_get_snapshot; actuator = some mock_set_clock }
