-- ===== src/Episode/Clock.antt =====
-- Devices with a clock, and what an episode that violates a guardrail leaves it at.
use mathlib.Core.Path.{subst}
use zenedge.Common.{ℕ, ◌≡◌, refl, sym, ◌∙◌, ap, true, some}
use zenedge.Episode.{
  ep_monitor, ep_rollback, Devices, Engine, MetricSnapshot, check_guardrails, accumulate, tick_in,
  tick,
}
use zenedge.Episode.Ends.{HasEnded, ticks, tick_on}

-- Devices with a collector and an actuator, whose clock is what the actuator set it to last.
pub record HasClock {D : Type 0} (get_snapshot : D → ℕ × (MetricSnapshot × D))
    (set_clock_limit : ℕ → D → D) (clock : D → ℕ) : Type 0 where
  pub is_set : (c : ℕ) (d : D) → clock (set_clock_limit c d) ≡ c
  pub is_kept : (d : D) → clock (get_snapshot d).1.1 ≡ clock d

module _ {D : Type 0} (get_snapshot : D → ℕ × (MetricSnapshot × D)) (set_clock_limit : ℕ → D → D)
    (clock : D → ℕ) (h : HasClock get_snapshot set_clock_limit clock) where
  dev : Devices D
  dev = record { collector = some get_snapshot; actuator = some set_clock_limit }

  -- A snapshot that violates a guardrail ends the episode with the next tick, and the clock is the
  -- original one then, however good the utilisation was.
  pub ticks-violation :
      (e : Engine D)
      → e.episode_active ≡ true
      → e.current_episode.state ≡ ep_monitor
      → (get_snapshot e.devices).0 ≡ 0
      → check_guardrails (get_snapshot e.devices).1.0 ≡ true
      → let devices : Devices D = record {
        collector = some get_snapshot;
        actuator = some set_clock_limit;
      } in
        let e' = ticks devices 2 e in
        HasEnded devices e' × (clock e'.devices ≡ e.current_episode.original_clock)
  unfolding dev ticks tick_in
  ticks-violation e on s took violated =
      subst (λ e'. HasEnded dev e' × (clock e'.devices ≡ e.current_episode.original_clock))
        (sym (ap (tick dev) first ∙ tick_on dev rolling on))
        ((refl, refl), h.is_set e.current_episode.original_clock d)
    where
      d : D
      d = (get_snapshot e.devices).1.1

      rolling : Engine D
      rolling = record e {
        devices = d;
        current_episode = record (accumulate (get_snapshot e.devices).1.0 e.current_episode) {
          state = ep_rollback;
        };
      }

      first : tick dev e ≡ rolling
      first = tick_on dev e on ∙ ap (λ st. tick_in st dev e) s ∙ rw (took, violated) refl
