-- ===== src/Episode/Ends.antt =====
-- Every episode ends.
use mathlib.Core.Path.{subst}
use zenedge.Common.{
  Status, ℕ, zero, suc, ◌+◌, ◌-◌, ◌^◌, ◌<◌, ◌≤◌, ◌≡◌, ◌⊎◌, refl, sym, ap, true, false, Option, none,
  some, leb, ltb, ◌==◌, if◌then◌else◌, u32, arith, inl, inr, Bool-cases, ok,
}
use zenedge.Episode.{
  EpisodeState, ep_idle, ep_propose, ep_validate, ep_apply, ep_monitor, ep_decide, ep_rollback,
  ep_safe, EpisodeCtx, Devices, Engine, MetricSnapshot, check_guardrails, go_to, set_clock,
  accumulate, count_round, observe, monitor, average, decide, tick_in, tick, propose,
}

-- The rounds of monitoring that are left after this one do not wrap around.
abbrev Fits : EpisodeCtx → Type 0
Fits c = (c.monitor_steps_total < 2 ^ 32) × (c.monitor_steps_done ≤ c.monitor_steps_total - 1)

-- The states that an active episode has.
abbrev pub Runs : EpisodeState → EpisodeCtx → Type 0
Runs ep_idle c = ⊥
Runs ep_propose c = Fits c
Runs ep_validate c = Fits c
Runs ep_apply c = Fits c
Runs ep_monitor c = Fits c
Runs ep_decide c = Unit
Runs ep_rollback c = Unit
Runs ep_safe c = ⊥

abbrev rounds : EpisodeCtx → ℕ
rounds c = c.monitor_steps_total - 1 - c.monitor_steps_done + 1

-- The ticks that are enough from a state on.
abbrev left : EpisodeState → EpisodeCtx → ℕ
left ep_idle c = 0
left ep_propose c = rounds c + 5
left ep_validate c = rounds c + 4
left ep_apply c = rounds c + 3
left ep_monitor c = rounds c + 2
left ep_decide c = 2
left ep_rollback c = 1
left ep_safe c = 0

module _ {D : Type 0} (dev : Devices D) where
  unfoldable pub ticks : ℕ → Engine D → Engine D
  ticks zero e = e
  ticks (suc n) e = ticks n (tick dev e)

  abbrev pub HasEnded : Engine D → Type 0
  HasEnded e = (e.episode_active ≡ false) × (e.current_episode.state ≡ ep_idle)

  -- A tick ends the episode or leaves fewer ticks to come.
  abbrev Advances : ℕ → Engine D → Type 0
  Advances n e =
      HasEnded e
      ⊎ ((e.episode_active ≡ true)
          × Runs e.current_episode.state e.current_episode
          × (left e.current_episode.state e.current_episode < n))

  count_round-Advances :
      (e : Engine D)
      → e.episode_active ≡ true
      → e.current_episode.state ≡ ep_monitor
      → Fits e.current_episode
      → Advances (rounds e.current_episode + 2) (count_round e)
  count_round-Advances e on s h =
      elim (Bool-cases (
        leb e.current_episode.monitor_steps_total
          (u32 (e.current_episode.monitor_steps_done + 1)))) [
            | inl last ↦ rw last (inr (on, tt, omega arith))
            | inr more ↦ rw (more, s) (inr (on, (h.0, ground arith), ground arith))
          ]

  observe-Advances :
      (code : ℕ) (snap : MetricSnapshot) (d : D) (e : Engine D)
      → e.episode_active ≡ true
      → e.current_episode.state ≡ ep_monitor
      → Fits e.current_episode
      → Advances (rounds e.current_episode + 2) (observe code snap d e)
  observe-Advances code snap d e on s h = elim (Bool-cases (code == 0)) [
    | inl took ↦ elim (Bool-cases (check_guardrails snap)) [
      | inl violated ↦ rw (took, violated) (inr (on, tt, omega arith))
      | inr fine ↦
          rw (took, fine)
            (count_round-Advances
              (record e { devices = d; current_episode = accumulate snap e.current_episode }) on s
              h)
    ]
    | inr failed ↦ rw failed (count_round-Advances (record e { devices = d }) on s h)
  ]

  monitor-Advances :
      (collector : Option (D → ℕ × (MetricSnapshot × D))) (e : Engine D)
      → e.episode_active ≡ true
      → e.current_episode.state ≡ ep_monitor
      → Fits e.current_episode
      → Advances (rounds e.current_episode + 2) (monitor collector e)
  monitor-Advances none e on s h = count_round-Advances e on s h
  monitor-Advances (some get_snapshot) e on s h =
      let (code, (snap, d)) = get_snapshot e.devices in observe-Advances code snap d e on s h

  decide-Advances : (e : Engine D) → e.episode_active ≡ true → Advances 2 (decide e)
  decide-Advances e on = elim (Bool-cases (ltb 50 (average e.current_episode))) [
    | inl better ↦ rw better (inl (refl, refl))
    | inr worse ↦ rw worse (inr (on, tt, omega arith))
  ]

  -- Setting the clock is no matter of the episode's.
  apply-Advances :
      (actuator : Option (ℕ → D → D)) (clock : ℕ) (e : Engine D)
      → e.episode_active ≡ true
      → Fits e.current_episode
      → Advances (rounds e.current_episode + 3) (go_to ep_monitor (set_clock actuator clock e))
  apply-Advances none clock e on h = inr (on, h, omega arith)
  apply-Advances (some set_clock_limit) clock e on h = inr (on, h, omega arith)

  tick_in-Advances :
      (state : EpisodeState) (e : Engine D)
      → e.episode_active ≡ true
      → e.current_episode.state ≡ state
      → Runs state e.current_episode
      → Advances (left state e.current_episode) (tick_in state dev e)
  unfolding tick_in
  tick_in-Advances ep_idle e on s h = elim h [ ]
  tick_in-Advances ep_propose e on s h = inr (on, h, omega arith)
  tick_in-Advances ep_validate e on s h = inr (on, h, omega arith)
  tick_in-Advances ep_apply e on s h =
      apply-Advances dev.actuator e.current_episode.proposed_clock e on h
  tick_in-Advances ep_monitor e on s h = monitor-Advances dev.collector e on s h
  tick_in-Advances ep_decide e on s h = decide-Advances e on
  tick_in-Advances ep_rollback e on s h = inl (refl, refl)
  tick_in-Advances ep_safe e on s h = elim h [ ]

  pub tick_on :
      (e : Engine D) → e.episode_active ≡ true → tick dev e ≡ tick_in e.current_episode.state dev e
  unfolding tick
  tick_on e on = ap (λ b. if b then tick_in e.current_episode.state dev e else e) on

  pub tick_off : (e : Engine D) → e.episode_active ≡ false → tick dev e ≡ e
  unfolding tick
  tick_off e off = ap (λ b. if b then tick_in e.current_episode.state dev e else e) off

  tick-Advances :
      (e : Engine D)
      → e.episode_active ≡ true
      → Runs e.current_episode.state e.current_episode
      → Advances (left e.current_episode.state e.current_episode) (tick dev e)
  tick-Advances e on h =
      subst (Advances (left e.current_episode.state e.current_episode)) (sym (tick_on e on))
        (tick_in-Advances e.current_episode.state e on refl h)

  ticks-HasEnded : (n : ℕ) (e : Engine D) → HasEnded e → HasEnded (ticks n e)
  unfolding ticks
  ticks-HasEnded zero e h = h
  ticks-HasEnded (suc n) e h =
      ticks-HasEnded n (tick dev e) (subst HasEnded (sym (tick_off e h.0)) h)

  left_positive : (state : EpisodeState) (c : EpisodeCtx) → Runs state c → 0 < left state c
  left_positive ep_idle c h = elim h [ ]
  left_positive ep_propose c h = omega arith
  left_positive ep_validate c h = omega arith
  left_positive ep_apply c h = omega arith
  left_positive ep_monitor c h = omega arith
  left_positive ep_decide c h = omega arith
  left_positive ep_rollback c h = omega arith
  left_positive ep_safe c h = elim h [ ]

  ticks_enough :
      (n : ℕ) (e : Engine D)
      → e.episode_active ≡ true
      → Runs e.current_episode.state e.current_episode
      → left e.current_episode.state e.current_episode ≤ n
      → HasEnded (ticks n e)
  unfolding ticks
  ticks_enough zero e on h le =
      absurd (omega (arith, left_positive e.current_episode.state e.current_episode h))
  ticks_enough (suc n) e on h le = elim (tick-Advances e on h) [
    | inl ended ↦ ticks-HasEnded n (tick dev e) ended
    | inr (on', h', lt) ↦ ticks_enough n (tick dev e) on' h' (omega arith)
  ]

  propose_ok :
      (clock_mhz duration_steps : ℕ) (e : Engine D)
      → e.episode_active ≡ false
      → (propose clock_mhz duration_steps e).1 ≡ ok
  unfolding propose
  propose_ok clock_mhz duration_steps e off = rw off refl

  abbrev Started : ℕ → ℕ → Engine D × Status → Type 0
  Started clock_mhz duration_steps r =
      (r.0.episode_active ≡ true)
      × (r.0.current_episode.state ≡ ep_propose)
      × (r.0.current_episode.monitor_steps_total ≡ duration_steps)
      × (r.0.current_episode.monitor_steps_done ≡ 0)

  propose-Started :
      (clock_mhz duration_steps : ℕ) (e : Engine D)
      → e.episode_active ≡ false
      → Started clock_mhz duration_steps (propose clock_mhz duration_steps e)
  unfolding propose
  propose-Started clock_mhz duration_steps e off = ground arith

  -- Whatever the devices answer, an episode that was accepted has ended after six ticks and one for each
  -- round of monitoring that it asked for: it is not active, and a new one can be proposed.
  pub ticks-propose :
      (clock_mhz duration_steps n : ℕ) (e : Engine D)
      → e.episode_active ≡ false
      → duration_steps < 2 ^ 32
      → duration_steps + 6 ≤ n
      → let e' = ticks n (propose clock_mhz duration_steps e).0 in
        HasEnded e' × ((propose clock_mhz duration_steps e').1 ≡ ok)
  ticks-propose clock_mhz duration_steps n e off small le = (
    ended,
    propose_ok clock_mhz duration_steps (ticks n (propose clock_mhz duration_steps e).0) ended.0,
  )
    where
      started : Started clock_mhz duration_steps (propose clock_mhz duration_steps e)
      started = propose-Started clock_mhz duration_steps e off

      ended : HasEnded (ticks n (propose clock_mhz duration_steps e).0)
      ended =
          let c = (propose clock_mhz duration_steps e).0.current_episode in
          let (on, at, total, done) = started in
          ticks_enough n (propose clock_mhz duration_steps e).0 on
            (subst (λ s. Runs s c) (sym at) (omega arith, omega arith))
            (subst (λ s. left s c ≤ n) (sym at) (omega arith))
