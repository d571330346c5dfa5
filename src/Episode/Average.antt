-- ===== src/Episode/Average.antt =====
-- How an episode decides: by the average utilisation of the snapshots that it took.
use mathlib.Core.Path.{subst}
use zenedge.Common.{
  ℕ, zero, suc, ◌+◌, ◌^◌, ◌<◌, ◌≤◌, ◌≡◌, ◌⊎◌, refl, sym, ◌∙◌, ap, true, false, some, leb, ltb,
  ltb→lt, ◌==◌, ◌/◌, if◌then◌else◌, arith, u32, inl, inr, Bool-cases,
}
use zenedge.Episode.{
  EpisodeState, ep_idle, ep_propose, ep_validate, ep_apply, ep_monitor, ep_decide, ep_rollback,
  ep_safe, Devices, Engine, EpisodeCtx, go_to, MetricSnapshot, check_guardrails, accumulate,
  count_round, observe, average, decide, tick_in, tick, propose,
}
use zenedge.Episode.Ends.{ticks, tick_on, tick_off, ticks-propose}
use zenedge.Episode.Clock.{HasClock}

module _ {D : Type 0} (get_snapshot : D → ℕ × (MetricSnapshot × D)) (set_clock_limit : ℕ → D → D)
    (clock : D → ℕ) (h : HasClock get_snapshot set_clock_limit clock) where
  dev : Devices D
  dev = record { collector = some get_snapshot; actuator = some set_clock_limit }

  -- The devices after `k` snapshots, and of these, how many the collector took and the sum of their
  -- utilisations.
  abbrev after : ℕ → D → D
  after zero d = d
  after (suc k) d = (get_snapshot (after k d)).1.1

  abbrev taken : ℕ → D → ℕ
  taken zero d = 0
  taken (suc k) d = taken k d + (if (get_snapshot (after k d)).0 == 0 then 1 else 0)

  abbrev utilisation : ℕ → D → ℕ
  utilisation zero d = 0
  utilisation (suc k) d =
      utilisation k d
      + (if (get_snapshot (after k d)).0 == 0
          then (get_snapshot (after k d)).1.0.gpu_util_pct
          else 0)

  -- The average utilisation of the first `k` snapshots, with both sums cut to 32 bits; 0 without any.
  abbrev pub mean_of : ℕ → D → ℕ
  mean_of k d = if ltb 0 (u32 (taken k d)) then u32 (utilisation k d) / u32 (taken k d) else 0

  -- How many snapshots an episode asks for.
  abbrev pub rounds_of : ℕ → ℕ
  rounds_of duration_steps = if leb duration_steps 1 then 1 else duration_steps

  -- An episode that proposes `wanted` for some rounds at devices `d`.
  module _ (wanted duration_steps : ℕ) (d : D) (small : duration_steps < 2 ^ 32) where
    -- The devices at the first snapshot.
    abbrev applied : D
    applied = set_clock_limit wanted d

    -- What an episode has counted when it has asked for `k` snapshots.
    record HasSampled (k : ℕ) (c : EpisodeCtx) : Type 0 where
      util : c.current_accum.gpu_util_pct ≡ u32 (utilisation k applied)
      num : c.samples ≡ u32 (taken k applied)
      done : c.monitor_steps_done ≡ k
      total : c.monitor_steps_total ≡ duration_steps

    abbrev IsEnded : Engine D → Type 0
    IsEnded e =
        ((clock e.devices ≡ wanted) × (50 < mean_of (rounds_of duration_steps) applied))
        ⊎ (clock e.devices ≡ 1000)

    abbrev IsWaiting : Engine D → Type 0
    IsWaiting e = (e.devices ≡ d) × HasSampled 0 e.current_episode

    -- What holds at each state of the episode.
    abbrev ClockIn : EpisodeState → Engine D → Type 0
    ClockIn ep_idle e = IsEnded e
    ClockIn ep_propose e = IsWaiting e
    ClockIn ep_validate e = IsWaiting e
    ClockIn ep_apply e = IsWaiting e
    ClockIn ep_monitor e =
        (k : ℕ) × (k < rounds_of duration_steps)
        × (e.devices ≡ after k applied)
        × (clock e.devices ≡ wanted)
        × HasSampled k e.current_episode
    ClockIn ep_decide e =
        (clock e.devices ≡ wanted) × HasSampled (rounds_of duration_steps) e.current_episode
    ClockIn ep_rollback e = Unit
    ClockIn ep_safe e = Unit

    abbrev Tracks : Engine D → Type 0
    Tracks e =
        ClockIn e.current_episode.state e
        × (e.current_episode.proposed_clock ≡ wanted)
        × (e.current_episode.original_clock ≡ 1000)

    -- A round that is not counted yet.
    record HasLooked (k : ℕ) (c : EpisodeCtx) : Type 0 where
      util : c.current_accum.gpu_util_pct ≡ u32 (utilisation (suc k) applied)
      num : c.samples ≡ u32 (taken (suc k) applied)
      done : c.monitor_steps_done ≡ k
      total : c.monitor_steps_total ≡ duration_steps

    count_round-Tracks :
        (k : ℕ) (e : Engine D)
        → k < rounds_of duration_steps
        → e.current_episode.state ≡ ep_monitor
        → e.devices ≡ after (suc k) applied
        → clock e.devices ≡ wanted
        → HasLooked k e.current_episode
        → e.current_episode.proposed_clock ≡ wanted
        → e.current_episode.original_clock ≡ 1000
        → Tracks (count_round e)
    count_round-Tracks k e lt s at on l p o =
        let counted : u32 (e.current_episode.monitor_steps_done + 1) ≡ suc k =
          ap (λ n. u32 (n + 1)) l.done ∙ ground arith in
        elim (Bool-cases (
          leb e.current_episode.monitor_steps_total
            (u32 (e.current_episode.monitor_steps_done + 1)))) [
              | inl last ↦
                  let all : suc k ≡ rounds_of duration_steps = ground (arith, l.total) in
                  rw last (
                    (
                      on,
                      record {
                        util = l.util ∙ ap (λ n. u32 (utilisation n applied)) all;
                        num = l.num ∙ ap (λ n. u32 (taken n applied)) all;
                        done = counted ∙ all;
                        total = l.total;
                      },
                    ),
                    p,
                    o,
                  )
              | inr more ↦
                  let next : suc k < rounds_of duration_steps = ground (arith, l.total) in
                  rw (more, s)
                    (
                      (
                        suc k,
                        next,
                        at,
                        on,
                        record { util = l.util; num = l.num; done = counted; total = l.total },
                      ),
                      p,
                      o,
                    )
            ]

    -- A round with the answer of the collector at the devices it asks.
    observe-Tracks :
        (k : ℕ) (e : Engine D)
        → k < rounds_of duration_steps
        → e.current_episode.state ≡ ep_monitor
        → e.devices ≡ after k applied
        → clock e.devices ≡ wanted
        → HasSampled k e.current_episode
        → e.current_episode.proposed_clock ≡ wanted
        → e.current_episode.original_clock ≡ 1000
        → let (code, (snap, d')) = get_snapshot e.devices in Tracks (observe code snap d' e)
    observe-Tracks k e lt s at on l p o =
        let (code, (snap, d')) = get_snapshot e.devices in
        let at' : d' ≡ after (suc k) applied = ap (λ x. (get_snapshot x).1.1) at in
        let on' : clock d' ≡ wanted = h.is_kept e.devices ∙ on in
        elim (Bool-cases (code == 0)) [
          | inl took ↦ elim (Bool-cases (check_guardrails snap)) [
            | inl violated ↦ rw (took, violated) (tt, p, o)
            | inr fine ↦
                let took' : ((get_snapshot (after k applied)).0 == 0) ≡ true =
                  ap (λ x. (get_snapshot x).0 == 0) (sym at) ∙ took in
                let same : snap.gpu_util_pct ≡ (get_snapshot (after k applied)).1.0.gpu_util_pct =
                  ap (λ x. (get_snapshot x).1.0.gpu_util_pct) at in
                rw (took, fine)
                  (count_round-Tracks k
                    (record e { devices = d'; current_episode = accumulate snap e.current_episode })
                    lt s at' on'
                    (record {
                      util = rw took' (omega (arith, l.util, same));
                      num = rw took' (omega (arith, l.num));
                      done = l.done;
                      total = l.total;
                    })
                    p o)
          ]
          | inr failed ↦
              let failed' : ((get_snapshot (after k applied)).0 == 0) ≡ false =
                ap (λ x. (get_snapshot x).0 == 0) (sym at) ∙ failed in
              rw failed (
                count_round-Tracks k (record e { devices = d' }) lt s at' on'
                  (record {
                    util = rw failed' (omega (arith, l.util));
                    num = rw failed' (omega (arith, l.num));
                    done = l.done;
                    total = l.total;
                  })
                  p o)
        ]

    average-mean_of : (k : ℕ) (c : EpisodeCtx) → HasSampled k c → average c ≡ mean_of k applied
    average-mean_of k c l = rw (l.util, l.num) refl

    decide-Tracks :
        (e : Engine D)
        → clock e.devices ≡ wanted
        → HasSampled (rounds_of duration_steps) e.current_episode
        → e.current_episode.proposed_clock ≡ wanted
        → e.current_episode.original_clock ≡ 1000
        → Tracks (decide e)
    decide-Tracks e on l p o = elim (Bool-cases (ltb 50 (average e.current_episode))) [
      | inl better ↦ rw better (
        inl (
          on,
          subst (λ a. 50 < a) (average-mean_of (rounds_of duration_steps) e.current_episode l)
              (ltb→lt 50 (average e.current_episode) better),
        ),
        p,
        o,
      )
      | inr worse ↦ rw worse (tt, p, o)
    ]

    apply-Tracks :
        (e : Engine D)
        → IsWaiting e
        → e.current_episode.proposed_clock ≡ wanted
        → e.current_episode.original_clock ≡ 1000
        → Tracks (
            go_to ep_monitor
              (record e { devices = set_clock_limit e.current_episode.proposed_clock e.devices }))
    apply-Tracks e w p o =
        let at : set_clock_limit e.current_episode.proposed_clock e.devices ≡ applied =
          ap (λ c. set_clock_limit c e.devices) p ∙ ap (set_clock_limit wanted) w.0 in
        (
          (
            0,
            ground arith,
            at,
            h.is_set e.current_episode.proposed_clock e.devices ∙ p,
            record { util = w.1.util; num = w.1.num; done = w.1.done; total = w.1.total },
          ),
          p,
          o,
        )

    tick_in-Tracks :
        (state : EpisodeState) (e : Engine D)
        → e.current_episode.state ≡ state
        → ClockIn state e
        → e.current_episode.proposed_clock ≡ wanted
        → e.current_episode.original_clock ≡ 1000
        → Tracks (tick_in state dev e)
    unfolding tick_in dev
    tick_in-Tracks ep_idle e s at p o = (subst (λ st. ClockIn st e) (sym s) at, p, o)
    tick_in-Tracks ep_propose e s w p o =
        ((w.0, record { util = w.1.util; num = w.1.num; done = w.1.done; total = w.1.total }), p, o)
    tick_in-Tracks ep_validate e s w p o =
        ((w.0, record { util = w.1.util; num = w.1.num; done = w.1.done; total = w.1.total }), p, o)
    tick_in-Tracks ep_apply e s w p o = apply-Tracks e w p o
    tick_in-Tracks ep_monitor e s (k, lt, at, on, l) p o = observe-Tracks k e lt s at on l p o
    tick_in-Tracks ep_decide e s at p o = decide-Tracks e at.0 at.1 p o
    tick_in-Tracks ep_rollback e s at p o =
        (inr (h.is_set e.current_episode.original_clock e.devices ∙ o), p, o)
    tick_in-Tracks ep_safe e s at p o = (subst (λ st. ClockIn st e) (sym s) at, p, o)

    tick-Tracks : (e : Engine D) → Tracks e → Tracks (tick dev e)
    tick-Tracks e t = elim (Bool-cases e.episode_active) [
      | inl on ↦
          subst Tracks (sym (tick_on dev e on))
            (tick_in-Tracks e.current_episode.state e refl t.0 t.1 t.2)
      | inr off ↦ subst Tracks (sym (tick_off dev e off)) t
    ]

    ticks-Tracks : (n : ℕ) (e : Engine D) → Tracks e → Tracks (ticks dev n e)
    unfolding ticks
    ticks-Tracks zero e t = t
    ticks-Tracks (suc n) e t = ticks-Tracks n (tick dev e) (tick-Tracks e t)

  propose-Tracks :
      (wanted duration_steps : ℕ) (e : Engine D) (small : duration_steps < 2 ^ 32)
      → e.episode_active ≡ false
      → Tracks wanted duration_steps e.devices small (propose wanted duration_steps e).0
  unfolding propose
  propose-Tracks wanted duration_steps e small off =
      rw off ((refl, record { util = refl; num = refl; done = refl; total = refl }), refl, refl)

  -- Of devices whose collector leaves the clock and whose actuator sets it: when an episode that was
  -- proposed for a duration in 32 bits, while none was active, has been given at least six ticks more than its
  -- duration, either the clock is the proposed one, and the snapshots that the collector took in as
  -- many rounds as the duration, at least one, from the devices with that clock set, had an average
  -- utilisation above 50 percent, or the clock is rolled back to 1000.
  pub ticks-clock :
      (wanted duration_steps n : ℕ) (e : Engine D)
      → e.episode_active ≡ false
      → duration_steps < 2 ^ 32
      → duration_steps + 6 ≤ n
      → let e' =
          ticks
            (record { collector = some get_snapshot; actuator = some set_clock_limit })
            n
            (propose wanted duration_steps e).0 in
        ((clock e'.devices ≡ wanted)
          × (50 < mean_of (rounds_of duration_steps) (set_clock_limit wanted e.devices)))
        ⊎ (clock e'.devices ≡ 1000)
  unfolding dev
  ticks-clock wanted duration_steps n e off small le =
      subst (λ st. ClockIn wanted duration_steps e.devices small st (ticks dev n e0)) ended
        (ticks-Tracks wanted duration_steps e.devices small n e0
          (propose-Tracks wanted duration_steps e small off)).0
    where
      e0 : Engine D
      e0 = (propose wanted duration_steps e).0

      ended : (ticks dev n e0).current_episode.state ≡ ep_idle
      ended = (ticks-propose dev wanted duration_steps n e off small le).0.1
