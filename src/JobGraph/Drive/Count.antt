-- ===== src/JobGraph/Drive/Count.antt =====
-- Each round of the scheduler completes one step more, and the graph keeps its shape.
use mathlib.Core.Path.{subst}
use zenedge.Common.{
  ℕ, suc, ◌^◌, ◌≡◌, refl, ◌≢◌, Bool, true, false, not, ◌&&◌, some, List, [], ◌∷◌, arith, inl, inr,
  leb, ◌==◌, if◌then◌else◌, Bool-cases, All,
}
use zenedge.JobGraph.{JobStep, find_step, update_step, complete_step, wake, rescan, first_ready}
use zenedge.JobGraph.Ready.{marked}

abbrev pub ids : List JobStep → List ℕ
ids [] = []
ids (s ∷ ss) = s.id ∷ ids ss

-- No two entries are equal.
abbrev pub Distinct : List ℕ → Type 0
Distinct [] = Unit
Distinct (i ∷ is) = All (λ j. j ≢ i) is × Distinct is

abbrev pub has : ℕ → List ℕ → Bool
has d [] = false
has d (i ∷ is) = if i == d then true else has d is

-- How many steps are not completed.
abbrev pub pending : List JobStep → ℕ
pending [] = 0
pending (s ∷ ss) = if s.completed then pending ss else suc (pending ss)

ids-rescan : (all ss : List JobStep) → ids (rescan all ss) ≡ ids ss
unfolding rescan wake
ids-rescan all [] = refl
ids-rescan all (s ∷ ss) = ground (arith, ids-rescan all ss)

ids-complete_step : (i : ℕ) (ss : List JobStep) → ids (update_step i complete_step ss) ≡ ids ss
unfolding update_step
ids-complete_step i [] = refl
ids-complete_step i (s ∷ ss) = ground (arith, ids-complete_step i ss)

pub ids-marked : (i : ℕ) (ss : List JobStep) → ids (marked i ss) ≡ ids ss
ids-marked i ss =
    let all = update_step i complete_step ss in
    ground (arith, ids-rescan all all, ids-complete_step i ss)

pub find_step-has :
    (d : ℕ) (ss : List JobStep) → has d (ids ss) ≡ true → (s : JobStep) × (find_step d ss ≡ some s)
unfolding find_step
find_step-has d [] h = cc
find_step-has d (s ∷ ss) h = elim (Bool-cases (s.id == d)) [
  | inl e ↦ (s, rw e)
  | inr e ↦ let (t, f) = find_step-has d ss (rw e at h) in (t, rw e f)
]

find_step-ne :
    (d : ℕ) (ss : List JobStep) (s : JobStep) → All (λ j. j ≢ d) (ids ss) → find_step d ss ≢ some s
unfolding find_step
find_step-ne d [] s h e = absurd (ground arith)
find_step-ne d (x ∷ ss) s h e = ground (arith, h.0, find_step-ne d ss s h.1)

find_step-skip :
    (d : ℕ) (s : JobStep) (ss : List JobStep) (t : JobStep)
    → All (λ j. j ≢ s.id) (ids ss)
    → find_step d ss ≡ some t
    → find_step d (s ∷ ss) ≡ some t
find_step-skip d s ss t h f = elim (Bool-cases (s.id == d)) [
  | inl e ↦ absurd (find_step-ne d ss t (subst (λ k. All (λ j. j ≢ k) (ids ss)) (ground arith) h) f)
  | inr e ↦ unfold find_step in rw e f
]

first_ready-skip :
    (s : JobStep) (ss : List JobStep)
    → (s.ready && not s.completed) ≡ false
    → first_ready (s ∷ ss) ≡ first_ready ss
unfolding first_ready
first_ready-skip s ss e = rw e

-- The step that `job_graph_next_ready` names is found, ready and not completed.
pub find_step-first_ready :
    (ss : List JobStep)
    → Distinct (ids ss)
    → leb (2 ^ 31) (first_ready ss) ≡ false
    → (s : JobStep) × (find_step (first_ready ss) ss ≡ some s)
      × (s.ready ≡ true)
      × (s.completed ≡ false)
find_step-first_ready [] d h = unfold first_ready in cc
find_step-first_ready (s ∷ ss) d h = elim (Bool-cases (s.ready && not s.completed)) [
  | inl e ↦ (s, unfold find_step first_ready in ground arith, ground arith, ground arith)
  | inr e ↦
      let (t, f, r, c) = find_step-first_ready ss d.1 (rw (first_ready-skip s ss e) at h) in
      (t, rw (first_ready-skip s ss e) (find_step-skip (first_ready ss) s ss t d.0 f), r, c)
]

pending-rescan : (all ss : List JobStep) → pending (rescan all ss) ≡ pending ss
unfolding rescan wake
pending-rescan all [] = refl
pending-rescan all (s ∷ ss) = ground (arith, pending-rescan all ss)

pending-complete_step :
    (i : ℕ) (ss : List JobStep) (s : JobStep)
    → find_step i ss ≡ some s
    → s.completed ≡ false
    → suc (pending (update_step i complete_step ss)) ≡ pending ss
unfolding update_step find_step
pending-complete_step i [] s e c = absurd (ground arith)
pending-complete_step i (x ∷ ss) s e c = ground (arith, pending-complete_step i ss s)

-- Marking a step completed that was not leaves one step less to do.
pub pending-marked :
    (i : ℕ) (ss : List JobStep) (s : JobStep)
    → find_step i ss ≡ some s
    → s.completed ≡ false
    → suc (pending (marked i ss)) ≡ pending ss
pending-marked i ss s e c =
    let all = update_step i complete_step ss in
    ground (arith, pending-rescan all all, pending-complete_step i ss s e c)
