-- ===== src/JobGraph/Lookup.antt =====
-- Looking a step up after a write, and what `job_graph_mark_completed` tests of a dependency.
use mathlib.Core.Option
use mathlib.Core.Path.{subst}
use zenedge.Common.{
  ℕ, ◌≡◌, refl, ◌↔◌, Bool, true, false, none, some, List, [], ◌∷◌, ◌++◌, arith, inl, inr, ◌==◌,
  ◌&&◌, if◌then◌else◌, Bool-cases, All,
}
use zenedge.JobGraph.{JobStep, find_step, update_step, deps_done, wake, rescan, complete_step}

-- The step of id `d` exists and is completed.
abbrev pub done : List JobStep → ℕ → Bool
done all d = elim (find_step d all) [ none ↦ false | some s ↦ s.completed ]

pub find_step-id : (d : ℕ) (ss : List JobStep) (s : JobStep) → find_step d ss ≡ some s → s.id ≡ d
unfolding find_step
find_step-id d [] s h = absurd (ground arith)
find_step-id d (x ∷ xs) s h = ground (arith, find_step-id d xs s)

pub find_step-All {ℓ} :
    (P : JobStep → Type ℓ) (d : ℕ) (ss : List JobStep) (s : JobStep)
    → All P ss
    → find_step d ss ≡ some s
    → P s
unfolding find_step
find_step-All P d [] s h e = absurd (ground arith)
find_step-All P d (x ∷ xs) s h e = elim (Bool-cases (x.id == d)) [
  | inl t ↦ subst P (ground arith) h.0
  | inr f ↦ find_step-All P d xs s h.1 (rw f at e)
]

-- What the code writes through a step pointer leaves the id alone.
find_step-update_step :
    (i j : ℕ) (f : JobStep → JobStep) (ss : List JobStep)
    → ((s : JobStep) → (f s).id ≡ s.id)
    → find_step j (update_step i f ss)
      ≡ (if i == j then Option.map f (find_step j ss) else find_step j ss)
unfolding find_step update_step
find_step-update_step i j f [] h = ground arith
find_step-update_step i j f (s ∷ ss) h = ground (arith, h s, find_step-update_step i j f ss h)

-- The inner loop tests every dependency in turn.
pub deps_done-cons :
    (all : List JobStep) (d : ℕ) (ds : List ℕ)
    → deps_done all (d ∷ ds) ≡ (done all d && deps_done all ds)
unfolding deps_done
deps_done-cons all d ds = ground arith

pub deps_done_iff :
    (all : List JobStep) (ds : List ℕ) → (deps_done all ds ≡ true) ↔ All (λ d. done all d ≡ true) ds
deps_done_iff all [] = (λ h. tt, unfold deps_done in λ h. refl)
deps_done_iff all (d ∷ ds) = (
  λ h. (
    ground (arith, deps_done-cons all d ds),
    (deps_done_iff all ds).0 (ground (arith, deps_done-cons all d ds)),
  ),
  λ h. ground (arith, deps_done-cons all d ds, (deps_done_iff all ds).1 h.1),
)

-- More completed steps, more dependencies done.
abbrev DoneLe : List JobStep → List JobStep → Type 0
DoneLe all all' = (d : ℕ) → done all d ≡ true → done all' d ≡ true

pub deps_done_mono :
    (all all' : List JobStep) (ds : List ℕ)
    → DoneLe all all'
    → deps_done all ds ≡ true
    → deps_done all' ds ≡ true
deps_done_mono all all' [] le h = unfold deps_done in refl
deps_done_mono all all' (d ∷ ds) le h =
    ground (
      arith,
      deps_done-cons all d ds,
      deps_done-cons all' d ds,
      le d,
      deps_done_mono all all' ds le,
    )

pub done-rescan : (all ss : List JobStep) (d : ℕ) → done (rescan all ss) d ≡ done ss d
unfolding find_step rescan wake
done-rescan all [] d = refl
done-rescan all (s ∷ ss) d = ground (arith, done-rescan all ss d)

pub done-complete_step :
    (i d : ℕ) (ss : List JobStep)
    → done ss d ≡ true
    → done (update_step i complete_step ss) d ≡ true
done-complete_step i d ss h = ground (arith, find_step-update_step i d complete_step ss (λ s. refl))

-- A write that leaves `completed` alone.
pub done-update_step :
    (i d : ℕ) (f : JobStep → JobStep) (ss : List JobStep)
    → ((s : JobStep) → (f s).id ≡ s.id)
    → ((s : JobStep) → (f s).completed ≡ s.completed)
    → done (update_step i f ss) d ≡ done ss d
unfolding find_step update_step
done-update_step i d f [] h k = refl
done-update_step i d f (s ∷ ss) h k = ground (arith, h s, k s, done-update_step i d f ss h k)

pub find_step-append :
    (d : ℕ) (ss : List JobStep) (n : JobStep)
    → find_step d (ss ++ (n ∷ []))
      ≡ elim (find_step d ss) [ none ↦ if n.id == d then some n else none | some s ↦ some s ]
unfolding find_step
find_step-append d [] n = ground arith
find_step-append d (s ∷ ss) n = ground (arith, find_step-append d ss n)

pub deps_done-congr :
    (all all' : List JobStep) (ds : List ℕ)
    → ((d : ℕ) → done all d ≡ done all' d)
    → deps_done all ds ≡ deps_done all' ds
deps_done-congr all all' [] e = unfold deps_done in refl
deps_done-congr all all' (d ∷ ds) e =
    ground
      (arith, deps_done-cons all d ds, deps_done-cons all' d ds, e d, deps_done-congr all all' ds e)

pub update_step-All {ℓ} :
    (P : JobStep → Type ℓ) (i : ℕ) (f : JobStep → JobStep) (ss : List JobStep)
    → ((s : JobStep) → P s → P (f s))
    → All P ss
    → All P (update_step i f ss)
unfolding update_step
update_step-All P i f [] keep h = h
update_step-All P i f (s ∷ ss) keep h = elim (Bool-cases (s.id == i)) [
  | inl e ↦ rw e (keep s h.0, h.1)
  | inr e ↦ rw e (h.0, update_step-All P i f ss keep h.1)
]
