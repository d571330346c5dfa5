-- ===== src/Pmm/Alloc/Page.antt =====
-- `pmm_alloc_page` at every node that it may be asked for.
use mathlib.Core.Path.{subst}
use zenedge.Common.{ℕ, ◌*◌, ◌<◌, ◌≤◌, ◌≡◌, refl, sym, false, arith, if◌then◌else◌, ◌==◌, leb}
use zenedge.FlightRec.{EventType, mem_alloc_fail, locality_miss}
use zenedge.Pmm.State.{Pmm, NumaNode, page_size, numa_node_any, note}
use zenedge.Pmm.Ops.{alloc_from_node, alloc_any, alloc_preferred, try_others, alloc_page}
use zenedge.Pmm.Nodes.{IsConsistent}
use zenedge.Pmm.Alloc.{Granted, IsExhausted, FromNode, denied, granted, alloc0, alloc1}

-- Logging touches the recorder alone.
pub note-IsConsistent :
    (type : EventType) (job_id step_id extra : ℕ) (p : Pmm)
    → IsConsistent p
    → IsConsistent (note type job_id step_id extra p)
note-IsConsistent type job_id step_id extra p h = record {
  bitmap = h.bitmap;
  two = h.two;
  low = h.low;
  joined = h.joined;
  top = h.top;
  fits = h.fits;
  counted0 = record {
    ordered = h.counted0.ordered;
    free = h.counted0.free;
    shared = h.counted0.shared;
  };
  counted1 = record {
    ordered = h.counted1.ordered;
    free = h.counted1.free;
    shared = h.counted1.shared;
  };
  total = h.total;
}

pub note-Granted :
    (type : EventType) (job_id step_id extra : ℕ) (p : Pmm) (pfn : ℕ) (q : Pmm)
    → Granted p pfn q
    → Granted p pfn (note type job_id step_id extra q)
note-Granted type job_id step_id extra p pfn q g = record {
  above = g.above;
  below = g.below;
  was_free = g.was_free;
  others = g.others;
  one_less = g.one_less;
  same_top = g.same_top;
  consistent = note-IsConsistent type job_id step_id extra q g.consistent;
}

-- What `pmm_alloc_page` comes to, where `first` is the node that it tries first.
pub data Outcome (p : Pmm) (first second : NumaNode) (r : ℕ × Pmm) : Type 0 where
  local :
      (pfn : ℕ)
      → r.0 ≡ pfn * page_size
      → first.start_pfn ≤ pfn
      → pfn < first.end_pfn
      → Granted p pfn r.1
      → Outcome p first second r
  remote :
      (pfn : ℕ)
      → r.0 ≡ pfn * page_size
      → IsExhausted p first
      → second.start_pfn ≤ pfn
      → pfn < second.end_pfn
      → Granted p pfn r.1
      → Outcome p first second r
  out_of_memory :
      r.0 ≡ 0
      → IsExhausted p first
      → IsExhausted p second
      → r.1 ≡ record p { recorder = r.1.recorder }
      → Outcome p first second r

nonzero : (a pfn : ℕ) → a ≡ pfn * page_size → 256 ≤ pfn → (a == 0) ≡ false
nonzero a pfn e le = ground arith

-- What is left of `pmm_alloc_page` when the first node had nothing.
abbrev retry : ℕ → ℕ → Pmm → ℕ × Pmm
retry first second p =
    let (a, p1) = alloc_from_node second p in
    if a == 0
    then (0, note mem_alloc_fail 0 first 1 p1)
    else (a, note locality_miss 0 first second p1)

try_others0 : (p : Pmm) (count : ℕ) → count ≡ 2 → try_others 0 count 0 p ≡ retry 0 1 p
unfolding try_others
try_others0 p count e = rw e refl

try_others1 : (p : Pmm) (count : ℕ) → count ≡ 2 → try_others 1 count 0 p ≡ retry 1 0 p
unfolding try_others
try_others1 p count e = rw e refl

module _ (p : Pmm) (two : p.numa_node_count ≡ 2) where
  denied0 : alloc_from_node 0 p ≡ (0, p) → alloc_preferred 0 p ≡ retry 0 1 p
  unfolding alloc_preferred
  denied0 e = rw (e, alloc_preferred) (try_others0 p p.numa_node_count two)

  denied1 : alloc_from_node 1 p ≡ (0, p) → alloc_preferred 1 p ≡ retry 1 0 p
  unfolding alloc_preferred
  denied1 e = rw (e, alloc_preferred) (try_others1 p p.numa_node_count two)

granted_first :
    (p : Pmm) (node : ℕ)
    → ((alloc_from_node node p).0 == 0) ≡ false
    → alloc_preferred node p ≡ alloc_from_node node p
unfolding alloc_preferred
granted_first p node e = rw e refl

-- The second node is tried when the first had nothing.
second_try :
    (p : Pmm) (first second : NumaNode) (r : ℕ × Pmm) (found missed : Pmm → Pmm)
    → ((q : Pmm) → missed q ≡ record q { recorder = (missed q).recorder })
    → ((pfn : ℕ) (q : Pmm) → Granted p pfn q → Granted p pfn (found q))
    → IsExhausted p first
    → FromNode p second r
    → Outcome p first second (if r.0 == 0 then (0, missed r.1) else (r.0, found r.1))
second_try p first second r found missed keep noted ex (denied e ex') =
    rw e (out_of_memory refl ex ex' (keep p))
second_try p first second r found missed keep noted ex (granted pfn e le lt g) =
    rw (nonzero r.0 pfn e g.above) (remote pfn e ex le lt (noted pfn r.1 g))

module _ (p : Pmm) (h : IsConsistent p) where
  preferred0 : Outcome p p.node0 p.node1 (alloc_preferred 0 p)
  preferred0 = go (alloc0 p h)
    where
      Goal : ℕ × Pmm → Type 0
      Goal r = Outcome p p.node0 p.node1 r

      go : FromNode p p.node0 (alloc_from_node 0 p) → Goal (alloc_preferred 0 p)
      go (denied e ex) = subst Goal (sym (denied0 p h.two e)) (
          second_try p p.node0 p.node1 (alloc_from_node 1 p) (note locality_miss 0 0 1)
            (note mem_alloc_fail 0 0 1) (λ q. refl) (λ k q. note-Granted locality_miss 0 0 1 p k q)
            ex (alloc1 p h))
      go (granted pfn e le lt g) =
          subst Goal (sym (granted_first p 0 (nonzero (alloc_from_node 0 p).0 pfn e g.above)))
            (local pfn e le lt g)

  preferred1 : Outcome p p.node1 p.node0 (alloc_preferred 1 p)
  preferred1 = go (alloc1 p h)
    where
      Goal : ℕ × Pmm → Type 0
      Goal r = Outcome p p.node1 p.node0 r

      go : FromNode p p.node1 (alloc_from_node 1 p) → Goal (alloc_preferred 1 p)
      go (denied e ex) = subst Goal (sym (denied1 p h.two e)) (
          second_try p p.node1 p.node0 (alloc_from_node 0 p) (note locality_miss 0 1 0)
            (note mem_alloc_fail 0 1 1) (λ q. refl) (λ k q. note-Granted locality_miss 0 1 0 p k q)
            ex (alloc0 p h))
      go (granted pfn e le lt g) =
          subst Goal (sym (granted_first p 1 (nonzero (alloc_from_node 1 p).0 pfn e g.above)))
            (local pfn e le lt g)

  any_node : Outcome p p.node0 p.node1 (alloc_any p)
  any_node = go (alloc0 p h)
    where
      Goal : ℕ × Pmm → Type 0
      Goal r = Outcome p p.node0 p.node1 r

      after :
          FromNode p p.node1 (alloc_from_node 1 p)
          → IsExhausted p p.node0
          → alloc_from_node 0 p ≡ (0, p)
          → Goal (alloc_any p)
      after (denied e ex') ex e0 = unfold alloc_any in rw (e0, e) (out_of_memory refl ex ex' refl)
      after (granted pfn e le lt g) ex e0 =
          unfold alloc_any in
          rw (e0, nonzero (alloc_from_node 1 p).0 pfn e g.above)
            (remote pfn e ex le lt
              (note-Granted locality_miss 0 0 1 p pfn (alloc_from_node 1 p).1 g))

      go : FromNode p p.node0 (alloc_from_node 0 p) → Goal (alloc_any p)
      go (denied e ex) = after (alloc1 p h) ex e
      go (granted pfn e le lt g) =
          unfold alloc_any in
          rw (nonzero (alloc_from_node 0 p).0 pfn e g.above) (local pfn e le lt g)

  -- `pmm_alloc_page` at node 0, node 1 and any node: a page of the node that is tried first, if that
  -- has one, else a page of the other; the page was free, is in use afterwards, and nothing else of
  -- the bitmap changes; the accounts hold. Address 0 is returned only if neither node has a free
  -- page, and then nothing but the flight recorder changes.
  pub alloc_page-Outcome :
      Outcome p p.node0 p.node1 (alloc_page 0 p)
      × Outcome p p.node1 p.node0 (alloc_page 1 p)
      × Outcome p p.node0 p.node1 (alloc_page numa_node_any p)
  unfolding alloc_page
  alloc_page-Outcome =
      (rw (known 0 (omega arith)) preferred0, rw (known 1 (omega arith)) preferred1, any_node)
    where
      known : (node : ℕ) → node < 2 → leb p.numa_node_count node ≡ false
      known node lt = ground (arith, h.two)
