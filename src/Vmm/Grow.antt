-- ===== src/Vmm/Grow.antt =====
-- A new page table in the directory of vmm.c.
use mathlib.Core.Path.{subst}
use zenedge.Common.{
  ℕ, ◌+◌, ◌*◌, ◌/◌, ◌%◌, ◌^◌, ◌<◌, ◌≡◌, ◌≢◌, refl, sym, ◌∙◌, ap, true, false, arith, inl, inr, ◌==◌,
  if◌then◌else◌, ==_refl, Bool-cases, Memory,
}
use zenedge.Pmm.{page_size, numa_node_local, alloc_page, is_used}
use zenedge.Pmm.Alloc.{Granted}
use zenedge.Vmm.{
  Vmm, active_pd, pde_index, pte_index, pte_addr, make_pte, has_bit, is_present, entry_at, entry_of,
  install, zero_entries, page_entries,
}
use zenedge.Vmm.Entry.{
  or_low, make_pte-lt, pte_addr-make_pte, is_present-make_pte, entry_at-set_entry,
  entry_at-set_entry_ne, entry_at-zero_entries, zero_entries-zero,
}
use zenedge.Vmm.Tree.{pde_at, table_at, is_table, IsSmall, IsTree, used-ne}

-- The entry that an entry of the directory leads to.
abbrev look : Memory → ℕ → ℕ → ℕ
look m e j = if is_present e then entry_at m (pte_addr e) j else 0

module _ (pde pfn : ℕ) (v : Vmm) (h : IsTree v) (index : pde < 1024)
    (missing : is_present (pde_at v pde) ≡ false)
    (g : Granted v.pmm pfn (alloc_page numa_node_local v.pmm).1) where
  unfoldable pub page : ℕ
  page = pfn * page_size

  unfoldable pub grown : Vmm
  grown = install pde page (record v { pmm = (alloc_page numa_node_local v.pmm).1 })

  free : is_used v.pmm (page / 4096) ≡ false
  unfolding page
  free = let q : pfn * page_size / 4096 ≡ pfn = omega arith in rw q g.was_free

  kept : (a : ℕ) → is_used v.pmm a ≡ true → is_used (alloc_page numa_node_local v.pmm).1 a ≡ true
  kept a u = g.others a ∙ ground arith

  away : (a : ℕ) → is_used v.pmm (a / 4096) ≡ true → page ≢ a
  away a u e = used-ne v.pmm a page u free (sym e)

  pub pde-other : (i : ℕ) → i < 1024 → i ≢ pde → pde_at grown i ≡ pde_at v i
  unfolding grown page
  pde-other i lt ne =
      entry_at-set_entry_ne (zero_entries page_entries 0 page v.memory) (active_pd v) (active_pd v)
        pde i (make_pte page 7) (omega arith) (omega arith) index lt (inr (λ e. ne (sym e)))
      ∙ entry_at-zero_entries page_entries 0 page (active_pd v) i v.memory (omega arith)
          (omega arith) (omega arith) lt (away (active_pd v) h.root)

  pde-here : (pde_at grown pde ≡ make_pte page 7) × (table_at grown pde ≡ page)
  unfolding grown page
  pde-here =
      let small : page < 2 ^ 32 = omega (arith, g.below, h.pmm.fits) in
      let e =
        entry_at-set_entry (zero_entries page_entries 0 page v.memory) (active_pd v) pde
          (make_pte page 7) (make_pte-lt page 7 small (omega arith)) in
      (e, ap pte_addr e ∙ pte_addr-make_pte page 7 small (omega arith) ∙ omega arith)

  -- What holds of the table of each entry that is present.
  at_each :
      (P : ℕ → ℕ → Type 0)
      → P pde page
      → ((i : ℕ) → i < 1024 → i ≢ pde → is_table (pde_at v i) ≡ true → P i (table_at v i))
      → (i : ℕ) → i < 1024
      → is_table (pde_at grown i) ≡ true
      → P i (table_at grown i)
  at_each P new old i lt p = elim (Bool-cases (i == pde)) [
    | inl e ↦
        let q : i ≡ pde = ground arith in
        subst (λ j. P j (table_at grown j)) (sym q) (subst (P pde) (sym pde-here.1) new)
    | inr e ↦
        let ne : i ≢ pde = ground arith in
        let same = pde-other i lt ne in
        subst (λ x. P i (pte_addr x)) (sym same) (old i lt ne (ap is_table (sym same) ∙ p))
  ]

  page_used : is_used (alloc_page numa_node_local v.pmm).1 (page / 4096) ≡ true
  unfolding page
  page_used =
      let q : pfn * page_size / 4096 ≡ pfn = omega arith in
      ap (is_used (alloc_page numa_node_local v.pmm).1) q ∙ g.others pfn ∙ rw (==_refl pfn) refl

  pub IsTree-grown : IsTree grown
  unfolding grown
  IsTree-grown = record {
    pmm = g.consistent;
    root = kept (active_pd v / 4096) h.root;
    used =
        at_each (λ i t. is_used (alloc_page numa_node_local v.pmm).1 (t / 4096) ≡ true) page_used
          (λ i lt ne p. kept (table_at v i / 4096) (h.used i lt p));
    own = at_each (λ i t. t ≢ active_pd v) (away (active_pd v) h.root) (λ i lt ne p. h.own i lt p);
    apart = λ i j lt lt' p p' ne.
        at_each (λ k t. k ≢ j → t ≢ table_at grown j)
          (λ n.
            at_each (λ k t. pde ≢ k → page ≢ t) (λ q. absurd (q refl))
              (λ k lk nk pk _. away (table_at v k) (h.used k lk pk)) j lt' p' n)
          (λ k lk nk pk n.
            at_each (λ l t. k ≢ l → table_at v k ≢ t)
              (λ _ e. away (table_at v k) (h.used k lk pk) (sym e))
              (λ l ll nl pl q. h.apart k l lk ll pk pl q) j lt' p' n)
          i lt p ne;
  }

  -- An entry of a table other than the directory and the new page.
  entry-other :
      (s j : ℕ)
      → s % 4096 ≡ 0
      → j < 1024
      → s ≢ active_pd v
      → page ≢ s
      → entry_at grown.memory s j ≡ entry_at v.memory s j
  unfolding grown page
  entry-other s j hs lt own new =
      entry_at-set_entry_ne (zero_entries page_entries 0 page v.memory) (active_pd v) s pde j
        (make_pte page 7) (omega arith) hs index lt (inl (λ e. own (sym e)))
      ∙ entry_at-zero_entries page_entries 0 page s j v.memory (omega arith) hs (omega arith) lt new

  entry-new : (j : ℕ) → j < 1024 → entry_at grown.memory page j ≡ 0
  unfolding grown page
  entry-new j lt =
      entry_at-set_entry_ne (zero_entries page_entries 0 page v.memory) (active_pd v) page pde j
        (make_pte page 7) (omega arith) (omega arith) index lt
        (inl (λ e. away (active_pd v) h.root (sym e)))
      ∙ zero_entries-zero page_entries 0 page j v.memory (omega arith) (omega arith) (omega arith)
          (omega arith)

  pub present-here : is_present (pde_at grown pde) ≡ true
  unfolding page
  present-here =
      let small : page < 2 ^ 32 = omega (arith, g.below, h.pmm.fits) in
      ap is_present pde-here.0 ∙ is_present-make_pte page 7 small (omega arith) refl

  small-here : has_bit (pde_at grown pde) 7 ≡ false
  unfolding page
  small-here =
      let q : make_pte page 7 ≡ pfn * page_size + 7 = or_low page 7 (omega arith) ∙ omega arith in
      let zero : (pfn * page_size + 7) / 2 ^ 7 % 2 ≡ 0 = omega arith in
      ap (λ x. has_bit x 7) (pde-here.0 ∙ q) ∙ rw zero refl

  pub table-here : is_table (pde_at grown pde) ≡ true
  table-here = rw (present-here, small-here) refl

  pub IsSmall-grown : (x : ℕ) → IsSmall v x → IsSmall grown x
  IsSmall-grown x small = elim (Bool-cases (pde_index x == pde)) [
    | inl e ↦
        let q : pde_index x ≡ pde = ground arith in
        ap (λ i. has_bit (pde_at grown i) 7) q ∙ small-here
    | inr e ↦ ap (λ y. has_bit y 7) (pde-other (pde_index x) (omega arith) (ground arith)) ∙ small
  ]

  pub entry_of-grown : (x : ℕ) → IsSmall v x → entry_of x grown ≡ entry_of x v
  unfolding grown
  entry_of-grown x small = elim (Bool-cases (pde_index x == pde)) [
    | inl e ↦
        let q : pde_index x ≡ pde = ground arith in
        let j = pte_index x in
        ap (λ i. look grown.memory (pde_at grown i) j) q
        ∙ ap (λ b. if b then entry_at grown.memory (table_at grown pde) j else 0) present-here
        ∙ ap (λ t. entry_at grown.memory t j) pde-here.1
        ∙ entry-new j (omega arith)
        ∙ sym (
            ap (λ i. look v.memory (pde_at v i) j) q
            ∙ ap (λ b. if b then entry_at v.memory (table_at v pde) j else 0) missing)
    | inr e ↦
        let j = pte_index x in
        let i = pde_index x in
        ap (λ y. look grown.memory y j) (pde-other i (omega arith) (ground arith))
        ∙ elim (Bool-cases (is_present (pde_at v i))) [
          | inr m ↦ rw m refl
          | inl p ↦
              let both : is_table (pde_at v i) ≡ true = rw (p, small) refl in
              rw p (
                entry-other (table_at v i) j (omega arith) (omega arith)
                  (h.own i (omega arith) both) (away (table_at v i) (h.used i (omega arith) both)))
        ]
  ]
