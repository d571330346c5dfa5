-- ===== src/Vmm/Kernel.antt =====
-- The kernel's directory after vmm_init: large pages, and no table.
use zenedge.Common.{
  ℕ, zero, suc, ◌+◌, ◌*◌, ◌/◌, ◌%◌, ◌^◌, ◌<◌, ◌≤◌, ◌≡◌, refl, ◌∙◌, ap, true, false, arith, inl, inr,
  ◌==◌, Bool-cases, clash, Memory,
}
use zenedge.Pmm.{is_used}
use zenedge.Pmm.Nodes.{IsConsistent}
use zenedge.Pmm.Alloc.Page.{note-IsConsistent}
use zenedge.FlightRec.{boot}
use zenedge.Vmm.{
  Vmm, active_pd, make_pte, has_bit, is_present, entry_at, set_entry, map_large, init,
  kernel_vbase_pde,
}
use zenedge.Vmm.Entry.{or_low, make_pte-lt, entry_at-set_entry, entry_at-set_entry_ne}
use zenedge.Vmm.Tree.{pde_at, is_table, IsTree}

-- The entry for a large page leads to no table.
large-is_table :
    (n flags : ℕ)
    → flags < 4096
    → flags / 2 ^ 7 % 2 ≡ 1
    → is_table (make_pte (n * 0x400000) flags) ≡ false
large-is_table n flags low large =
    let q : make_pte (n * 0x400000) flags ≡ n * 0x400000 + flags =
      or_low (n * 0x400000) flags low ∙ omega arith in
    let one : (n * 0x400000 + flags) / 2 ^ 7 % 2 ≡ 1 = omega arith in
    let bit : has_bit (make_pte (n * 0x400000) flags) 7 ≡ true =
      ap (λ x. has_bit x 7) q ∙ rw one refl in
    elim (Bool-cases (is_present (make_pte (n * 0x400000) flags))) [
      | inl p ↦ rw (p, bit) refl
      | inr p ↦ rw p refl
    ]

module _ (pd : ℕ) (page : pd % 4096 ≡ 0) where
  -- The directory leads to no table.
  abbrev pub HasNoTable : Memory → Type 0
  HasNoTable m = (j : ℕ) → j < 1024 → is_table (entry_at m pd j) ≡ false

  pub set_large :
      (i n flags : ℕ) (m : Memory)
      → i < 1024
      → n < 1024
      → flags < 4096
      → flags / 2 ^ 7 % 2 ≡ 1
      → HasNoTable m
      → HasNoTable (set_entry pd i (make_pte (n * 0x400000) flags) m)
  set_large i n flags m hi hn low large h j lt = elim (Bool-cases (i == j)) [
    | inl e ↦
        let q : j ≡ i = ground arith in
        let pte = make_pte (n * 0x400000) flags in
        ap (λ x. is_table (entry_at (set_entry pd i pte m) pd x)) q
        ∙ ap is_table
            (entry_at-set_entry m pd i pte (make_pte-lt (n * 0x400000) flags (omega arith) low))
        ∙ large-is_table n flags low large
    | inr e ↦
        ap is_table (
          entry_at-set_entry_ne m pd pd i j (make_pte (n * 0x400000) flags) page page hi lt
            (inr (ground arith)))
        ∙ h j lt
  ]

  map_large-HasNoTable :
      (n i : ℕ) (m : Memory) → i + n ≤ 256 → HasNoTable m → HasNoTable (map_large n i pd m)
  unfolding map_large
  map_large-HasNoTable zero i m le h = h
  map_large-HasNoTable (suc n) i m le h =
      map_large-HasNoTable n (i + 1)
        (set_entry pd (kernel_vbase_pde + i) (make_pte (i * 0x400000) 0x183) m) (omega arith)
        (set_large (kernel_vbase_pde + i) i 0x183 m (omega arith) (omega arith) (omega arith)
          (omega arith) h)

-- From a directory in use that leads to no table, vmm_init leaves one with the kernel's large pages.
pub init-IsTree :
    (v : Vmm)
    → IsConsistent v.pmm
    → is_used v.pmm (active_pd v / 4096) ≡ true
    → HasNoTable (active_pd v) (omega arith) v.memory
    → IsTree (init v)
unfolding init
init-IsTree v h root none =
    let flat : (i : ℕ) → i < 1024 → is_table (pde_at (init v) i) ≡ false =
      map_large-HasNoTable (active_pd v) (omega arith) 32 0 v.memory (omega arith) none in
    record {
      pmm = note-IsConsistent boot 0 0 0xC0DE v.pmm h;
      root = root;
      used = λ i lt p. absurd (clash p (flat i lt));
      own = λ i lt p. absurd (clash p (flat i lt));
      apart = λ i j lt lt' p p' ne. absurd (clash p (flat i lt));
    }
