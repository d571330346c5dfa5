-- ===== src/Vmm/Tree.antt =====
-- The directory of vmm.c and its tables as pages of their own.
use zenedge.Common.{
  ℕ, ◌/◌, ◌<◌, ◌≡◌, ◌≢◌, ◌⊎◌, refl, sym, ◌∙◌, ap, Bool, true, false, not, ◌&&◌, arith, inl, inr,
  ◌==◌, ==_refl, Bool-cases, clash,
}
use zenedge.Pmm.{Pmm, is_used}
use zenedge.Pmm.Nodes.{IsConsistent}
use zenedge.Vmm.{
  Vmm, active_pd, pde_index, pte_index, pte_addr, has_bit, is_present, entry_at, set_entry,
  table_of, entry_of,
}
use zenedge.Vmm.Entry.{entry_at-set_entry_ne}

abbrev pub pde_at : Vmm → ℕ → ℕ
pde_at v i = entry_at v.memory (active_pd v) i

abbrev pub table_at : Vmm → ℕ → ℕ
table_at v i = pte_addr (pde_at v i)

-- An entry that leads to a table, and not to a large page.
abbrev pub is_table : ℕ → Bool
is_table e = is_present e && not (has_bit e 7)

-- The entry of the directory for an address does not lead to a large page.
abbrev pub IsSmall : Vmm → ℕ → Type 0
IsSmall v x = has_bit (pde_at v (pde_index x)) 7 ≡ false

-- The directory and the tables that it leads to are pages in use, no two of them the same. Entries for
-- large pages are left out.
pub record IsTree (v : Vmm) : Type 0 where
  pub pmm : IsConsistent v.pmm
  pub root : is_used v.pmm (active_pd v / 4096) ≡ true
  pub used :
      (i : ℕ) → i < 1024 → is_table (pde_at v i) ≡ true → is_used v.pmm (table_at v i / 4096) ≡ true
  pub own : (i : ℕ) → i < 1024 → is_table (pde_at v i) ≡ true → table_at v i ≢ active_pd v
  pub apart :
      (i j : ℕ)
      → i < 1024
      → j < 1024
      → is_table (pde_at v i) ≡ true
      → is_table (pde_at v j) ≡ true
      → i ≢ j
      → table_at v i ≢ table_at v j

-- Pages of which one is in use and the other is not are different.
pub used-ne :
    (p : Pmm) (a b : ℕ) → is_used p (a / 4096) ≡ true → is_used p (b / 4096) ≡ false → a ≢ b
used-ne p a b u f e = clash (ap (λ x. is_used p (x / 4096)) (sym e) ∙ u) f

-- Writing an entry of the table of an address.
module _ (vaddr e : ℕ) (v : Vmm) (h : IsTree v)
    (present : is_table (pde_at v (pde_index vaddr)) ≡ true) where
  unfoldable pub written : Vmm
  written = record v { memory = set_entry (table_of vaddr v) (pte_index vaddr) e v.memory }

  pub pde-written : (i : ℕ) → i < 1024 → pde_at written i ≡ pde_at v i
  unfolding written
  pde-written i lt =
      entry_at-set_entry_ne v.memory (table_of vaddr v) (active_pd v) (pte_index vaddr) i e
        (omega arith) (omega arith) (omega arith) lt
        (inl (h.own (pde_index vaddr) (omega arith) present))

  pub IsTree-written : IsTree written
  unfolding written
  IsTree-written = record {
    pmm = h.pmm;
    root = h.root;
    used = λ i lt p.
        ap (λ x. is_used v.pmm (pte_addr x / 4096)) (pde-written i lt)
        ∙ h.used i lt (ap is_table (sym (pde-written i lt)) ∙ p);
    own = λ i lt p q.
        h.own i lt (ap is_table (sym (pde-written i lt)) ∙ p)
          (ap pte_addr (sym (pde-written i lt)) ∙ q);
    apart = λ i j lt lt' p p' ne q.
        h.apart i j lt lt' (ap is_table (sym (pde-written i lt)) ∙ p)
          (ap is_table (sym (pde-written j lt')) ∙ p') ne
          (ap pte_addr (sym (pde-written i lt)) ∙ q ∙ ap pte_addr (pde-written j lt'));
  }

  pub entry_of-written :
      (x : ℕ)
      → IsSmall v x
      → (pde_index x ≢ pde_index vaddr) ⊎ (pte_index x ≢ pte_index vaddr)
      → entry_of x written ≡ entry_of x v
  unfolding written
  entry_of-written x small ne = elim (Bool-cases (is_present (pde_at v (pde_index x)))) [
    | inr p ↦ rw (pde-written (pde_index x) (omega arith), p) refl
    | inl p ↦
        rw (pde-written (pde_index x) (omega arith), p)
          (entry_at-set_entry_ne v.memory (table_of vaddr v) (table_of x v) (pte_index vaddr)
            (pte_index x) e (omega arith) (omega arith) (omega arith) (omega arith)
            (other (both p small)))
  ]
    where
      both :
          is_present (pde_at v (pde_index x)) ≡ true
          → IsSmall v x
          → is_table (pde_at v (pde_index x)) ≡ true
      both p q = rw (p, q) refl

      other :
          is_table (pde_at v (pde_index x)) ≡ true
          → (table_of vaddr v ≢ table_of x v) ⊎ (pte_index vaddr ≢ pte_index x)
      other p = elim (Bool-cases (pde_index x == pde_index vaddr)) [
        | inr d ↦ inl (
            h.apart (pde_index vaddr) (pde_index x) (omega arith) (omega arith) present p
              (λ q. clash (ap (λ y. pde_index x == y) q ∙ ==_refl (pde_index x)) d))
        | inl d ↦ elim ne [
          | inl f ↦ let q : pde_index x ≡ pde_index vaddr = ground arith in absurd (f q)
          | inr f ↦ inr (λ q. f (sym q))
        ]
      ]
