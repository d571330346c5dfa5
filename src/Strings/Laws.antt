-- ===== src/Strings/Laws.antt =====
-- What the routines of string.c leave in memory.
use zenedge.Common.{
  ℕ, zero, suc, ◌+◌, ◌-◌, ◌<◌, ◌≤◌, ◌≡◌, ◌≢◌, refl, ◌∙◌, ap, arith, true, false, ◌==◌, ltb,
  if◌then◌else◌, some, inl, inr, ==_ne, Bool-cases, Memory, read8, write8, u8,
}
use zenedge.Bitmap.{inside}
use zenedge.Strings.{copy_up, copy_down, memmove, strlen}

u8_twice : (n : ℕ) → u8 (u8 n) ≡ u8 n
u8_twice n = omega arith

copy_up-read8 :
    (n d s : ℕ) (m : Memory)
    → d < s
    → (j : ℕ)
    → read8 (copy_up n d s m) j ≡ (if inside j d n then read8 m (s + (j - d)) else read8 m j)
unfolding copy_up
copy_up-read8 zero d s m lt j = ground arith
copy_up-read8 (suc n) d s m lt j =
    copy_up-read8 n (d + 1) (s + 1) (write8 d (read8 m s) m) (omega arith) j
    ∙ elim (Bool-cases (inside j (d + 1) n)) [
      | inl e ↦
          let e' : inside j d (suc n) ≡ true = ground arith in
          let far : (d == s + 1 + (j - (d + 1))) ≡ false = ground arith in
          let same : s + 1 + (j - (d + 1)) ≡ s + (j - d) = ground arith in
          rw (e, e', far) (ap (read8 m) same)
      | inr e ↦ elim (Bool-cases (d == j)) [
        | inl q ↦
            let e' : inside j d (suc n) ≡ true = ground arith in
            let same : s ≡ s + (j - d) = ground arith in
            rw (e, e', q) (u8_twice (u8 (m s)) ∙ u8_twice (m s) ∙ ap (read8 m) same)
        | inr q ↦ let e' : inside j d (suc n) ≡ false = ground arith in rw (e, e', q) refl
      ]
    ]

copy_down-read8 :
    (n d s : ℕ) (m : Memory)
    → s ≤ d
    → (j : ℕ)
    → read8 (copy_down n d s m) j ≡ (if inside j d n then read8 m (s + (j - d)) else read8 m j)
unfolding copy_down
copy_down-read8 zero d s m le j = ground arith
copy_down-read8 (suc n) d s m le j =
    copy_down-read8 n d s (write8 (d + n) (read8 m (s + n)) m) le j
    ∙ elim (Bool-cases (inside j d n)) [
      | inl e ↦
          let e' : inside j d (suc n) ≡ true = ground arith in
          let far : (d + n == s + (j - d)) ≡ false = ground arith in rw (e, e', far) refl
      | inr e ↦ elim (Bool-cases (d + n == j)) [
        | inl q ↦
            let e' : inside j d (suc n) ≡ true = ground arith in
            let same : s + n ≡ s + (j - d) = ground arith in
            rw (e, e', q) (u8_twice (u8 (m (s + n))) ∙ u8_twice (m (s + n)) ∙ ap (read8 m) same)
        | inr q ↦ let e' : inside j d (suc n) ≡ false = ground arith in rw (e, e', q) refl
      ]
    ]

-- memmove copies the bytes as they were before, also where the two ranges overlap, and leaves every
-- other byte.
pub memmove-read8 :
    (dest src n : ℕ) (m : Memory) (j : ℕ)
    → read8 (memmove dest src n m) j
      ≡ (if inside j dest n then read8 m (src + (j - dest)) else read8 m j)
memmove-read8 dest src n m j = elim (Bool-cases (ltb dest src)) [
  | inl e ↦ rw e (copy_up-read8 n dest src m (ground arith) j)
  | inr e ↦ rw e (copy_down-read8 n dest src m (ground arith) j)
]

-- A string of `len` bytes that are not 0 and a 0 after them has that length, with a round for each.
strlen_lem :
    (len fuel s : ℕ) (m : Memory)
    → ((i : ℕ) → i < len → read8 m (s + i) ≢ 0)
    → read8 m (s + len) ≡ 0
    → len < fuel
    → strlen fuel s m ≡ some len
unfolding strlen
strlen_lem len zero s m full end lt = absurd (omega arith)
strlen_lem zero (suc fuel) s m full end lt =
    let here : read8 m s ≡ 0 = ap (read8 m) (omega arith) ∙ end in
    let e : (read8 m s == 0) ≡ true = rw here refl in rw (e, strlen) refl
strlen_lem (suc len) (suc fuel) s m full end lt =
    let here : read8 m s ≢ 0 = λ q. full 0 (omega arith) (ap (read8 m) (omega arith) ∙ q) in
    let e : (read8 m s == 0) ≡ false = ==_ne (read8 m s) 0 here in
    let rest : strlen fuel (s + 1) m ≡ some len =
      strlen_lem len fuel (s + 1) m
        (λ i lt' q. full (i + 1) (omega arith) (ap (read8 m) (omega arith) ∙ q))
        (ap (read8 m) (omega arith) ∙ end) (omega arith) in
    rw (e, rest, strlen) refl
