-- ===== src/Bitmap/Laws.antt =====
-- A bitmap behaves as a function from bit numbers to Booleans.
use zenedge.Common.{
  ℕ, zero, suc, ◌*◌, ◌/◌, ◌%◌, ◌<◌, ◌≤◌, ◌≡◌, refl, true, false, List, [], ◌∷◌, arith, inl, inr,
  ◌&&◌, ltb, ◌==◌, if◌then◌else◌, length, get_or, set, All, Bool-cases, get_or-set_self,
  get_or-set_ne, length-set, length-replicate, replicate,
}
use zenedge.Bitmap.Bits.{
  bit, or_bit, clear_bit, bitmap_test, bitmap_set, bitmap_clear, bit-or_bit, bit-clear_bit,
  bit_full,
}

-- `max` bits fit the bytes, which are bytes.
pub record IsBitmap (max : ℕ) (bm : List ℕ) : Type 0 where
  pub room : max ≤ 8 * length bm
  pub bytes : All (λ b. b < 256) bm

get_or_byte : (bm : List ℕ) (i : ℕ) → All (λ b. b < 256) bm → get_or bm i 0 < 256
get_or_byte [] i h = omega arith
get_or_byte (b ∷ bm) zero h = h.0
get_or_byte (b ∷ bm) (suc i) h = get_or_byte bm i h.1

set_byte :
    (bm : List ℕ) (i v : ℕ) → v < 256 → All (λ b. b < 256) bm → All (λ b. b < 256) (set bm i v)
set_byte [] i v lt h = tt
set_byte (b ∷ bm) zero v lt h = (lt, h.1)
set_byte (b ∷ bm) (suc i) v lt h = (h.0, set_byte bm i v lt h.1)

-- A byte written elsewhere leaves the bit.
bit-set :
    (bm : List ℕ) (i j v : ℕ)
    → i / 8 < length bm
    → bit (get_or (set bm (i / 8) v) (j / 8) 0) (j % 8)
      ≡ (if i / 8 == j / 8 then bit v (j % 8) else bit (get_or bm (j / 8) 0) (j % 8))
bit-set bm i j v lt = elim (Bool-cases (i / 8 == j / 8)) [
  | inl e ↦ let q : j / 8 ≡ i / 8 = ground arith in rw (e, q, get_or-set_self bm (i / 8) v 0 lt)
  | inr e ↦ rw (e, get_or-set_ne bm (i / 8) (j / 8) v 0 (ground arith))
]

module _ (max : ℕ) (bm : List ℕ) (i j : ℕ) (h : IsBitmap max bm) where
  -- Setting bit `i` makes it read as set, if it is in range, and leaves every other bit.
  pub test-set :
      bitmap_test max (bitmap_set max bm i) j ≡ (if i == j then true else bitmap_test max bm j)
  unfolding bitmap_test bitmap_set
  test-set = ground (
    arith,
    bit-set bm i j (or_bit (get_or bm (i / 8) 0) (i % 8)),
    bit-or_bit (get_or bm (i / 8) 0) (i % 8) (j % 8),
    get_or_byte bm (i / 8) h.bytes,
  )

  -- Clearing bit `i` makes it read as clear, if it is in range, and leaves every other bit.
  pub test-clear :
      bitmap_test max (bitmap_clear max bm i) j
      ≡ (if i == j && ltb i max then false else bitmap_test max bm j)
  unfolding bitmap_test bitmap_clear
  test-clear = ground (
    arith,
    bit-set bm i j (clear_bit (get_or bm (i / 8) 0) (i % 8)),
    bit-clear_bit (get_or bm (i / 8) 0) (i % 8) (j % 8),
    get_or_byte bm (i / 8) h.bytes,
  )

module _ (max : ℕ) (bm : List ℕ) (i : ℕ) (h : IsBitmap max bm) where
  pub set-IsBitmap : IsBitmap max (bitmap_set max bm i)
  unfolding bitmap_set
  set-IsBitmap = elim (Bool-cases (ltb i max)) [
    | inl e ↦ rw e (record {
      room = rw (length-set bm (i / 8) (or_bit (get_or bm (i / 8) 0) (i % 8))) h.room;
      bytes = set_byte bm (i / 8) (or_bit (get_or bm (i / 8) 0) (i % 8)) (omega arith) h.bytes;
    })
    | inr e ↦ rw e h
  ]

  pub clear-IsBitmap : IsBitmap max (bitmap_clear max bm i)
  unfolding bitmap_clear
  clear-IsBitmap = elim (Bool-cases (ltb i max)) [
    | inl e ↦ rw e (record {
      room = rw (length-set bm (i / 8) (clear_bit (get_or bm (i / 8) 0) (i % 8))) h.room;
      bytes = set_byte bm (i / 8) (clear_bit (get_or bm (i / 8) 0) (i % 8)) (omega arith) h.bytes;
    })
    | inr e ↦ rw e h
  ]

get_or-replicate : (n i v : ℕ) → i < n → get_or (replicate n v) i 0 ≡ v
get_or-replicate zero i v lt = elim lt [ ]
get_or-replicate (suc n) zero v lt = refl
get_or-replicate (suc n) (suc i) v lt = get_or-replicate n i v (omega arith)

pub full_bytes : (n : ℕ) → All (λ b. b < 256) (replicate n 255)
full_bytes zero = tt
full_bytes (suc n) = (omega arith, full_bytes n)

module _ (max n : ℕ) (fits : max ≤ 8 * n) where
  -- Bytes of 0xFF are a bitmap whose every bit is set.
  pub full-IsBitmap : IsBitmap max (replicate n 255)
  full-IsBitmap = record {
    room = omega (arith, length-replicate {A = ℕ} n 255);
    bytes = full_bytes n;
  }

  pub test-full : (j : ℕ) → bitmap_test max (replicate n 255) j ≡ true
  unfolding bitmap_test
  test-full j = elim (Bool-cases (ltb j max)) [
    | inl e ↦ rw (e, get_or-replicate n (j / 8) 255 (ground arith)) (bit_full (j % 8) (omega arith))
    | inr e ↦ rw e refl
  ]
