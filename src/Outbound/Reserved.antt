-- ===== src/Outbound/Reserved.antt =====
-- The tests on the bytes of an address and the table of reserved blocks.
use mathlib.Core.Bool.{or_assoc}
use link_suffix.Base.{
  refl, leb, false, ◌&&◌, ℕ, ◌+◌, ◌*◌, ◌/◌, ◌≡◌, ◌≤◌, ◌==◌, ◌||◌, Bool, List, [], ◌∷◌, any, arith,
}
use link_suffix.Outbound.Addresses.{Bytes, blocked_bytes}

-- A block of addresses: those that have one value after a division by the block's size.
pub record Block : Type 0 where
  pub base : ℕ
  pub size : ℕ

-- The address as a number of 32 bits.
abbrev pub number : Bytes → ℕ
number x = x.a * 16_777_216 + x.b * 65_536 + x.c * 256 + x.d

abbrev pub block : ℕ → ℕ → ℕ → ℕ → Block
block a b c size = record { base = a * 16_777_216 + b * 65_536 + c * 256; size = size }

-- 0.0.0.0/8, 10/8, 127/8, 100.64/10, 169.254/16, 172.16/12, 192.0.0/24, 192.0.2/24, 192.168/16, 198.18/15,
-- 198.51.100/24, 203.0.113/24 and 224/3.
abbrev pub reserved_blocks : List Block
reserved_blocks =
    block 0 0 0 16_777_216
    ∷ block 10 0 0 16_777_216
    ∷ block 127 0 0 16_777_216
    ∷ block 100 64 0 4_194_304
    ∷ block 169 254 0 65_536
    ∷ block 172 16 0 1_048_576
    ∷ block 192 0 0 256
    ∷ block 192 0 2 256
    ∷ block 192 168 0 65_536
    ∷ block 198 18 0 131_072
    ∷ block 198 51 100 256
    ∷ block 203 0 113 256
    ∷ block 224 0 0 536_870_912
    ∷ []

abbrev pub in_block : ℕ → Block → Bool
in_block n k = n / k.size == k.base / k.size

-- The four bytes are bytes.
abbrev pub IsBytes : Bytes → Type 0
IsBytes x = (x.a ≤ 255) × (x.b ≤ 255) × (x.c ≤ 255) × (x.d ≤ 255)

prefix_8 : (x : Bytes) → IsBytes x → number x / 16_777_216 ≡ x.a
prefix_8 x h = omega (arith, h)

prefix_10 : (x : Bytes) → IsBytes x → number x / 4_194_304 ≡ x.a * 4 + x.b / 64
prefix_10 x h = omega (arith, h)

prefix_16 : (x : Bytes) → IsBytes x → number x / 65_536 ≡ x.a * 256 + x.b
prefix_16 x h = omega (arith, h)

prefix_12 : (x : Bytes) → IsBytes x → number x / 1_048_576 ≡ x.a * 16 + x.b / 16
prefix_12 x h = omega (arith, h)

prefix_15 : (x : Bytes) → IsBytes x → number x / 131_072 ≡ x.a * 128 + x.b / 2
prefix_15 x h = omega (arith, h)

prefix_24 : (x : Bytes) → IsBytes x → number x / 256 ≡ x.a * 65_536 + x.b * 256 + x.c
prefix_24 x h = omega (arith, h)

prefix_3 : (x : Bytes) → IsBytes x → number x / 536_870_912 ≡ x.a / 32
prefix_3 x h = omega (arith, h)

module _ (x : Bytes) (h : IsBytes x) where
  by_8 : (k : ℕ) → (number x / 16_777_216 == k) ≡ (x.a == k)
  by_8 k = rw (prefix_8 x h) refl

  shared : (number x / 4_194_304 == 401) ≡ (x.a == 100 && leb 64 x.b && leb x.b 127)
  shared = rw (prefix_10 x h) (ground (arith, h))

  by_16 : (a b : ℕ) → b ≤ 255 → (number x / 65_536 == a * 256 + b) ≡ (x.a == a && x.b == b)
  by_16 a b k = rw (prefix_16 x h) (ground (arith, h))

  private_12 : (number x / 1_048_576 == 2_753) ≡ (x.a == 172 && leb 16 x.b && leb x.b 31)
  private_12 = rw (prefix_12 x h) (ground (arith, h))

  benchmark : (number x / 131_072 == 25_353) ≡ (x.a == 198 && (x.b == 18 || x.b == 19))
  benchmark = rw (prefix_15 x h) (ground (arith, h))

  by_24 :
      (a b c : ℕ)
      → b ≤ 255
      → c ≤ 255
      → (number x / 256 == a * 65_536 + b * 256 + c) ≡ (x.a == a && x.b == b && x.c == c)
  by_24 a b c k l = rw (prefix_24 x h) (ground (arith, h))

  last_3 : (number x / 536_870_912 == 7 || false) ≡ leb 224 x.a
  last_3 = rw (prefix_3 x h) (ground (arith, h))

-- The tests of the source hold of four bytes, each below 256, exactly when the address lies in one of the
-- reserved blocks.
pub blocked_bytes-in_block :
    (x : Bytes) → IsBytes x → blocked_bytes x ≡ any (in_block (number x)) reserved_blocks
unfolding blocked_bytes
blocked_bytes-in_block x h =
    rw
      (
        by_8 x h 0,
        by_8 x h 10,
        by_8 x h 127,
        shared x h,
        by_16 x h 169 254 (omega arith),
        private_12 x h,
        by_24 x h 192 0 0 (omega arith) (omega arith),
        by_24 x h 192 0 2 (omega arith) (omega arith),
        by_16 x h 192 168 (omega arith),
        benchmark x h,
        by_24 x h 198 51 100 (omega arith) (omega arith),
        by_24 x h 203 0 113 (omega arith) (omega arith),
        last_3 x h,
      )
      (simp or_assoc)
