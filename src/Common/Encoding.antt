-- ===== src/Common/Encoding.antt =====
-- Byte slices as lists of numbers: big-endian words, comparison, and the two bit masks in use.
use Prim.Native.Nat.{ℕ, zero, suc, ◌+◌, ◌*◌, ◌/◌, ◌%◌, ◌^◌, ◌<◌, bit_and, bit_or, bit_xor}
use mathlib.Core.Path.{◌≡◌, refl}
use mathlib.Core.Bool.{Bool, true, false, ◌&&◌}
use mathlib.Core.List.{List, [], ◌∷◌, ◌++◌}
use native.Mathlib.Omega.{arith}
use mathlib.Core.Option.{Option, none, some}
use linux_id.Common.Tests.{ltb, ◌==◌, if◌then◌else◌}
use linux_id.Common.Lists.{length, length-append}

abbrev pub Bytes : Type 0
Bytes = List ℕ

abbrev pub IsByte : ℕ → Type 0
IsByte b = b < 256

-- `binary.BigEndian` on a uint16 and a uint32.
abbrev pub be16 : ℕ → Bytes
be16 n = (n / 256 % 256) ∷ (n % 256) ∷ []

abbrev pub be32 : ℕ → Bytes
be32 n = (n / 16777216 % 256) ∷ (n / 65536 % 256) ∷ (n / 256 % 256) ∷ (n % 256) ∷ []

-- The number that big-endian bytes stand for.
abbrev pub from_be : ℕ → Bytes → ℕ
from_be acc [] = acc
from_be acc (b ∷ bs) = from_be (acc * 256 + b) bs

pub from_be-be16 : (n : ℕ) → n < 2 ^ 16 → from_be 0 (be16 n) ≡ n
from_be-be16 n h = omega arith

pub from_be-be32 : (n : ℕ) → n < 2 ^ 32 → from_be 0 (be32 n) ≡ n
from_be-be32 n h = omega arith

-- `bytes.Equal`, which is also `==` of byte arrays of one length.
abbrev pub bytes_equal : Bytes → Bytes → Bool
bytes_equal [] [] = true
bytes_equal [] (y ∷ ys) = false
bytes_equal (x ∷ xs) [] = false
bytes_equal (x ∷ xs) (y ∷ ys) = x == y && bytes_equal xs ys

pub bytes_equal→eq : (xs ys : Bytes) → bytes_equal xs ys ≡ true → xs ≡ ys
bytes_equal→eq [] [] h = refl
bytes_equal→eq [] (y ∷ ys) h = cc
bytes_equal→eq (x ∷ xs) [] h = cc
bytes_equal→eq (x ∷ xs) (y ∷ ys) h = ground (arith, bytes_equal→eq xs ys)

pub bytes_equal_refl : (xs : Bytes) → bytes_equal xs xs ≡ true
bytes_equal_refl [] = refl
bytes_equal_refl (x ∷ xs) = ground (arith, bytes_equal_refl xs)

-- Two functions are compared on a range by counting the arguments where they differ.
module _ (f g : ℕ → ℕ) where
  mismatches : ℕ → ℕ
  mismatches zero = 0
  mismatches (suc n) = (if f n == g n then 0 else 1) + mismatches n

  agree_below : (range k : ℕ) → k < range → mismatches range ≡ 0 → f k ≡ g k
  unfolding mismatches
  agree_below zero k small h = absurd (omega arith)
  agree_below (suc range) k small h = ground (arith, agree_below range k)

-- Setting bit 7 of a byte below 128 adds 128 to it, and clearing it by xor takes that away.
set_top_table : mismatches (λ b. bit_or b 0x80) (λ b. b + 128) 128 ≡ 0
unfolding mismatches
set_top_table = refl

pub set_top : (b : ℕ) → b < 128 → bit_or b 0x80 ≡ b + 128
set_top b h = agree_below (λ b. bit_or b 0x80) (λ b. b + 128) 128 b h set_top_table

toggle_top_table : mismatches (λ b. bit_xor (b + 128) 0x80) (λ b. b) 128 ≡ 0
unfolding mismatches
toggle_top_table = refl

pub toggle_top : (b : ℕ) → b < 128 → bit_xor (b + 128) 0x80 ≡ b
toggle_top b h = agree_below (λ b. bit_xor (b + 128) 0x80) (λ b. b) 128 b h toggle_top_table

top_bit_table : mismatches (λ b. bit_and b 0x80) (λ b. b / 128 * 128) 256 ≡ 0
unfolding mismatches
top_bit_table = refl

pub top_bit : (b : ℕ) → b < 256 → bit_and b 0x80 ≡ b / 128 * 128
top_bit b h = agree_below (λ b. bit_and b 0x80) (λ b. b / 128 * 128) 256 b h top_bit_table

-- `x.FillBytes` into `n` bytes, big-endian; `none` is the panic on a number that does not fit.
abbrev pub be_bytes : ℕ → ℕ → Bytes
be_bytes zero x = []
be_bytes (suc n) x = be_bytes n (x / 256) ++ (x % 256 ∷ [])

pub length-be_bytes : (n x : ℕ) → length (be_bytes n x) ≡ n
length-be_bytes zero x = refl
length-be_bytes (suc n) x =
    omega (arith, length-append (be_bytes n (x / 256)) (x % 256 ∷ []), length-be_bytes n (x / 256))

unfoldable pub fill_bytes : ℕ → ℕ → Option Bytes
fill_bytes n x = if ltb x (256 ^ n) then some (be_bytes n x) else none
