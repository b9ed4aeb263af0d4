-- ===== src/Common/Io.antt =====
-- Go's `io.ReadFull` over an in-memory reader, and errors as values with `do`.
use Prim.Native.Nat.{ℕ}
use mathlib.Core.Path.{subst, ◌≡◌}
use mathlib.Core.List.{[], ◌∷◌, ◌++◌}
use native.Mathlib.Omega.{arith}
use linux_id.Common.Tests.{leb, if◌then◌else◌, le→leb}
use linux_id.Common.Lists.{
  length, take, drop, length-append, take-length-append, drop-length-append,
}
use linux_id.Common.Encoding.{Bytes}

pub data Result {ℓ κ} (E : Type ℓ) (A : Type κ) : Type (ℓ ⊔ κ) where
  ok : A → Result E A
  err : E → Result E A

-- What an `io.Reader` over a byte slice can answer.
pub data IoError : Type 0 where
  eof unexpected_eof : IoError

abbrev short_read : Bytes → IoError
short_read [] = eof
short_read (b ∷ bs) = unexpected_eof

-- `io.ReadFull` into a buffer of `n` bytes: what is left to read, and the bytes or the error. A read
-- that falls short has used up the input.
unfoldable pub read_full : Bytes → ℕ → Bytes × Result IoError Bytes
read_full r n = if leb n (length r) then (drop n r, ok (take n r)) else ([], err (short_read r))

-- A read of exactly the bytes at the front.
pub read_full-append : (xs ys : Bytes) → read_full (xs ++ ys) (length xs) ≡ (ys, ok xs)
unfolding read_full
read_full-append xs ys = rw (
  le→leb (length xs) (length (xs ++ ys)) (omega (arith, length-append {0} xs ys)),
  drop-length-append xs ys,
  take-length-append xs ys,
)

-- The property holds of the value, if there is one.
abbrev pub Ensures {ℓ κ μ} : {E : Type ℓ} {A : Type κ} → (A → Type μ) → Result E A → Type μ
Ensures P (ok a) = P a
Ensures P (err e) = Unit

pub Ensures-ok {ℓ κ μ} :
    {E : Type ℓ} {A : Type κ} (P : A → Type μ) (r : Result E A) (a : A)
    → Ensures P r
    → r ≡ ok a
    → P a
Ensures-ok P (ok b) a h e = subst P (cc) h
Ensures-ok P (err x) a h e = cc
