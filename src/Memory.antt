-- ===== src/Memory.antt =====
-- memory/memory.go: the signer that keeps its keys in key handles, sealed under a master key. The
-- AEAD, hashing, randomness and the curve are parameters. Randomness is read by the number of draws,
-- and `none` is its error.
pub mod Laws
pub mod Signer
use linux_id.Common.{
  ℕ, ◌+◌, ◌%◌, ◌^◌, Bool, Option, none, some, ◌++◌, Bytes, codes, length, take, drop, ltb, ◌==◌,
  if◌then◌else◌,
}
use linux_id.Server.Types.{RegisteredKey}

-- The bytes of a private scalar, and the point that belongs to it.
pub record KeyPair : Type 0 where
  pub d : Bytes
  pub x : ℕ
  pub y : ℕ

-- sha256, XChaCha20-Poly1305 by key, nonce, text and data, the random draws, and ecdsa.SignASN1 with
-- a scalar, of one choice of its randomness.
pub record Crypto : Type 0 where
  pub sum256 : Bytes → Bytes
  pub seal : Bytes → Bytes → Bytes → Bytes → Bytes
  pub unseal : Bytes → Bytes → Bytes → Bytes → Option Bytes
  pub nonce : ℕ → Option Bytes
  pub generate : ℕ → Option KeyPair
  pub sign : Bytes → Bytes → Option Bytes

abbrev pub key_size : ℕ
key_size = 32

abbrev pub nonce_size : ℕ
nonce_size = 24

-- `drawn` counts what was taken from the source of randomness.
pub record Mem : Type 0 where
  pub master_private_key : Bytes
  pub sign_counter : ℕ  -- uint32
  pub drawn : ℕ

-- How a method ends: with a value, with an error, or by a panic.
pub data Outcome (A : Type 0) : Type 0 where
  done : A → Outcome A
  failed panicked : Outcome A

-- `mustRand`, where `rand_read n` is what rand.Read gives for `n` bytes, and `none` its error.
abbrev pub rand_or_panic : Option Bytes → Outcome Bytes
rand_or_panic none = panicked
rand_or_panic (some b) = done b

unfoldable pub must_rand : (ℕ → Option Bytes) → ℕ → Outcome Bytes
must_rand rand_read size = rand_or_panic (rand_read size)

abbrev pub with_master_key : Outcome Bytes → Outcome Mem
with_master_key (done b) = done (record { master_private_key = b; sign_counter = 0; drawn = 0 })
with_master_key failed = failed
with_master_key panicked = panicked

unfoldable pub new_mem : (ℕ → Option Bytes) → Outcome Mem
new_mem rand_read = with_master_key (must_rand rand_read key_size)

unfoldable pub mem_counter : Mem → Mem × ℕ
mem_counter m = let n = (m.sign_counter + 1) % 2 ^ 32 in (record m { sign_counter = n }, n)

abbrev pub next_draw : Mem → Mem
next_draw m = record m { drawn = m.drawn + 1 }

abbrev pub sized_handle : KeyPair → Bytes → Outcome RegisteredKey
sized_handle pair h =
    if ltb 255 (length h)
    then panicked
    else done (record { key_handle = h; x = pair.x; y = pair.y })

abbrev pub signature_or_error : Option Bytes → Outcome Bytes
signature_or_error none = failed
signature_or_error (some sig) = done sig

module _ (c : Crypto) where
  -- The hash that binds a key handle to its application.
  abbrev pub wrapping_data : Bytes → Bytes
  wrapping_data a = c.sum256 (codes "fido_wrapping_key" ++ a)

  abbrev pub new_handle : Mem → Bytes → KeyPair → Bytes → Bytes
  new_handle m a pair nonce = nonce ++ c.seal m.master_private_key nonce pair.d (wrapping_data a)

  -- `mustRand` of the nonce panics without randomness.
  unfoldable pub with_nonce : Mem → Bytes → KeyPair → Option Bytes → Outcome RegisteredKey
  with_nonce m a pair none = panicked
  with_nonce m a pair (some nonce) = sized_handle pair (new_handle m a pair nonce)

  -- The coordinates are read in front of the test for an error of GenerateKey, which is a panic at the
  -- nil key. `NewX` accepts keys of 32 bytes only.
  unfoldable pub with_pair : Mem → Bytes → Option KeyPair → Outcome RegisteredKey
  with_pair m a none = panicked
  with_pair m a (some pair) =
      if length m.master_private_key == key_size
      then with_nonce m a pair (c.nonce m.drawn)
      else failed

  unfoldable pub mem_register_key : Mem → Bytes → Mem × Outcome RegisteredKey
  mem_register_key m a = (next_draw m, with_pair m a (c.generate m.drawn))

  unfoldable pub sign_opened : Bytes → Option Bytes → Outcome Bytes
  sign_opened digest none = failed
  sign_opened digest (some d) = signature_or_error (c.sign d digest)

  unfoldable pub mem_sign_asn1 : Mem → Bytes → Bytes → Bytes → Outcome Bytes
  mem_sign_asn1 m h a digest =
      if length m.master_private_key == key_size
      then (if ltb (length h) nonce_size
          then failed
          else sign_opened digest (
              c.unseal m.master_private_key (take nonce_size h) (drop nonce_size h)
                (wrapping_data a)))
      else panicked
