-- ===== src/Memory/Laws.antt =====
-- memory/memory.go: what the signer relies on, and the laws of the interface for it.
use linux_id.Common.{
  ℕ, ◌+◌, ◌^◌, ◌≤◌, ◌<◌, ◌≡◌, refl, ap, ◌∙◌, Bool, true, false, Option, none, some, Bytes, length,
  take, drop, ltb, if◌then◌else◌, length-append, take-append_of_eq, drop-append_of_eq, le→ltb_false,
  Bool-cases, inl, inr, arith,
}
use linux_id.Server.Types.{RegisteredKey}
use linux_id.Memory.{
  Crypto, Mem, Outcome, done, failed, key_size, nonce_size, new_mem, must_rand, with_master_key,
  rand_or_panic, next_draw, wrapping_data, new_handle, KeyPair, with_pair, with_nonce,
  mem_register_key, sign_opened, mem_sign_asn1,
}

-- What is relied on: a sealed text opens under the key, nonce and data that it was sealed with, and is
-- 16 bytes longer; randomness does not fail and gives nonces of 24 bytes; a generated key is valid and
-- fits 32 bytes; and signing succeeds with a valid scalar and fails with another.
pub record CryptoLaws (c : Crypto) : Type 0 where
  pub is_valid : Bytes → Bool
  pub unseal_seal :
      (key nonce d data_ : Bytes)
      → length key ≡ 32
      → length nonce ≡ 24
      → c.unseal key nonce (c.seal key nonce d data_) data_ ≡ some d
  pub seal_size : (key nonce d data_ : Bytes) → length (c.seal key nonce d data_) ≡ length d + 16
  pub draws : (n : ℕ) → (b : Bytes) × (c.nonce n ≡ some b) × (length b ≡ 24)
  pub generates :
      (n : ℕ)
      → (pair : KeyPair) × (c.generate n ≡ some pair)
        × (is_valid pair.d ≡ true)
        × (length pair.d ≤ 32)
        × (pair.x < 2 ^ 256)
        × (pair.y < 2 ^ 256)
  pub sign_valid :
      (d digest : Bytes) → is_valid d ≡ true → (sig : Bytes) × (c.sign d digest ≡ some sig)
  pub sign_invalid : (d digest : Bytes) → is_valid d ≡ false → c.sign d digest ≡ none

-- If rand.Read fills the buffer, `New` gives a signer with a master key of 32 bytes.
new_mem-Mem :
    (rand_read : ℕ → Option Bytes) (b : Bytes)
    → rand_read key_size ≡ some b
    → length b ≡ 32
    → (m : Mem) × (new_mem rand_read ≡ done m) × (length m.master_private_key ≡ 32)
unfolding new_mem must_rand
new_mem-Mem rand_read b e size = (
  record { master_private_key = b; sign_counter = 0; drawn = 0 },
  ap (λ (o : Option Bytes). with_master_key (rand_or_panic o)) e,
  size,
)

module _ (c : Crypto) (laws : CryptoLaws c) where
  -- The pair and the nonce of the next registration, and the handle that they give.
  abbrev pub pair_of : Mem → KeyPair
  pair_of m = (laws.generates m.drawn).0

  abbrev pub nonce_of : Mem → Bytes
  nonce_of m = (laws.draws m.drawn).0

  abbrev pub handle_of : Mem → Bytes → Bytes
  handle_of m a = new_handle c m a (pair_of m) (nonce_of m)

  abbrev pub key_of : Mem → Bytes → RegisteredKey
  key_of m a = record { key_handle = handle_of m a; x = (pair_of m).x; y = (pair_of m).y }

  pub handle_size :
      (m : Mem) (a : Bytes) → (24 ≤ length (handle_of m a)) × (length (handle_of m a) ≤ 72)
  handle_size m a = omega (
    arith,
    length-append (nonce_of m)
        (c.seal m.master_private_key (nonce_of m) (pair_of m).d (wrapping_data c a)),
    (laws.draws m.drawn).2,
    (laws.generates m.drawn).3,
    laws.seal_size m.master_private_key (nonce_of m) (pair_of m).d (wrapping_data c a),
  )

  -- A signer with a master key of 32 bytes, as `New` makes it, registers a key without an error or a
  -- panic.
  pub mem_register_key-done :
      (m : Mem) (a : Bytes)
      → length m.master_private_key ≡ 32
      → mem_register_key c m a ≡ (next_draw m, done (key_of m a))
  unfolding mem_register_key with_pair with_nonce
  mem_register_key-done m a size =
      rw
        (
          (laws.generates m.drawn).1,
          size,
          (laws.draws m.drawn).1,
          le→ltb_false 255 (length (handle_of m a)) (omega (arith, handle_size m a)),
        )
        refl

  -- What a good key handle opens to.
  abbrev good_scalar : Option Bytes → Bool
  good_scalar none = false
  good_scalar (some d) = laws.is_valid d

  -- A key handle is good if it opens, with the master key, to a valid scalar.
  abbrev pub mem_accepts : Mem → Bytes → Bytes → Bool
  mem_accepts m h a =
      if ltb (length h) nonce_size
      then false
      else good_scalar (
          c.unseal m.master_private_key (take nonce_size h) (drop nonce_size h) (wrapping_data c a))

  -- The new handle is good in every state with the same master key.
  pub handle_of-accepted :
      (m n : Mem) (a : Bytes)
      → length m.master_private_key ≡ 32
      → n.master_private_key ≡ m.master_private_key
      → mem_accepts n (handle_of m a) a ≡ true
  handle_of-accepted m n a size same =
      rw
        (
          same,
          le→ltb_false (length (handle_of m a)) 24 ((handle_size m a).0),
          take-append_of_eq 24 (nonce_of m) _ (laws.draws m.drawn).2,
          drop-append_of_eq 24 (nonce_of m) _ (laws.draws m.drawn).2,
          laws.unseal_seal m.master_private_key (nonce_of m) (pair_of m).d (wrapping_data c a) size
              (laws.draws m.drawn).2,
          (laws.generates m.drawn).2,
        )
        refl

  opened_good :
      (o : Option Bytes) (digest : Bytes)
      → good_scalar o ≡ true
      → (sig : Bytes) × (sign_opened c digest o ≡ done sig)
  unfolding sign_opened
  opened_good none digest e = cc
  opened_good (some d) digest e =
      let (sig, signed) = laws.sign_valid d digest e in (sig, rw signed refl)

  opened_bad :
      (o : Option Bytes) (digest : Bytes) → good_scalar o ≡ false → sign_opened c digest o ≡ failed
  unfolding sign_opened
  opened_bad none digest e = refl
  opened_bad (some d) digest e = rw (laws.sign_invalid d digest e) refl

  -- A good handle signs, and another is an error; neither is a panic.
  pub mem_sign_asn1-done :
      (m : Mem) (h a digest : Bytes)
      → length m.master_private_key ≡ 32
      → mem_accepts m h a ≡ true
      → (sig : Bytes) × (mem_sign_asn1 c m h a digest ≡ done sig)
  unfolding mem_sign_asn1
  mem_sign_asn1-done m h a digest size good = elim (Bool-cases (ltb (length h) nonce_size)) [
    | inl short ↦ absurd (clash (rw short at good))
    | inr long ↦
        let (sig, signed) = opened_good _ digest (rw long at good) in (sig, rw (size, long) signed)
  ]
    where
      clash : false ≡ true → ⊥
      clash z = cc

  pub mem_sign_asn1-failed :
      (m : Mem) (h a digest : Bytes)
      → length m.master_private_key ≡ 32
      → mem_accepts m h a ≡ false
      → mem_sign_asn1 c m h a digest ≡ failed
  unfolding mem_sign_asn1
  mem_sign_asn1-failed m h a digest size bad = elim (Bool-cases (ltb (length h) nonce_size)) [
    | inl short ↦ rw (size, short) refl
    | inr long ↦ rw (size, long) (opened_bad _ digest (rw long at bad))
  ]

  -- Under the laws of the AEAD and the curve, if randomness does not fail, and with a master key of 32
  -- bytes, as `New` makes it, `RegisterKey` neither fails nor panics; its key handle has at most 72
  -- bytes, and signs every digest for its application in every state that has the same master key.
  pub mem_register_key-mem_sign_asn1 :
      (m n : Mem) (a digest : Bytes)
      → length m.master_private_key ≡ 32
      → n.master_private_key ≡ m.master_private_key
      → (key : RegisteredKey) × (sig : Bytes) × ((mem_register_key c m a).1 ≡ done key)
        × (length key.key_handle ≤ 72)
        × (mem_sign_asn1 c n key.key_handle a digest ≡ done sig)
  mem_register_key-mem_sign_asn1 m n a digest size same =
      let (sig, signed) =
        mem_sign_asn1-done n (handle_of m a) a digest (ap length same ∙ size)
          (handle_of-accepted m n a size same) in
      (
        key_of m a,
        sig,
        ap (λ (r : Mem × Outcome RegisteredKey). r.1) (mem_register_key-done m a size),
        (handle_size m a).1,
        signed,
      )
