-- ===== src/Memory/Signer.antt =====
-- memory/memory.go: the interface of main.go filled by a memory signer that `New` made, so that its
-- master key has 32 bytes.
use mathlib.Core.Path.{subst}
use linux_id.Common.{
  ◌≡◌, ◌<◌, ◌^◌, refl, sym, ap, ◌∙◌, true, Bool-cases, inl, inr, Option, none, some, Bytes, length,
  arith,
}
use linux_id.Server.Types.{RegisteredKey, Signer, Services}
use linux_id.Server.SignerLaws.{SignerLaws, Hashes}
use linux_id.Parallel.Responses.{Serves}
use linux_id.Server.U2fReplies.{Registers}
use linux_id.Memory.{
  Crypto, Mem, Outcome, done, failed, panicked, mem_counter, mem_register_key, mem_sign_asn1,
}
use linux_id.Memory.Laws.{
  CryptoLaws, key_of, handle_size, pair_of, mem_register_key-done, mem_accepts, handle_of-accepted,
  mem_sign_asn1-done, mem_sign_asn1-failed,
}

pub record SizedMem : Type 0 where
  pub mem : Mem
  pub sized : length mem.master_private_key ≡ 32

-- What a call returns that does not panic.
abbrev pub returned : {A : Type 0} → (o : Outcome A) → ¬ (o ≡ panicked) → Option A
returned (done x) h = some x
returned failed h = none
returned panicked h = absurd (h refl)

done-returned :
    {A : Type 0} (o : Outcome A) (h : ¬ (o ≡ panicked)) (x : A) → o ≡ done x → returned o h ≡ some x
done-returned (done y) h x e = cc
done-returned failed h x e = cc
done-returned panicked h x e = absurd (h refl)

failed-returned :
    {A : Type 0} (o : Outcome A) (h : ¬ (o ≡ panicked)) → o ≡ failed → returned o h ≡ none
failed-returned (done y) h e = cc
failed-returned failed h e = refl
failed-returned panicked h e = absurd (h refl)

done-no_panic : {A : Type 0} (o : Outcome A) (x : A) → o ≡ done x → ¬ (o ≡ panicked)
done-no_panic o x e z = cc

failed-no_panic : {A : Type 0} (o : Outcome A) → o ≡ failed → ¬ (o ≡ panicked)
failed-no_panic o e z = cc

module _ (c : Crypto) (laws : CryptoLaws c) where
  pub register-no_panic : (m : SizedMem) (a : Bytes) → ¬ ((mem_register_key c m.mem a).1 ≡ panicked)
  register-no_panic m a =
      done-no_panic _ (key_of c laws m.mem a) (
        ap (λ (r : Mem × Outcome RegisteredKey). r.1)
          (mem_register_key-done c laws m.mem a m.sized))

  pub sign-no_panic :
      (m : SizedMem) (h a digest : Bytes) → ¬ (mem_sign_asn1 c m.mem h a digest ≡ panicked)
  sign-no_panic m h a digest = elim (Bool-cases (mem_accepts c laws m.mem h a)) [
    | inl good ↦
        let (sig, e) = mem_sign_asn1-done c laws m.mem h a digest m.sized good in
        done-no_panic _ sig e
    | inr bad ↦ failed-no_panic _ (mem_sign_asn1-failed c laws m.mem h a digest m.sized bad)
  ]

  pub register-sized :
      (m : SizedMem) (a : Bytes) → length (mem_register_key c m.mem a).0.master_private_key ≡ 32
  unfolding mem_register_key
  register-sized m a = m.sized

  pub counter-sized : (m : SizedMem) → length (mem_counter m.mem).0.master_private_key ≡ 32
  unfolding mem_counter
  counter-sized m = m.sized

  -- The methods, whose calls return since none of them panics.
  abbrev pub mem_signer : Signer SizedMem
  mem_signer = record {
    register_key = λ m a. (
      record { mem = (mem_register_key c m.mem a).0; sized = register-sized m a },
      returned (mem_register_key c m.mem a).1 (register-no_panic m a),
    );
    sign_asn1 = λ m h a digest.
        (m, returned (mem_sign_asn1 c m.mem h a digest) (sign-no_panic m h a digest));
    counter = λ m.
        (record { mem = (mem_counter m.mem).0; sized = counter-sized m }, (mem_counter m.mem).1);
  }

  register-some :
      (m : SizedMem) (a : Bytes) → (mem_signer.register_key m a).1 ≡ some (key_of c laws m.mem a)
  register-some m a =
      done-returned _ (register-no_panic m a) (key_of c laws m.mem a) (
        ap (λ (r : Mem × Outcome RegisteredKey). r.1)
          (mem_register_key-done c laws m.mem a m.sized))

  register-accepts :
      (m : SizedMem) (a h b : Bytes)
      → mem_accepts c laws (mem_register_key c m.mem a).0 h b ≡ mem_accepts c laws m.mem h b
  unfolding mem_register_key
  register-accepts m a h b = refl

  counter-accepts :
      (m : SizedMem) (h b : Bytes)
      → mem_accepts c laws (mem_counter m.mem).0 h b ≡ mem_accepts c laws m.mem h b
  unfolding mem_counter
  counter-accepts m h b = refl

  new_key-good :
      (m : SizedMem) (a : Bytes)
      → (mem_accepts c laws (mem_register_key c m.mem a).0 (key_of c laws m.mem a).key_handle a
          ≡ true)
        × ((key_of c laws m.mem a).x < 2 ^ 256)
        × ((key_of c laws m.mem a).y < 2 ^ 256)
  new_key-good m a = (
    register-accepts m a _ a ∙ handle_of-accepted c laws m.mem m.mem a m.sized refl,
    (laws.generates m.mem.drawn).4,
    (laws.generates m.mem.drawn).5,
  )

  -- Under the laws of the AEAD and the curve, and if randomness does not fail, the memory signer with a
  -- master key of 32 bytes keeps the laws that the handlers rely on.
  pub mem_signer-SignerLaws : SignerLaws mem_signer
  mem_signer-SignerLaws = record {
    accepts = λ m h a. mem_accepts c laws m.mem h a;
    sign_good = λ m h a digest e n.
        let (sig, signed) = mem_sign_asn1-done c laws m.mem h a digest m.sized e in
        (sig, done-returned _ (sign-no_panic m h a digest) sig signed);
    sign_bad = λ m h a digest e.
        failed-returned _ (sign-no_panic m h a digest)
          (mem_sign_asn1-failed c laws m.mem h a digest m.sized e);
    sign_keeps = λ m h a d g b. refl;
    counter_keeps = λ m g b. counter-accepts m g b;
    register_keeps = λ m a g b e. register-accepts m a g b ∙ e;
    register_good = λ m a key e.
        subst
          (λ (k : RegisteredKey).
            (mem_accepts c laws (mem_register_key c m.mem a).0 k.key_handle a ≡ true)
            × (k.x < 2 ^ 256)
            × (k.y < 2 ^ 256))
          (some_injective (sym (register-some m a) ∙ e)) (new_key-good m a);
  }
    where
      some_injective : {k l : RegisteredKey} → some k ≡ some l → k ≡ l
      some_injective z = cc

  -- If besides every generated point is on the curve and the attestation key signs, every registration
  -- can be answered.
  pub mem_signer-Registers :
      (lib : Services)
      → ((m : Mem)
          → (b : Bytes) × (lib.marshal_point (pair_of c laws m).x (pair_of c laws m).y ≡ some b))
      → ((digest : Bytes) → (sig : Bytes) × (lib.attest digest ≡ some sig))
      → Registers mem_signer lib
  mem_signer-Registers lib curve attests = record {
    registers = λ m a n. (
      key_of c laws m.mem a,
      register-some m a,
      omega (arith, (handle_size c laws m.mem a).1),
      curve m.mem,
    );
    attests = attests;
  }

  -- If besides hashes have 32 bytes, the memory signer is one that the whole program can rely on.
  mem_signer-Serves :
      (lib : Services)
      → Hashes lib
      → ((m : Mem)
          → (b : Bytes) × (lib.marshal_point (pair_of c laws m).x (pair_of c laws m).y ≡ some b))
      → ((digest : Bytes) → (sig : Bytes) × (lib.attest digest ≡ some sig))
      → Serves mem_signer lib
  mem_signer-Serves lib sums curve attests = record {
    laws = mem_signer-SignerLaws;
    sums = sums;
    able = mem_signer-Registers lib curve attests;
  }
