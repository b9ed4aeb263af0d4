-- ===== src/Tests/Keys.antt =====
-- The theorems on the memory signer, applied: a seal that puts sixteen zeros in front.
use linux_id.Common.{
  ◌≡◌, ◌≤◌, refl, ap, Bool, true, false, Option, none, some, [], ◌∷◌, ◌++◌, Bytes, bytes_equal,
  drop, replicate, length, length-append, length-replicate, arith,
}
use linux_id.Server.Types.{RegisteredKey}
use linux_id.Server.SignerLaws.{SignerLaws}
use linux_id.Memory.{Crypto, Mem, done, mem_register_key, mem_sign_asn1}
use linux_id.Memory.Laws.{CryptoLaws, mem_register_key-mem_sign_asn1}
use linux_id.Memory.Signer.{mem_signer, mem_signer-SignerLaws}

abbrev scalar : Bytes
scalar = 5 ∷ []

abbrev sign_if_valid : Bool → Bytes → Option Bytes
sign_if_valid true b = some b
sign_if_valid false b = none

abbrev crypto : Crypto
crypto = record {
  sum256 = λ b. b;
  seal = λ key nonce d data_. replicate 16 0 ++ d;
  unseal = λ key nonce b data_. some (drop 16 b);
  nonce = λ n. some (replicate 24 n);
  generate = λ n. some (record { d = scalar; x = 1; y = 2 });
  sign = λ d digest. sign_if_valid (bytes_equal d scalar) (d ++ digest);
}

abbrev crypto_laws : CryptoLaws crypto
crypto_laws = record {
  is_valid = λ d. bytes_equal d scalar;
  unseal_seal = λ key nonce d data_ k n. refl;
  seal_size = λ key nonce d data_. omega (arith, length-append (replicate 16 0) d);
  draws = λ n. (replicate 24 n, refl, length-replicate 24 n);
  generates =
      λ n. (record { d = scalar; x = 1; y = 2 }, refl, refl, omega arith, omega arith, omega arith);
  sign_valid = λ d digest e. (d ++ digest, ap (λ (b : Bool). sign_if_valid b (d ++ digest)) e);
  sign_invalid = λ d digest e. ap (λ (b : Bool). sign_if_valid b (d ++ digest)) e;
}

abbrev fresh_signer : Mem
fresh_signer = record { master_private_key = replicate 32 3; sign_counter = 0; drawn = 1 }

abbrev later_signer : Mem
later_signer = record fresh_signer { sign_counter = 7; drawn = 2 }

mem_register_key-mem_sign_asn1_example :
    (key : RegisteredKey) × (sig : Bytes) × ((mem_register_key crypto fresh_signer (1 ∷ 2 ∷ [])).1
      ≡ done key)
    × (length key.key_handle ≤ 72)
    × (mem_sign_asn1 crypto later_signer key.key_handle (1 ∷ 2 ∷ []) (9 ∷ []) ≡ done sig)
mem_register_key-mem_sign_asn1_example =
    mem_register_key-mem_sign_asn1 crypto crypto_laws fresh_signer later_signer (1 ∷ 2 ∷ [])
      (9 ∷ []) refl refl

mem_signer-SignerLaws_example : SignerLaws (mem_signer crypto crypto_laws)
mem_signer-SignerLaws_example = mem_signer-SignerLaws crypto crypto_laws
