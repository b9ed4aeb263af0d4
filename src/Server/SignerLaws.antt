-- ===== src/Server/SignerLaws.antt =====
-- What the handlers rely on of a `Signer`, and the loop over a list of credentials under these laws.
use mathlib.Core.Path.{fun_ext}
use linux_id.Common.{
  ap, ◌^◌, ◌<◌, ◌≡◌, refl, ◌∙◌, Bool, true, false, Option, none, some, List, [], ◌∷◌, Bytes,
  Bool-cases, length, inl, inr, if◌then◌else◌,
}
use linux_id.Ctap2.Types.{CredDescriptor}
use linux_id.Server.Types.{RegisteredKey, Signer, Services, dummy_text}
use linux_id.Server.MakeCredential.{id_bytes, first_accepted, stop_or_go}

-- A signer by what it accepts: a key handle is good for an application, in a state of the signer, or
-- it is not, whatever hash of 32 bytes is to be signed. Signing and counting do not change what is good; registering
-- adds the new key for its application and forgets nothing.
pub record SignerLaws {S : Type 0} (signer : Signer S) : Type 0 where
  pub accepts : S → Bytes → Bytes → Bool
  pub sign_good :
      (k : S) (h a d : Bytes)
      → accepts k h a ≡ true
      → length d ≡ 32
      → (sig : Bytes) × ((signer.sign_asn1 k h a d).1 ≡ some sig)
  pub sign_bad :
      (k : S) (h a d : Bytes) → accepts k h a ≡ false → (signer.sign_asn1 k h a d).1 ≡ none
  pub sign_keeps :
      (k : S) (h a d g b : Bytes) → accepts (signer.sign_asn1 k h a d).0 g b ≡ accepts k g b
  pub counter_keeps : (k : S) (g b : Bytes) → accepts (signer.counter k).0 g b ≡ accepts k g b
  pub register_keeps :
      (k : S) (a g b : Bytes)
      → accepts k g b ≡ true
      → accepts (signer.register_key k a).0 g b ≡ true
  pub register_good :
      (k : S) (a : Bytes) (key : RegisteredKey)
      → (signer.register_key k a).1 ≡ some key
      → (accepts (signer.register_key k a).0 key.key_handle a ≡ true)
        × (key.x < 2 ^ 256)
        × (key.y < 2 ^ 256)

-- The first credential of the list that is good for the application.
unfoldable pub find_good : (Bytes → Bool) → List CredDescriptor → Option CredDescriptor
find_good good [] = none
find_good good (c ∷ cs) = if good (id_bytes c) then some c else find_good good cs

-- The digests of SHA-256.
abbrev pub Hashes : Services → Type 0
Hashes lib = (b : Bytes) → length (lib.sum256 b) ≡ 32

module _ {S : Type 0} (signer : Signer S) (lib : Services) (laws : SignerLaws signer)
    (sums : Hashes lib) where
  stop_or_go_good :
      (r : S × Option Bytes) (c : CredDescriptor) (next : S → S × Option CredDescriptor)
      (sig : Bytes)
      → r.1 ≡ some sig
      → stop_or_go signer lib r c next ≡ (r.0, some c)
  stop_or_go_good (k, some s) c next sig e = refl
  stop_or_go_good (k, none) c next sig e = cc

  stop_or_go_bad :
      (r : S × Option Bytes) (c : CredDescriptor) (next : S → S × Option CredDescriptor)
      → r.1 ≡ none
      → stop_or_go signer lib r c next ≡ next r.0
  stop_or_go_bad (k, some s) c next e = cc
  stop_or_go_bad (k, none) c next e = refl

  abbrev trial : S → Bytes → CredDescriptor → S × Option Bytes
  trial k a c = signer.sign_asn1 k (id_bytes c) a (lib.sum256 dummy_text)

  first_accepted_good :
      (k : S) (a : Bytes) (c : CredDescriptor) (cs : List CredDescriptor)
      → laws.accepts k (id_bytes c) a ≡ true
      → first_accepted signer lib k a (c ∷ cs) ≡ ((trial k a c).0, some c)
  unfolding first_accepted
  first_accepted_good k a c cs good =
      let (sig, e) =
        laws.sign_good k (id_bytes c) a (lib.sum256 dummy_text) good (sums dummy_text) in
      stop_or_go_good (trial k a c) c _ sig e

  first_accepted_bad :
      (k : S) (a : Bytes) (c : CredDescriptor) (cs : List CredDescriptor)
      → laws.accepts k (id_bytes c) a ≡ false
      → first_accepted signer lib k a (c ∷ cs) ≡ first_accepted signer lib (trial k a c).0 a cs
  unfolding first_accepted
  first_accepted_bad k a c cs bad =
      stop_or_go_bad (trial k a c) c (λ k'. first_accepted signer lib k' a cs)
        (laws.sign_bad k (id_bytes c) a (lib.sum256 dummy_text) bad)

  -- What the loop leaves of the signer accepts the same keys.
  pub first_accepted-accepts :
      (k : S) (a : Bytes) (cs : List CredDescriptor) (g b : Bytes)
      → laws.accepts (first_accepted signer lib k a cs).0 g b ≡ laws.accepts k g b
  first_accepted-accepts k a [] g b = unfold first_accepted in refl
  first_accepted-accepts k a (c ∷ cs) g b = elim (Bool-cases (laws.accepts k (id_bytes c) a)) [
    | inl good ↦
        rw (first_accepted_good k a c cs good)
          (laws.sign_keeps k (id_bytes c) a (lib.sum256 dummy_text) g b)
    | inr bad ↦ rw (first_accepted_bad k a c cs bad) (
        first_accepted-accepts (trial k a c).0 a cs g b
        ∙ laws.sign_keeps k (id_bytes c) a (lib.sum256 dummy_text) g b)
  ]

  -- For a signer with the laws and hashes of 32 bytes the loop over a list of credentials finds
  -- the first one that is good in the state that the loop starts from, although every trial may
  -- change the state.
  pub first_accepted-find_good :
      (k : S) (a : Bytes) (cs : List CredDescriptor)
      → (first_accepted signer lib k a cs).1 ≡ find_good (λ h. laws.accepts k h a) cs
  first_accepted-find_good k a [] = unfold first_accepted find_good in refl
  first_accepted-find_good k a (c ∷ cs) = elim (Bool-cases (laws.accepts k (id_bytes c) a)) [
    | inl good ↦ rw (first_accepted_good k a c cs good) (unfold find_good in rw good)
    | inr bad ↦ rw (first_accepted_bad k a c cs bad) (
        first_accepted-find_good (trial k a c).0 a cs
        ∙ ap (λ (f : Bytes → Bool). find_good f cs)
            (fun_ext (λ h. laws.sign_keeps k (id_bytes c) a (lib.sum256 dummy_text) h a))
        ∙ (unfold find_good in rw bad))
  ]
