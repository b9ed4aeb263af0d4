-- ===== src/Server/Types.antt =====
-- main.go: what the handlers share. The signer is the interface `Signer`; hashing, CBOR, JSON and
-- the attestation signature are parameters.
use linux_id.Common.{ℕ, ℤ, Bool, Option, List, [], ◌∷◌, Bytes, codes}
use linux_id.Ctap2.Types.{MakeCredentialRequest, GetAssertionRequest}
use linux_id.Ctap2.CredStore.{StoredCredential, Disk}
use linux_id.Verifier.{CachingVerifier}

-- A credential's key handle and the coordinates of its public key.
pub record RegisteredKey : Type 0 where
  pub key_handle : Bytes
  pub x : ℕ
  pub y : ℕ

-- `Signer`: every method may change the state `S`; `none` is an error.
pub record Signer (S : Type 0) : Type 0 where
  pub register_key : S → Bytes → S × Option RegisteredKey
  pub sign_asn1 : S → Bytes → Bytes → Bytes → S × Option Bytes
  pub counter : S → S × ℕ

-- The keys of the maps that are sent, and the values.
pub data CborKey : Type 0 where
  int_key : ℤ → CborKey
  text_key : Bytes → CborKey

mutual
  pub data Cbor : Type 0 where
    int : ℤ → Cbor
    bytes : Bytes → Cbor
    text : Bytes → Cbor
    boolean : Bool → Cbor
    array : CborItems → Cbor
    mapping : CborFields → Cbor

  pub data CborItems : Type 0 where
    no_items : CborItems
    item : Cbor → CborItems → CborItems

  pub data CborFields : Type 0 where
    no_fields : CborFields
    field : CborKey → Cbor → CborFields → CborFields

-- The code that the handlers call and this repository does not hold: sha256.Sum256, `ctap2Enc.Marshal`
-- and `cbor.Unmarshal`, encoding/json, elliptic.Marshal, where `none` is its panic off the curve,
-- ecdsa.SignASN1 with the attestation key (of one choice of its randomness), and the certificate.
pub record Services : Type 0 where
  pub sum256 : Bytes → Bytes
  pub cbor_marshal : Cbor → Option Bytes
  pub unmarshal_make_credential : Bytes → Option MakeCredentialRequest
  pub unmarshal_get_assertion : Bytes → Option GetAssertionRequest
  pub json_marshal : List StoredCredential → Option Bytes
  pub json_unmarshal : Bytes → Option (List StoredCredential)
  pub marshal_point : ℕ → ℕ → Option Bytes
  pub attest : Bytes → Option Bytes
  pub cert_der : Bytes

-- `server`: the signer's state, the configured verifier, and the disk below the credential store.
pub record Server (S : Type 0) : Type 0 where
  pub keys : S
  pub verifier : CachingVerifier
  pub disk : Disk

-- What a handler writes: `WriteResponse` with a status word, or `WriteCtap2Response`.
pub data Reply : Type 0 where
  u2f : Bytes → ℕ → Reply
  ctap2 : ℕ → Bytes → Reply

-- How a handler ends: with one reply, without one, by `log.Fatalf`, or by a panic.
pub data Ending : Type 0 where
  replied : Reply → Ending
  silent fatal panicked : Ending

-- The hash of this text is signed to find out whether a key handle is good.
abbrev pub dummy_text : Bytes
dummy_text = codes "meticulously-Bacardi"

abbrev pub aaguid : Bytes
aaguid = 0 ∷ 0 ∷ 0 ∷ 0 ∷ 0 ∷ 0 ∷ 0 ∷ 0 ∷ 0 ∷ 0 ∷ 0 ∷ 0 ∷ 0 ∷ 0 ∷ 0 ∷ 0 ∷ []
