-- ===== src/Server/AuthData.antt =====
-- main.go: the authenticator data of both CTAP2 operations, read back as a relying party reads it, and its flags.
use linux_id.Common.{
  ℕ, ◌%◌, ◌^◌, ◌<◌, ◌≡◌, refl, Bool, true, false, [], ◌∷◌, ◌++◌, Bytes, be16, be32, from_be,
  from_be-be32, bit_and, length, take, drop, get_or, take-append_of_eq, drop-append_of_eq, ◌==◌,
  arith,
}
use linux_id.Ctap2.Types.{auth_flag_up, auth_flag_uv, auth_flag_at}
use linux_id.Server.Types.{aaguid}
use linux_id.Server.MakeCredential.{attested_data, make_flags}
use linux_id.Server.GetAssertion.{assertion_data, get_flags}

-- Hash, flags, count, and what follows.
pub record Header : Type 0 where
  pub rp_id_hash : Bytes
  pub flags : ℕ
  pub count : ℕ
  pub rest : Bytes

abbrev pub read_header : Bytes → Header
read_header b = record {
  rp_id_hash = take 32 b;
  flags = get_or (drop 32 b) 0 0;
  count = from_be 0 (take 4 (drop 1 (drop 32 b)));
  rest = drop 4 (drop 1 (drop 32 b));
}

pub record Attested : Type 0 where
  pub aaguid : Bytes
  pub cred_id : Bytes
  pub public_key : Bytes

-- The credential id has its length in front; the public key is what follows.
abbrev pub read_attested : Bytes → Attested
read_attested b =
    let size = from_be 0 (take 2 (drop 16 b)) in
    record {
      aaguid = take 16 b;
      cred_id = take size (drop 2 (drop 16 b));
      public_key = drop size (drop 2 (drop 16 b));
    }

read_header_bytes :
    (h : Bytes) (flags count : ℕ) (rest : Bytes)
    → length h ≡ 32
    → count < 2 ^ 32
    → read_header (h ++ (flags ∷ (be32 count ++ rest)))
      ≡ record { rp_id_hash = h; flags = flags; count = count; rest = rest }
read_header_bytes h flags count rest e c = rw (
  take-append_of_eq 32 h (flags ∷ (be32 count ++ rest)) e,
  drop-append_of_eq 32 h (flags ∷ (be32 count ++ rest)) e,
  from_be-be32 count c,
)

read_attested_bytes :
    (key_handle cose : Bytes)
    → length key_handle < 2 ^ 16
    → read_attested (aaguid ++ (be16 (length key_handle % 65536) ++ (key_handle ++ cose)))
      ≡ record { aaguid = aaguid; cred_id = key_handle; public_key = cose }
read_attested_bytes key_handle cose k =
    let size : from_be 0 (be16 (length key_handle % 65536)) ≡ length key_handle = omega arith in
    rw (
      size,
      take-append_of_eq (length key_handle) key_handle cose refl,
      drop-append_of_eq (length key_handle) key_handle cose refl,
    )

-- The data of an assertion, with a hash of 32 bytes and a count of 32 bits, is read back as the
-- hash, the flags and the count, and holds nothing else.
read_header-assertion_data :
    (h : Bytes) (flags count : ℕ)
    → length h ≡ 32
    → count < 2 ^ 32
    → read_header (assertion_data h flags count)
      ≡ record { rp_id_hash = h; flags = flags; count = count; rest = [] }
unfolding assertion_data
read_header-assertion_data h flags count e c = read_header_bytes h flags count [] e c

-- The data of a new credential, with a hash of 32 bytes, a count of 32 bits and a key handle of
-- fewer than 2^16 bytes, is read back: hash, flags, count, AAGUID, credential id and public key.
read-attested_data :
    (h : Bytes) (flags count : ℕ) (key_handle cose : Bytes)
    → length h ≡ 32
    → count < 2 ^ 32
    → length key_handle < 2 ^ 16
    → (rest : Bytes) × (read_header (attested_data h flags count key_handle cose)
        ≡ record { rp_id_hash = h; flags = flags; count = count; rest = rest })
      × (read_attested rest ≡ record { aaguid = aaguid; cred_id = key_handle; public_key = cose })
unfolding attested_data
read-attested_data h flags count key_handle cose e c k = (
  aaguid ++ (be16 (length key_handle % 65536) ++ (key_handle ++ cose)),
  read_header_bytes h flags count _ e c,
  read_attested_bytes key_handle cose k,
)

-- The flags have this bit.
abbrev pub has_flag : ℕ → ℕ → Bool
has_flag flags f = bit_and flags f == f

-- The flags say that the user was present, that a key follows for a new credential only, and that
-- the user was verified exactly when the verifier identifies users.
flags_honest :
    (uv : Bool)
    → (has_flag (make_flags uv) auth_flag_up ≡ true)
      × (has_flag (make_flags uv) auth_flag_at ≡ true)
      × (has_flag (make_flags uv) auth_flag_uv ≡ uv)
      × (has_flag (get_flags uv) auth_flag_up ≡ true)
      × (has_flag (get_flags uv) auth_flag_at ≡ false)
      × (has_flag (get_flags uv) auth_flag_uv ≡ uv)
flags_honest true = (refl, refl, refl, refl, refl, refl)
flags_honest false = (refl, refl, refl, refl, refl, refl)
