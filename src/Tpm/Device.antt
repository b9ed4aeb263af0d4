-- ===== src/Tpm/Device.antt =====
-- tpm/tpm.go: the templates of the keys, and the TPM as a parameter: a state and what each command
-- does to it. An error of a command is `none`.
use linux_id.Common.{
  if◌then◌else◌, ℕ, ◌+◌, ◌-◌, ◌%◌, ◌^◌, Bool, true, false, Option, [], ◌++◌, Bytes, codes, take,
  drop,
}

pub record ObjectAttributes : Type 0 where
  pub restricted : Bool
  pub decrypt : Bool
  pub sign_encrypt : Bool
  pub fixed_tpm : Bool
  pub fixed_parent : Bool
  pub sensitive_data_origin : Bool
  pub user_with_auth : Bool

-- The parameters on the curve P-256: AES-128 in CFB mode for a storage key, ECDSA with SHA-256 for a
-- signing key.
pub data EccParms : Type 0 where
  aes_128_cfb ecdsa_sha256 : EccParms

-- `TPMTPublic` of type ECC with names by SHA-256; `x` and `y` are its `Unique`.
pub record PublicTemplate : Type 0 where
  pub attributes : ObjectAttributes
  pub parameters : EccParms
  pub x : Bytes
  pub y : Bytes

-- An object that the TPM holds.
pub record Loaded : Type 0 where
  pub handle : ℕ
  pub name : Bytes

-- The commands of the TPM, randomness, the clock, and the code around them: HKDF by seed, info and
-- length, the point of a public area, the two numbers of a signature, and their DER encoding.
pub record Device (W : Type 0) : Type 0 where
  pub open_device : W → W × Bool
  pub close_device : W → W
  pub random : W → ℕ → W × Bytes
  pub unix_time : W → W × ℕ
  pub create_primary : W → PublicTemplate → W × Option Loaded
  pub create : W → Loaded → PublicTemplate → W × Option (Bytes × Bytes)
  pub load : W → Loaded → Bytes → Bytes → W × Option Loaded
  pub read_public : W → ℕ → W × Option Bytes
  pub sign : W → Loaded → Bytes → W × Option Bytes
  pub flush : W → ℕ → W
  pub hkdf : Bytes → Bytes → ℕ → Bytes
  pub ecc_point : Bytes → Option (Bytes × Bytes)
  pub ecdsa : Bytes → Option (Bytes × Bytes)
  pub der : ℕ → ℕ → Option Bytes

abbrev pub seed_size_bytes : ℕ
seed_size_bytes = 20

-- 2021-01-01, in seconds.
abbrev pub base_time : ℕ
base_time = 1609459200

abbrev pub child_template : PublicTemplate
child_template = record {
  attributes = record {
    restricted = false;
    decrypt = false;
    sign_encrypt = true;
    fixed_tpm = true;
    fixed_parent = true;
    sensitive_data_origin = true;
    user_with_auth = true;
  };
  parameters = ecdsa_sha256;
  x = [];
  y = [];
}

module _ {W : Type 0} (dev : Device W) where
  -- Two reads of 32 bytes from one HKDF stream.
  unfoldable pub primary_key_template : Bytes → Bytes → PublicTemplate
  primary_key_template seed application_param =
      let r = dev.hkdf seed (codes "tpm-fido-application-key" ++ application_param) 64 in
      record {
        attributes = record {
          restricted = true;
          decrypt = true;
          sign_encrypt = false;
          fixed_tpm = true;
          fixed_parent = true;
          sensitive_data_origin = true;
          user_with_auth = true;
        };
        parameters = aes_128_cfb;
        x = take 32 r;
        y = drop 32 r;
      }

  -- `uint32(unix - base)`, which wraps before 2021 and from 2157 on.
  unfoldable pub tpm_counter : W → W × ℕ
  tpm_counter w = let (w', unix) = dev.unix_time w in (w', (unix + (2 ^ 32 - base_time)) % 2 ^ 32)

  -- `New`: the device is opened once and closed.
  unfoldable pub new_tpm : W → W × Bool
  new_tpm w =
      let (w', opened) = dev.open_device w in
      if opened then (dev.close_device w', true) else (w', false)
