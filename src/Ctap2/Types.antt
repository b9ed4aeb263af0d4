-- ===== src/Ctap2/Types.antt =====
-- ctap2/ctap2.go: command and status codes, flags, and the requests.
use linux_id.Common.{ℕ, ℤ, Bool, Option, List, Bytes}

abbrev pub cmd_make_credential : ℕ
cmd_make_credential = 0x01

abbrev pub cmd_get_assertion : ℕ
cmd_get_assertion = 0x02

abbrev pub cmd_get_info : ℕ
cmd_get_info = 0x04

abbrev pub status_ok : ℕ
status_ok = 0x00

abbrev pub status_invalid_cbor : ℕ
status_invalid_cbor = 0x12

abbrev pub status_credential_excluded : ℕ
status_credential_excluded = 0x19

abbrev pub status_unsupported_alg : ℕ
status_unsupported_alg = 0x26

abbrev pub status_operation_denied : ℕ
status_operation_denied = 0x27

abbrev pub status_invalid_option : ℕ
status_invalid_option = 0x2C

abbrev pub status_no_credentials : ℕ
status_no_credentials = 0x2E

abbrev pub status_user_action_timeout : ℕ
status_user_action_timeout = 0x2F

abbrev pub status_not_allowed : ℕ
status_not_allowed = 0x30

abbrev pub status_uv_invalid : ℕ
status_uv_invalid = 0x3F

abbrev pub auth_flag_up : ℕ
auth_flag_up = 0x01

abbrev pub auth_flag_uv : ℕ
auth_flag_uv = 0x04

abbrev pub auth_flag_at : ℕ
auth_flag_at = 0x40

pub record RpEntity : Type 0 where
  pub id : Bytes
  pub name : Bytes

pub record UserEntity : Type 0 where
  pub id : Bytes
  pub name : Bytes
  pub display_name : Bytes

pub record CredParam : Type 0 where
  pub type_name : Bytes
  pub alg : ℤ

-- `id` is `none` where the slice is nil, which the handlers tell from an empty one.
pub record CredDescriptor : Type 0 where
  pub type_name : Bytes
  pub id : Option Bytes

pub record MakeCredOptions : Type 0 where
  pub rk : Bool
  pub uv : Bool

pub record GetAssertOptions : Type 0 where
  pub uv : Bool

pub record MakeCredentialRequest : Type 0 where
  pub client_data_hash : Bytes
  pub rp : RpEntity
  pub user : UserEntity
  pub pub_key_cred_params : List CredParam
  pub exclude_list : List CredDescriptor
  pub options : Option MakeCredOptions

pub record GetAssertionRequest : Type 0 where
  pub rp_id : Bytes
  pub client_data_hash : Bytes
  pub allow_list : List CredDescriptor
  pub options : Option GetAssertOptions
