-- ===== src/U2f/Decode.antt =====
-- fidoauth/fidoauth.go: the U2F request and its decoder.
use linux_id.Common.{
  ℕ, ◌+◌, Bool, ◌||◌, Option, none, some, Bytes, Result, ok, err, length, take, drop, get_or, ltb,
  ◌==◌, if◌then◌else◌,
}

abbrev pub cmd_register : ℕ
cmd_register = 0x01

abbrev pub cmd_authenticate : ℕ
cmd_authenticate = 0x02

abbrev pub cmd_version : ℕ
cmd_version = 0x03

-- Check if the provided key is valid.
abbrev pub ctrl_check_only : ℕ
ctrl_check_only = 0x07

-- Confirm with the user, then sign.
abbrev pub ctrl_enforce_user_presence_and_sign : ℕ
ctrl_enforce_user_presence_and_sign = 0x03

-- Sign without confirming.
abbrev pub ctrl_dont_enforce_user_presence_and_sign : ℕ
ctrl_dont_enforce_user_presence_and_sign = 0x08

pub record AuthenticatorRegisterReq : Type 0 where
  pub challenge_param : Bytes
  pub application_param : Bytes

pub record AuthenticatorAuthReq : Type 0 where
  pub ctrl : ℕ
  pub challenge_param : Bytes
  pub application_param : Bytes
  pub key_handle : Bytes

-- The field `Data` is `payload` here; the two pointers are `none` where the source has nil.
pub record AuthenticatorRequest : Type 0 where
  pub command : ℕ
  pub param1 : ℕ
  pub payload : Bytes
  pub register : Option AuthenticatorRegisterReq
  pub authenticate : Option AuthenticatorAuthReq

pub data DecodeError : Type 0 where
  request_too_short : DecodeError
  register_size authenticate_size unknown_ctrl : ℕ → DecodeError
  key_handle_too_short : ℕ → ℕ → DecodeError

abbrev pub is_known_ctrl : ℕ → Bool
is_known_ctrl c =
    c == ctrl_check_only
    || c == ctrl_enforce_user_presence_and_sign
    || c == ctrl_dont_enforce_user_presence_and_sign

unfoldable pub decode_register : AuthenticatorRequest → Result DecodeError AuthenticatorRequest
decode_register req =
    if ltb (length req.payload) (32 + 32)
    then err (register_size (length req.payload))
    else ok (record req {
      register = some (record {
        challenge_param = take 32 req.payload;
        application_param = take 32 (drop 32 req.payload);
      });
    })

-- The key handle, behind its length byte.
unfoldable pub decode_key_handle :
    AuthenticatorRequest → ℕ → Bytes → Result DecodeError AuthenticatorRequest
decode_key_handle req kh_len rest =
    if ltb (length rest) kh_len
    then err (key_handle_too_short (length rest) kh_len)
    else ok (record req {
      authenticate = some (record {
        ctrl = req.param1;
        challenge_param = take 32 req.payload;
        application_param = take 32 (drop 32 req.payload);
        key_handle = take kh_len rest;
      });
    })

unfoldable pub decode_authenticate : AuthenticatorRequest → Result DecodeError AuthenticatorRequest
decode_authenticate req =
    if ltb (length req.payload) (32 + 32 + 2)
    then err (authenticate_size (length req.payload))
    else if is_known_ctrl req.param1
    then decode_key_handle req (get_or (drop 32 (drop 32 req.payload)) 0 0)
        (drop 1 (drop 32 (drop 32 req.payload)))
    else err (unknown_ctrl req.param1)

unfoldable pub decode_authenticator_request : Bytes → Result DecodeError AuthenticatorRequest
decode_authenticator_request raw =
    let req : AuthenticatorRequest = record {
      command = get_or raw 1 0;
      param1 = get_or raw 2 0;
      payload = drop 7 raw;
      register = none;
      authenticate = none;
    } in
    if ltb (length raw) 7
    then err request_too_short
    else if req.command == cmd_register
    then decode_register req
    else if req.command == cmd_authenticate
    then decode_authenticate req
    else ok req
