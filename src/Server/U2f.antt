-- ===== src/Server/U2f.antt =====
-- main.go: the CTAP1 handlers. What comes of `ConfirmPresence` and the 750 milliseconds of waiting is
-- an argument.
use linux_id.Common.{
  ℕ, ◌%◌, Bool, not, Option, none, some, [], ◌∷◌, ◌++◌, Bytes, be32, codes, length, ltb, ◌==◌,
  if◌then◌else◌,
}
use linux_id.StatusCode.{no_error, conditions_not_satisfied, wrong_data, cla_not_supported}
use linux_id.U2f.Decode.{
  AuthenticatorRequest, AuthenticatorAuthReq, AuthenticatorRegisterReq, is_known_ctrl,
  ctrl_check_only, ctrl_enforce_user_presence_and_sign, cmd_register, cmd_authenticate, cmd_version,
}
use linux_id.Server.Types.{
  RegisteredKey, Signer, Services, Server, u2f, Ending, replied, silent, fatal, panicked,
  dummy_text,
}

-- `ConfirmPresence` fails, the dialog's result arrives in time, or the time is over.
pub data Presence : Type 0 where
  no_prompt : Presence
  result : Bool → Presence
  waited : Presence

abbrev pub deny : ℕ → Ending
deny status = replied (u2f [] status)

unfoldable pub handle_version : Ending
handle_version = replied (u2f (codes "U2F_V2") no_error)

-- What is signed: the application, the presence byte, the counter, the challenge.
unfoldable pub signed_data : AuthenticatorAuthReq → ℕ → ℕ → Bytes
signed_data a user_present count =
    a.application_param ++ (user_present ∷ (be32 count ++ a.challenge_param))

-- What is signed at a registration.
unfoldable pub registration_data : AuthenticatorRegisterReq → Bytes → Bytes → Bytes
registration_data r key_handle pub_key =
    0 ∷ (r.application_param ++ (r.challenge_param ++ (key_handle ++ pub_key)))

module _ {S : Type 0} (signer : Signer S) (lib : Services) where
  unfoldable pub auth_signed : Server S → ℕ → ℕ → S × Option Bytes → Server S × Ending
  auth_signed s user_present count (k, none) = (record s { keys = k }, fatal)
  auth_signed s user_present count (k, some sig) =
      (record s { keys = k }, replied (u2f (user_present ∷ (be32 count ++ sig)) no_error))

  unfoldable pub auth_counted : Server S → AuthenticatorAuthReq → ℕ → S × ℕ → Server S × Ending
  auth_counted s a user_present (k, count) = auth_signed s user_present count (
      signer.sign_asn1 k a.key_handle a.application_param
        (lib.sum256 (signed_data a user_present count)))

  -- With the presence byte: the counter is read and the data signed.
  unfoldable pub auth_sign : Server S → AuthenticatorAuthReq → ℕ → Server S × Ending
  auth_sign s a user_present = auth_counted s a user_present (signer.counter s.keys)

  unfoldable pub auth_present : Server S → AuthenticatorAuthReq → Presence → Server S × Ending
  auth_present s a no_prompt = (s, deny conditions_not_satisfied)
  auth_present s a waited = (s, deny conditions_not_satisfied)
  auth_present s a (result confirmed) =
      if confirmed then auth_sign s a 0x01 else (s, deny wrong_data)

  unfoldable pub auth_checked :
      Server S → AuthenticatorAuthReq → Presence → S × Option Bytes → Server S × Ending
  auth_checked s a p (k, none) = (record s { keys = k }, deny wrong_data)
  auth_checked s a p (k, some sig) =
      if not (is_known_ctrl a.ctrl)
      then (record s { keys = k }, deny wrong_data)
      else if a.ctrl == ctrl_check_only
      then (record s { keys = k }, deny conditions_not_satisfied)
      else if a.ctrl == ctrl_enforce_user_presence_and_sign
      then auth_present (record s { keys = k }) a p
      else auth_sign (record s { keys = k }) a 0x00

  -- First the key handle is tried on a dummy hash.
  unfoldable pub handle_authenticate :
      Server S → AuthenticatorAuthReq → Presence → Server S × Ending
  handle_authenticate s a p =
      auth_checked s a p
        (signer.sign_asn1 s.keys a.key_handle a.application_param (lib.sum256 dummy_text))

  -- The response of a registration: 5, the public key, the counted key handle, the certificate and
  -- the signature of the attestation key.
  unfoldable pub register_signed :
      Server S → RegisteredKey → Bytes → Option Bytes → Server S × Ending
  register_signed s key pub_key none = (s, fatal)
  register_signed s key pub_key (some sig) = (
    s,
    replied (
        u2f
          (0x05
            ∷ (pub_key
                ++ ((length key.key_handle % 256) ∷ (key.key_handle ++ (lib.cert_der ++ sig)))))
          no_error),
  )

  -- elliptic.Marshal panics for a point that is not on the curve.
  unfoldable pub point_marshalled :
      Server S → AuthenticatorRegisterReq → RegisteredKey → Option Bytes → Server S × Ending
  point_marshalled s r key none = (s, panicked)
  point_marshalled s r key (some pub_key) =
      register_signed s key pub_key
        (lib.attest (lib.sum256 (registration_data r key.key_handle pub_key)))

  unfoldable pub site_registered :
      Server S → AuthenticatorRegisterReq → S × Option RegisteredKey → Server S × Ending
  site_registered s r (k, none) = (record s { keys = k }, silent)
  site_registered s r (k, some key) =
      if ltb 255 (length key.key_handle)
      then (record s { keys = k }, silent)
      else point_marshalled (record s { keys = k }) r key (lib.marshal_point key.x key.y)

  unfoldable pub register_site : Server S → AuthenticatorRegisterReq → Server S × Ending
  register_site s r = site_registered s r (signer.register_key s.keys r.application_param)

  unfoldable pub handle_register :
      Server S → AuthenticatorRegisterReq → Presence → Server S × Ending
  handle_register s r no_prompt = (s, deny conditions_not_satisfied)
  handle_register s r waited = (s, deny conditions_not_satisfied)
  handle_register s r (result confirmed) =
      if confirmed then register_site s r else (s, deny wrong_data)

  -- The handlers dereference the part of the request for its command; a nil part is a panic.
  unfoldable pub authenticate_part :
      Server S → Option AuthenticatorAuthReq → Presence → Server S × Ending
  authenticate_part s none p = (s, panicked)
  authenticate_part s (some a) p = handle_authenticate s a p

  unfoldable pub register_part :
      Server S → Option AuthenticatorRegisterReq → Presence → Server S × Ending
  register_part s none p = (s, panicked)
  register_part s (some r) p = handle_register s r p

  -- The part of the loop of `run` behind the tests for CBOR and for errors.
  unfoldable pub run_u2f : Server S → AuthenticatorRequest → Presence → Server S × Ending
  run_u2f s req p =
      if req.command == cmd_authenticate
      then authenticate_part s req.authenticate p
      else if req.command == cmd_register
      then register_part s req.register p
      else if req.command == cmd_version
      then (s, handle_version)
      else (s, deny cla_not_supported)
