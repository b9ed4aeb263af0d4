-- ===== src/U2f/RoundTrip.antt =====
-- fidoauth/fidoauth.go: requests as a browser lays them out, read back by `DecodeAuthenticatorRequest`.
use linux_id.Common.{
  ℕ, ◌+◌, ◌<◌, ◌≡◌, refl, true, none, some, ◌∷◌, ◌++◌, Bytes, ok, length, length-append,
  take-append_of_eq, drop-append_of_eq, le→ltb_false, arith,
}
use linux_id.U2f.Decode.{
  AuthenticatorAuthReq, AuthenticatorRegisterReq, decode_register, decode_key_handle,
  decode_authenticate, decode_authenticator_request, cmd_register, cmd_authenticate, is_known_ctrl,
}

-- Class, command, two parameters and three length bytes, of which the decoder reads two.
abbrev pub request : ℕ → ℕ → Bytes → Bytes
request command param1 body = 0 ∷ command ∷ param1 ∷ 0 ∷ 0 ∷ 0 ∷ length body ∷ body

abbrev register_body : AuthenticatorRegisterReq → Bytes → Bytes
register_body r rest = r.challenge_param ++ (r.application_param ++ rest)

abbrev authenticate_body : AuthenticatorAuthReq → Bytes → Bytes
authenticate_body a rest =
    a.challenge_param ++ (a.application_param ++ (length a.key_handle ∷ (a.key_handle ++ rest)))

-- A register request with two parameters of 32 bytes is read back, whatever bytes follow it.
decode-register_body :
    (r : AuthenticatorRegisterReq) (param1 : ℕ) (rest : Bytes)
    → length r.challenge_param ≡ 32
    → length r.application_param ≡ 32
    → decode_authenticator_request (request cmd_register param1 (register_body r rest))
      ≡ ok (record {
        command = cmd_register;
        param1 = param1;
        payload = register_body r rest;
        register = some r;
        authenticate = none;
      })
unfolding decode_authenticator_request decode_register
decode-register_body r param1 rest hc ha = rw (
  le→ltb_false (length (request cmd_register param1 (register_body r rest))) 7 (omega arith),
  le→ltb_false (length (register_body r rest)) 64 (
      omega (
        arith,
        length-append r.challenge_param (r.application_param ++ rest),
        length-append r.application_param rest,
      )),
  take-append_of_eq 32 r.challenge_param (r.application_param ++ rest) hc,
  drop-append_of_eq 32 r.challenge_param (r.application_param ++ rest) hc,
  take-append_of_eq 32 r.application_param rest ha,
)

-- An authenticate request with two parameters of 32 bytes and a known control byte is read back,
-- whatever bytes follow it; a byte must follow an empty key handle.
decode-authenticate_body :
    (a : AuthenticatorAuthReq) (rest : Bytes)
    → length a.challenge_param ≡ 32
    → length a.application_param ≡ 32
    → is_known_ctrl a.ctrl ≡ true
    → 0 < length a.key_handle + length rest
    → decode_authenticator_request (request cmd_authenticate a.ctrl (authenticate_body a rest))
      ≡ ok (record {
        command = cmd_authenticate;
        param1 = a.ctrl;
        payload = authenticate_body a rest;
        register = none;
        authenticate = some a;
      })
unfolding decode_authenticator_request decode_authenticate decode_key_handle
decode-authenticate_body a rest hc ha hk hl =
    let body : Bytes = authenticate_body a rest in
    let tail : Bytes = length a.key_handle ∷ (a.key_handle ++ rest) in
    let size : length body ≡ 65 + length a.key_handle + length rest = omega (
      arith,
      length-append a.challenge_param (a.application_param ++ tail),
      length-append a.application_param tail,
      length-append a.key_handle rest,
    ) in
    rw (
      le→ltb_false (length (request cmd_authenticate a.ctrl body)) 7 (omega arith),
      le→ltb_false (length body) 66 (omega arith),
      hk,
      take-append_of_eq 32 a.challenge_param (a.application_param ++ tail) hc,
      drop-append_of_eq 32 a.challenge_param (a.application_param ++ tail) hc,
      take-append_of_eq 32 a.application_param tail ha,
      drop-append_of_eq 32 a.application_param tail ha,
      le→ltb_false (length (a.key_handle ++ rest)) (length a.key_handle)
          (omega (arith, length-append a.key_handle rest)),
      take-append_of_eq (length a.key_handle) a.key_handle rest refl,
    )
