-- ===== src/Server/U2fReplies.antt =====
-- main.go: the responses of the U2F handlers.
use linux_id.Common.{
  ℕ, ◌≤◌, ◌<◌, ◌≡◌, refl, ◌∙◌, true, false, not, Bool-cases, inl, inr, Option, none, some, Bytes,
  ok, length, ◌==◌, ==_iff, if_cases, le→ltb_false, arith,
}
use mathlib.Core.Path.{subst}
use linux_id.Hid.Run.{msg_event}
use linux_id.U2f.Decode.{
  AuthenticatorRequest, AuthenticatorAuthReq, AuthenticatorRegisterReq, cmd_register,
  cmd_authenticate, cmd_version, decode_authenticator_request, is_known_ctrl, ctrl_check_only,
  ctrl_enforce_user_presence_and_sign,
}
use linux_id.U2f.Laws.{IsDecoded, IsRegister, IsAuthenticate, decode-IsDecoded}
use linux_id.Verifier.{Prompt}
use linux_id.Server.Types.{
  RegisteredKey, Signer, Services, Server, Ending, replied, u2f, dummy_text,
}
use linux_id.Server.SignerLaws.{SignerLaws, Hashes}
use linux_id.Server.U2f.{
  Presence, no_prompt, result, waited, auth_signed, auth_counted, auth_sign, auth_present,
  auth_checked, handle_authenticate, register_signed, point_marshalled, site_registered,
  register_site, handle_register, authenticate_part, register_part, run_u2f, handle_version,
  registration_data, signed_data,
}
use linux_id.Server.Run.{run_request, run_event}

-- The handler sends one response, with a status word that is not zero.
abbrev pub AnswersU2f : {S : Type 0} → Server S × Ending → Type 0
AnswersU2f r =
    (payload : Bytes) × (status : ℕ) × (r.1 ≡ replied (u2f payload status)) × (0 < status)

-- What a registration relies on: for an application of
-- 32 bytes the signer makes a key whose handle fits its length byte, and the
-- attestation key signs.
pub record Registers {S : Type 0} (signer : Signer S) (lib : Services) : Type 0 where
  pub registers :
      (k : S) (a : Bytes)
      → length a ≡ 32
      → (key : RegisteredKey) × ((signer.register_key k a).1 ≡ some key)
        × (length key.key_handle ≤ 255)
        × ((pub_key : Bytes) × (lib.marshal_point key.x key.y ≡ some pub_key))
  pub attests : (digest : Bytes) → (sig : Bytes) × (lib.attest digest ≡ some sig)

module _ {S : Type 0} (signer : Signer S) (lib : Services) (laws : SignerLaws signer)
    (sums : Hashes lib) (able : Registers signer lib) where
  signed-AnswersU2f :
      (s : Server S) (up count : ℕ) (r : S × Option Bytes) (sig : Bytes)
      → r.1 ≡ some sig
      → AnswersU2f (auth_signed signer lib s up count r)
  unfolding auth_signed
  signed-AnswersU2f s up count (k, none) sig e = cc
  signed-AnswersU2f s up count (k, some x) sig e = (_, _, refl, omega arith)

  sign-AnswersU2f :
      (s : Server S) (a : AuthenticatorAuthReq) (up : ℕ)
      → laws.accepts s.keys a.key_handle a.application_param ≡ true
      → AnswersU2f (auth_sign signer lib s a up)
  unfolding auth_sign auth_counted
  sign-AnswersU2f s a up good =
      let (sig, e) =
        laws.sign_good (signer.counter s.keys).0 a.key_handle a.application_param
          (lib.sum256 (signed_data a up (signer.counter s.keys).1))
          (laws.counter_keeps s.keys a.key_handle a.application_param ∙ good)
          (sums (signed_data a up (signer.counter s.keys).1)) in
      signed-AnswersU2f s up (signer.counter s.keys).1 _ sig e

  present-AnswersU2f :
      (s : Server S) (a : AuthenticatorAuthReq) (p : Presence)
      → laws.accepts s.keys a.key_handle a.application_param ≡ true
      → AnswersU2f (auth_present signer lib s a p)
  unfolding auth_present
  present-AnswersU2f s a no_prompt good = (_, _, refl, omega arith)
  present-AnswersU2f s a waited good = (_, _, refl, omega arith)
  present-AnswersU2f s a (result true) good = sign-AnswersU2f s a 1 good
  present-AnswersU2f s a (result false) good = (_, _, refl, omega arith)

  checked-AnswersU2f :
      (s : Server S) (a : AuthenticatorAuthReq) (p : Presence) (r : S × Option Bytes)
      → ((sig : Bytes) → r.1 ≡ some sig → laws.accepts r.0 a.key_handle a.application_param ≡ true)
      → AnswersU2f (auth_checked signer lib s a p r)
  unfolding auth_checked
  checked-AnswersU2f s a p (k, none) good = (_, _, refl, omega arith)
  checked-AnswersU2f s a p (k, some sig) good =
      if_cases {A = Server S × Ending} AnswersU2f (not (is_known_ctrl a.ctrl)) _ _
        (λ _. (_, _, refl, omega arith))
        λ _.
          if_cases {A = Server S × Ending} AnswersU2f (a.ctrl == ctrl_check_only) _ _
            (λ _. (_, _, refl, omega arith))
            λ _.
              if_cases {A = Server S × Ending} AnswersU2f
                (a.ctrl == ctrl_enforce_user_presence_and_sign) _ _
                (λ _. present-AnswersU2f _ a p (good sig refl))
                (λ _. sign-AnswersU2f _ a 0 (good sig refl))

  -- A key handle that signed once is good, and stays good.
  tried-good :
      (k : S) (h a d sig : Bytes)
      → (signer.sign_asn1 k h a d).1 ≡ some sig
      → laws.accepts (signer.sign_asn1 k h a d).0 h a ≡ true
  tried-good k h a d sig e = elim (Bool-cases (laws.accepts k h a)) [
    | inl good ↦ laws.sign_keeps k h a d h a ∙ good
    | inr bad ↦
        let none_there : (signer.sign_asn1 k h a d).1 ≡ none = laws.sign_bad k h a d bad in cc
  ]

  authenticate-AnswersU2f :
      (s : Server S) (a : AuthenticatorAuthReq) (p : Presence)
      → AnswersU2f (handle_authenticate signer lib s a p)
  unfolding handle_authenticate
  authenticate-AnswersU2f s a p =
      checked-AnswersU2f s a p _
        (tried-good s.keys a.key_handle a.application_param (lib.sum256 dummy_text))

  register_signed-AnswersU2f :
      (s : Server S) (key : RegisteredKey) (b : Bytes) (o : Option Bytes) (sig : Bytes)
      → o ≡ some sig
      → AnswersU2f (register_signed signer lib s key b o)
  unfolding register_signed
  register_signed-AnswersU2f s key b none sig e = cc
  register_signed-AnswersU2f s key b (some x) sig e = (_, _, refl, omega arith)

  point-AnswersU2f :
      (s : Server S) (r : AuthenticatorRegisterReq) (key : RegisteredKey) (o : Option Bytes)
      (b : Bytes)
      → o ≡ some b
      → AnswersU2f (point_marshalled signer lib s r key o)
  unfolding point_marshalled
  point-AnswersU2f s r key none b e = cc
  point-AnswersU2f s r key (some pub_key) b e =
      let (sig, attested) =
        able.attests (lib.sum256 (registration_data r key.key_handle pub_key)) in
      register_signed-AnswersU2f s key pub_key _ sig attested

  site-AnswersU2f :
      (s : Server S) (r : AuthenticatorRegisterReq) (o : S × Option RegisteredKey)
      (key : RegisteredKey) (pub_key : Bytes)
      → o.1 ≡ some key
      → length key.key_handle ≤ 255
      → lib.marshal_point key.x key.y ≡ some pub_key
      → AnswersU2f (site_registered signer lib s r o)
  unfolding site_registered
  site-AnswersU2f s r (k, none) key pub_key e h on = cc
  site-AnswersU2f s r (k, some x) key pub_key e h on =
      let same : key ≡ x = cc in
      let small : length x.key_handle ≤ 255 =
        subst (λ (y : RegisteredKey). length y.key_handle ≤ 255) same h in
      let point : lib.marshal_point x.x x.y ≡ some pub_key =
        subst (λ (y : RegisteredKey). lib.marshal_point y.x y.y ≡ some pub_key) same on in
      rw (le→ltb_false 255 (length x.key_handle) small) (point-AnswersU2f _ r x _ pub_key point)

  register-AnswersU2f :
      (s : Server S) (r : AuthenticatorRegisterReq) (p : Presence)
      → length r.application_param ≡ 32
      → AnswersU2f (handle_register signer lib s r p)
  unfolding handle_register register_site
  register-AnswersU2f s r no_prompt h = (_, _, refl, omega arith)
  register-AnswersU2f s r waited h = (_, _, refl, omega arith)
  register-AnswersU2f s r (result true) h =
      let (key, e, small, (pub_key, on)) = able.registers s.keys r.application_param h in
      site-AnswersU2f s r _ key pub_key e small on
  register-AnswersU2f s r (result false) h = (_, _, refl, omega arith)

  authenticate_part-AnswersU2f :
      (s : Server S) (o : Option AuthenticatorAuthReq) (p : Presence) (param1 : ℕ) (b : Bytes)
      → IsAuthenticate o param1 b
      → AnswersU2f (authenticate_part signer lib s o p)
  unfolding authenticate_part
  authenticate_part-AnswersU2f s none p param1 b h = absurd h
  authenticate_part-AnswersU2f s (some a) p param1 b h = authenticate-AnswersU2f s a p

  register_part-AnswersU2f :
      (s : Server S) (o : Option AuthenticatorRegisterReq) (p : Presence) (b : Bytes)
      → IsRegister o b
      → AnswersU2f (register_part signer lib s o p)
  unfolding register_part
  register_part-AnswersU2f s none p b h = absurd h
  register_part-AnswersU2f s (some r) p b h = register-AnswersU2f s r p h.1

  decoded-AnswersU2f :
      (s : Server S) (raw : Bytes) (req : AuthenticatorRequest) (p : Presence)
      → IsDecoded raw req
      → AnswersU2f (run_u2f signer lib s req p)
  unfolding run_u2f handle_version
  decoded-AnswersU2f s raw req p h =
      if_cases {A = Server S × Ending} AnswersU2f (req.command == cmd_authenticate) _ _
        (λ e.
          authenticate_part-AnswersU2f s req.authenticate p _ _
            (h.authenticate_part ((==_iff _ _).0 e)))
        λ _.
          if_cases {A = Server S × Ending} AnswersU2f (req.command == cmd_register) _ _
            (λ e. register_part-AnswersU2f s req.register p _ (h.register_part ((==_iff _ _).0 e)))
            λ _.
              if_cases {A = Server S × Ending} AnswersU2f (req.command == cmd_version) _ _
                (λ _. (_, _, refl, omega arith)) (λ _. (_, _, refl, omega arith))

  -- Every U2F message that decodes is answered by exactly one response with a status word.
  pub run_event-AnswersU2f :
      (s : Server S) (chan_id : ℕ) (raw : Bytes) (req : AuthenticatorRequest) (p : Prompt)
      (q : Presence)
      → decode_authenticator_request raw ≡ ok req
      → AnswersU2f (run_event signer lib s (msg_event chan_id (ok req)) p q)
  unfolding run_event run_request msg_event
  run_event-AnswersU2f s chan_id raw req p q e =
      decoded-AnswersU2f s raw req q (decode-IsDecoded raw req e)
