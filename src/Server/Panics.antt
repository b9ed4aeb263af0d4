-- ===== src/Server/Panics.antt =====
-- main.go: the pointers into a request that the U2F part of `run` dereferences.
use linux_id.Common.{
  ℕ, ◌≡◌, ◌≢◌, refl, true, false, not, Option, none, some, Bytes, Result, ok, err, ltb, length,
  ◌==◌, ==_iff, if_cases,
}
use linux_id.Hid.Run.{msg_event}
use linux_id.U2f.Decode.{
  AuthenticatorRequest, AuthenticatorAuthReq, AuthenticatorRegisterReq, DecodeError, cmd_register,
  cmd_authenticate, cmd_version, decode_authenticator_request, is_known_ctrl, ctrl_check_only,
  ctrl_enforce_user_presence_and_sign,
}
use linux_id.U2f.Laws.{IsDecoded, IsRegister, IsAuthenticate, decode-IsDecoded}
use linux_id.Verifier.{Prompt}
use linux_id.Server.Types.{RegisteredKey, Signer, Services, Server, Ending, panicked}
use linux_id.Server.U2f.{
  Presence, no_prompt, result, waited, auth_signed, auth_counted, auth_sign, auth_present,
  auth_checked, handle_authenticate, register_signed, point_marshalled, site_registered,
  register_site, handle_register, authenticate_part, register_part, run_u2f, handle_version,
}
use linux_id.Server.Run.{run_request, run_event}

-- The handler did not panic.
abbrev pub Survives : {S : Type 0} → Server S × Ending → Type 0
Survives r = r.1 ≢ panicked

module _ {S : Type 0} (signer : Signer S) (lib : Services) where
  -- elliptic.Marshal takes the point of a new key.
  abbrev pub OnCurve : Option RegisteredKey → Type 0
  OnCurve none = Unit {0}
  OnCurve (some key) = (b : Bytes) × (lib.marshal_point key.x key.y ≡ some b)

module _ {S : Type 0} (signer : Signer S) (lib : Services)
    (curve : (k : S) (a : Bytes) → OnCurve signer lib (signer.register_key k a).1) where
  signed-Survives :
      (s : Server S) (up count : ℕ) (r : S × Option Bytes)
      → Survives (auth_signed signer lib s up count r)
  unfolding auth_signed
  signed-Survives s up count (k, none) = λ e. cc
  signed-Survives s up count (k, some sig) = λ e. cc

  auth_sign-Survives :
      (s : Server S) (a : AuthenticatorAuthReq) (up : ℕ) → Survives (auth_sign signer lib s a up)
  unfolding auth_sign auth_counted
  auth_sign-Survives s a up = signed-Survives _ up _ _

  present-Survives :
      (s : Server S) (a : AuthenticatorAuthReq) (p : Presence)
      → Survives (auth_present signer lib s a p)
  unfolding auth_present
  present-Survives s a no_prompt = λ e. cc
  present-Survives s a waited = λ e. cc
  present-Survives s a (result true) = auth_sign-Survives s a 1
  present-Survives s a (result false) = λ e. cc

  checked-Survives :
      (s : Server S) (a : AuthenticatorAuthReq) (p : Presence) (r : S × Option Bytes)
      → Survives (auth_checked signer lib s a p r)
  unfolding auth_checked
  checked-Survives s a p (k, none) = λ e. cc
  checked-Survives s a p (k, some sig) =
      if_cases {A = Server S × Ending} Survives (not (is_known_ctrl a.ctrl)) _ _ (λ _ e. cc)
        λ _.
          if_cases {A = Server S × Ending} Survives (a.ctrl == ctrl_check_only) _ _ (λ _ e. cc)
            λ _.
              if_cases {A = Server S × Ending} Survives
                (a.ctrl == ctrl_enforce_user_presence_and_sign) _ _ (λ _. present-Survives _ a p)
                (λ _. auth_sign-Survives _ a 0)

  signed_site-Survives :
      (s : Server S) (key : RegisteredKey) (b : Bytes) (o : Option Bytes)
      → Survives (register_signed signer lib s key b o)
  unfolding register_signed
  signed_site-Survives s key b none = λ e. cc
  signed_site-Survives s key b (some sig) = λ e. cc

  point-Survives :
      (s : Server S) (r : AuthenticatorRegisterReq) (key : RegisteredKey) (o : Option Bytes)
      (b : Bytes)
      → o ≡ some b
      → Survives (point_marshalled signer lib s r key o)
  unfolding point_marshalled
  point-Survives s r key none b h = cc
  point-Survives s r key (some pub_key) b h = signed_site-Survives s key pub_key _

  site-Survives :
      (s : Server S) (r : AuthenticatorRegisterReq) (o : S × Option RegisteredKey)
      → OnCurve signer lib o.1
      → Survives (site_registered signer lib s r o)
  unfolding site_registered
  site-Survives s r (k, none) on = λ e. cc
  site-Survives s r (k, some key) on =
      if_cases {A = Server S × Ending} Survives (ltb 255 (length key.key_handle)) _ _ (λ _ e. cc)
        (λ _. point-Survives _ r key _ on.0 on.1)

  register-Survives :
      (s : Server S) (r : AuthenticatorRegisterReq) (p : Presence)
      → Survives (handle_register signer lib s r p)
  unfolding handle_register register_site
  register-Survives s r no_prompt = λ e. cc
  register-Survives s r waited = λ e. cc
  register-Survives s r (result true) = site-Survives s r _ (curve s.keys r.application_param)
  register-Survives s r (result false) = λ e. cc

  authenticate_part-Survives :
      (s : Server S) (o : Option AuthenticatorAuthReq) (p : Presence) (param1 : ℕ) (b : Bytes)
      → IsAuthenticate o param1 b
      → Survives (authenticate_part signer lib s o p)
  unfolding authenticate_part handle_authenticate
  authenticate_part-Survives s none p param1 b h = absurd h
  authenticate_part-Survives s (some a) p param1 b h = checked-Survives s a p _

  register_part-Survives :
      (s : Server S) (o : Option AuthenticatorRegisterReq) (p : Presence) (b : Bytes)
      → IsRegister o b
      → Survives (register_part signer lib s o p)
  unfolding register_part
  register_part-Survives s none p b h = absurd h
  register_part-Survives s (some r) p b h = register-Survives s r p

  decoded-Survives :
      (s : Server S) (raw : Bytes) (req : AuthenticatorRequest) (p : Presence)
      → IsDecoded raw req
      → Survives (run_u2f signer lib s req p)
  unfolding run_u2f handle_version
  decoded-Survives s raw req p h =
      if_cases {A = Server S × Ending} Survives (req.command == cmd_authenticate) _ _
        (λ e.
          authenticate_part-Survives s req.authenticate p _ _
            (h.authenticate_part ((==_iff _ _).0 e)))
        λ _.
          if_cases {A = Server S × Ending} Survives (req.command == cmd_register) _ _
            (λ e. register_part-Survives s req.register p _ (h.register_part ((==_iff _ _).0 e)))
            λ _.
              if_cases {A = Server S × Ending} Survives (req.command == cmd_version) _ _ (λ _ e. cc)
                (λ _ e. cc)

  event-Survives :
      (s : Server S) (chan_id : ℕ) (raw : Bytes) (r : Result DecodeError AuthenticatorRequest)
      (p : Prompt) (q : Presence)
      → decode_authenticator_request raw ≡ r
      → Survives (run_event signer lib s (msg_event chan_id r) p q)
  unfolding run_event run_request msg_event
  event-Survives s chan_id raw (err x) p q h = λ e. cc
  event-Survives s chan_id raw (ok req) p q h =
      decoded-Survives s raw req q (decode-IsDecoded raw req h)

  -- If the point of every key that the signer makes is on the curve: the event that the transport
  -- makes of a U2F message, whatever its bytes, never leads the server's own code to a panic, neither
  -- at a part of the request that is not there nor in elliptic.Marshal. A signer is configured and its
  -- calls return.
  pub run_event-Survives :
      (s : Server S) (chan_id : ℕ) (raw : Bytes) (p : Prompt) (q : Presence)
      → Survives (run_event signer lib s (msg_event chan_id (decode_authenticator_request raw)) p q)
  run_event-Survives s chan_id raw p q = event-Survives s chan_id raw _ p q refl
