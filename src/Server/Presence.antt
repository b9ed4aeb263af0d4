-- ===== src/Server/Presence.antt =====
-- main.go: the CTAP1 handlers, followed back from a reported success.
use linux_id.Common.{
  ℕ, ◌%◌, ◌≡◌, ◌≢◌, ◌≤◌, refl, ap, ◌⊎◌, inl, inr, true, false, not, Option, none, some, ◌∷◌, ◌++◌,
  Bytes, be32, length, ltb, ltb_false→le, ◌==◌, ==_iff, if_cases, arith,
}
use linux_id.StatusCode.{no_error, conditions_not_satisfied, wrong_data}
use linux_id.U2f.Decode.{
  AuthenticatorAuthReq, AuthenticatorRegisterReq, is_known_ctrl, ctrl_check_only,
  ctrl_enforce_user_presence_and_sign, ctrl_dont_enforce_user_presence_and_sign,
}
use linux_id.Server.Types.{
  RegisteredKey, Signer, Services, Server, Ending, replied, u2f, dummy_text,
}
use linux_id.Server.U2f.{
  Presence, no_prompt, result, waited, deny, signed_data, registration_data, auth_signed,
  auth_counted, auth_sign, auth_present, auth_checked, handle_authenticate, register_signed,
  point_marshalled, site_registered, register_site, handle_register,
}

-- The result is a success that sends `d`.
abbrev pub Confirms : {S : Type 0} → Server S × Ending → Bytes → Type 0
Confirms r d = r.1 ≡ replied (u2f d no_error)

not_confirmed :
    {S : Type 0} (s : Server S) (status : ℕ) (d : Bytes)
    → status ≢ no_error
    → Confirms (s, deny status) d
    → ⊥
not_confirmed s status d n e = n (cc)

module _ {S : Type 0} (signer : Signer S) (lib : Services) where
  -- The signer was asked for a signature with this presence byte, and `d` is the response.
  pub record AuthSigned (k : S) (a : AuthenticatorAuthReq) (user_present : ℕ) (d : Bytes)
      : Type 0 where
    pub sig : Bytes
    pub made :
        (signer.sign_asn1
          (signer.counter k).0
          a.key_handle
          a.application_param
          (lib.sum256 (signed_data a user_present (signer.counter k).1))).1
        ≡ some sig
    pub response : d ≡ user_present ∷ (be32 (signer.counter k).1 ++ sig)

  auth_signed_ok :
      (s : Server S) (user_present count : ℕ) (r : S × Option Bytes) (d : Bytes)
      → Confirms (auth_signed signer lib s user_present count r) d
      → (sig : Bytes) × (r.1 ≡ some sig) × (d ≡ user_present ∷ (be32 count ++ sig))
  unfolding auth_signed
  auth_signed_ok s up count (k, none) d e = cc
  auth_signed_ok s up count (k, some sig) d e = (sig, refl, cc)

  auth_sign_ok :
      (s : Server S) (a : AuthenticatorAuthReq) (user_present : ℕ) (d : Bytes)
      → Confirms (auth_sign signer lib s a user_present) d
      → AuthSigned s.keys a user_present d
  unfolding auth_sign auth_counted
  auth_sign_ok s a up d e =
      let (sig, made, response) = auth_signed_ok s up _ _ d e in
      record { sig = sig; made = made; response = response }

  auth_present_ok :
      (s : Server S) (a : AuthenticatorAuthReq) (p : Presence) (d : Bytes)
      → Confirms (auth_present signer lib s a p) d
      → (p ≡ result true) × AuthSigned s.keys a 1 d
  unfolding auth_present
  auth_present_ok s a no_prompt d e =
      absurd (not_confirmed s conditions_not_satisfied d (ground arith) e)
  auth_present_ok s a waited d e =
      absurd (not_confirmed s conditions_not_satisfied d (ground arith) e)
  auth_present_ok s a (result true) d e = (refl, auth_sign_ok s a 1 d e)
  auth_present_ok s a (result false) d e = absurd (not_confirmed s wrong_data d (ground arith) e)

  -- The presence byte is 1 for a request that enforces presence, which the user then confirmed, and 0
  -- for one that does not.
  abbrev pub PresenceByte : AuthenticatorAuthReq → Presence → ℕ → Type 0
  PresenceByte a p up =
      ((a.ctrl ≡ ctrl_enforce_user_presence_and_sign) × (p ≡ result true) × (up ≡ 1))
      ⊎ ((a.ctrl ≡ ctrl_dont_enforce_user_presence_and_sign) × (up ≡ 0))

  other_ctrl :
      (c : ℕ)
      → not (is_known_ctrl c) ≡ false
      → (c == ctrl_check_only) ≡ false
      → (c == ctrl_enforce_user_presence_and_sign) ≡ false
      → c ≡ ctrl_dont_enforce_user_presence_and_sign
  other_ctrl c h i j = ground arith

  auth_checked_ok :
      (s : Server S) (a : AuthenticatorAuthReq) (p : Presence) (r : S × Option Bytes) (d : Bytes)
      → Confirms (auth_checked signer lib s a p r) d
      → (r.1 ≢ none) × ((up : ℕ) × PresenceByte a p up × AuthSigned r.0 a up d)
  unfolding auth_checked
  auth_checked_ok s a p (k, none) d e = absurd (not_confirmed s wrong_data d (ground arith) (cc))
  auth_checked_ok s a p (k, some sig) d h = (
    (λ z. cc),
    if_cases Goal (not (is_known_ctrl a.ctrl)) _ _
        (λ _ e. absurd (not_confirmed s wrong_data d (ground arith) (cc)))
        (λ known.
          if_cases Goal (a.ctrl == ctrl_check_only) _ _
            (λ _ e. absurd (not_confirmed s conditions_not_satisfied d (ground arith) (cc)))
            (λ not_check.
              if_cases Goal (a.ctrl == ctrl_enforce_user_presence_and_sign) _ _
                (λ enforce e.
                  let (given, signed) = auth_present_ok (record s { keys = k }) a p d e in
                  (1, inl ((==_iff _ _).0 enforce, given, refl), signed))
                (λ other e. (
                  0,
                  inr (other_ctrl a.ctrl known not_check other, refl),
                  auth_sign_ok (record s { keys = k }) a 0 d e,
                ))))
        h,
  )
    where
      Goal : Server S × Ending → Type 0
      Goal q = Confirms q d → (up : ℕ) × PresenceByte a p up × AuthSigned k a up d

  -- An authenticate request is answered with a signature only for a key handle that the signer
  -- accepted. The signed data and the response carry a presence byte that is 1 exactly when the
  -- request enforces presence, and then the user confirmed it; a check-only request is never signed.
  pub handle_authenticate_ok :
      (s : Server S) (a : AuthenticatorAuthReq) (p : Presence) (d : Bytes)
      → Confirms (handle_authenticate signer lib s a p) d
      → let r = signer.sign_asn1 s.keys a.key_handle a.application_param (lib.sum256 dummy_text) in
        (r.1 ≢ none) × ((up : ℕ) × PresenceByte a p up × AuthSigned r.0 a up d)
  unfolding handle_authenticate
  handle_authenticate_ok s a p d e = auth_checked_ok s a p _ d e

  -- A key was registered for the application, and `d` is the response for it.
  pub record SiteRegistered (s : Server S) (r : AuthenticatorRegisterReq) (d : Bytes) : Type 0 where
    pub key : RegisteredKey
    pub sig : Bytes
    pub new_key : (signer.register_key s.keys r.application_param).1 ≡ some key
    pub fits : length key.key_handle ≤ 255
    pub pub_key : Bytes
    pub on_curve : lib.marshal_point key.x key.y ≡ some pub_key
    pub attested : lib.attest (lib.sum256 (registration_data r key.key_handle pub_key)) ≡ some sig
    pub response :
        d ≡ 0x05 ∷ (pub_key ++ (length key.key_handle ∷ (key.key_handle ++ (lib.cert_der ++ sig))))

  register_signed_ok :
      (s : Server S) (key : RegisteredKey) (pub_key : Bytes) (o : Option Bytes) (d : Bytes)
      → length key.key_handle ≤ 255
      → Confirms (register_signed signer lib s key pub_key o) d
      → (sig : Bytes) × (o ≡ some sig)
        × (d
            ≡ 0x05
              ∷ (pub_key ++ (length key.key_handle ∷ (key.key_handle ++ (lib.cert_der ++ sig)))))
  unfolding register_signed
  register_signed_ok s key pub_key none d fits e = cc
  register_signed_ok s key pub_key (some sig) d fits e =
      let size : length key.key_handle % 256 ≡ length key.key_handle = omega arith in
      (sig, refl, rw size at (sent_bytes e))
    where
      sent_bytes : {x : Bytes} → replied (u2f x no_error) ≡ replied (u2f d no_error) → d ≡ x
      sent_bytes z = cc

  point_marshalled_ok :
      (s : Server S) (r : AuthenticatorRegisterReq) (key : RegisteredKey) (o : Option Bytes)
      (d : Bytes)
      → length key.key_handle ≤ 255
      → Confirms (point_marshalled signer lib s r key o) d
      → (pub_key : Bytes) × (sig : Bytes) × (o ≡ some pub_key)
        × (lib.attest (lib.sum256 (registration_data r key.key_handle pub_key)) ≡ some sig)
        × (d
            ≡ 0x05
              ∷ (pub_key ++ (length key.key_handle ∷ (key.key_handle ++ (lib.cert_der ++ sig)))))
  unfolding point_marshalled
  point_marshalled_ok s r key none d fits e = cc
  point_marshalled_ok s r key (some pub_key) d fits e =
      let (sig, attested, response) = register_signed_ok s key pub_key _ d fits e in
      (pub_key, sig, refl, attested, response)

  site_registered_ok :
      (s : Server S) (r : AuthenticatorRegisterReq) (o : S × Option RegisteredKey) (d : Bytes)
      → signer.register_key s.keys r.application_param ≡ o
      → Confirms (site_registered signer lib s r o) d
      → SiteRegistered s r d
  unfolding site_registered
  site_registered_ok s r (k, none) d h e = cc
  site_registered_ok s r (k, some key) d h e =
      if_cases Goal (ltb 255 (length key.key_handle)) _ _ (λ _ z. absurd (cc))
        (λ fits z.
          let small = ltb_false→le 255 (length key.key_handle) fits in
          let (pub_key, sig, on_curve, attested, response) =
            point_marshalled_ok (record s { keys = k }) r key _ d small z in
          record {
            key = key;
            sig = sig;
            new_key = ap (λ (x : S × Option RegisteredKey). x.1) h;
            fits = small;
            pub_key = pub_key;
            on_curve = on_curve;
            attested = attested;
            response = response;
          })
        e
    where
      Goal : Server S × Ending → Type 0
      Goal q = Confirms q d → SiteRegistered s r d

  -- A register request is answered with a new key only if the user confirmed it. The response holds
  -- the public key, the whole key handle behind a length byte that does not wrap, the certificate and
  -- a signature of the attestation key over the registration data.
  pub handle_register_ok :
      (s : Server S) (r : AuthenticatorRegisterReq) (p : Presence) (d : Bytes)
      → Confirms (handle_register signer lib s r p) d
      → (p ≡ result true) × SiteRegistered s r d
  unfolding handle_register register_site
  handle_register_ok s r no_prompt d e =
      absurd (not_confirmed s conditions_not_satisfied d (ground arith) e)
  handle_register_ok s r waited d e =
      absurd (not_confirmed s conditions_not_satisfied d (ground arith) e)
  handle_register_ok s r (result false) d e = absurd (not_confirmed s wrong_data d (ground arith) e)
  handle_register_ok s r (result true) d e = (refl, site_registered_ok s r _ d refl e)
