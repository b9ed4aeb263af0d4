-- ===== src/U2f/Laws.antt =====
-- fidoauth/fidoauth.go: what `DecodeAuthenticatorRequest` accepts, and what it returns.
use linux_id.Common.{
  ℕ, ◌+◌, ◌≤◌, ◌<◌, ◌≡◌, refl, sym, ap, ◌⊎◌, ◌≢◌, true, false, Option, none, some, [], ◌∷◌, ◌++◌,
  Bytes, ok, length, length-take, length-drop, take, drop, get_or, take-append-drop, ltb, ◌==◌,
  if_cases, Ensures, Ensures-ok, ltb_false→le, ==_iff, arith,
}
use linux_id.U2f.Decode.{
  AuthenticatorRequest, AuthenticatorRegisterReq, AuthenticatorAuthReq, cmd_register,
  cmd_authenticate, ctrl_check_only, ctrl_enforce_user_presence_and_sign,
  ctrl_dont_enforce_user_presence_and_sign, is_known_ctrl, decode_register, decode_key_handle,
  decode_authenticate, decode_authenticator_request,
}

-- The control bytes that the protocol knows.
abbrev pub IsKnownCtrl : ℕ → Type 0
IsKnownCtrl c =
    (c ≡ ctrl_check_only)
    ⊎ (c ≡ ctrl_enforce_user_presence_and_sign)
    ⊎ (c ≡ ctrl_dont_enforce_user_presence_and_sign)

abbrev pub IsRegister : Option AuthenticatorRegisterReq → Bytes → Type 0
IsRegister none payload = ⊥
IsRegister (some r) payload =
    (length r.challenge_param ≡ 32)
    × (length r.application_param ≡ 32)
    × ((rest : Bytes) × (payload ≡ r.challenge_param ++ (r.application_param ++ rest)))

abbrev pub IsAuthenticate : Option AuthenticatorAuthReq → ℕ → Bytes → Type 0
IsAuthenticate none param1 payload = ⊥
IsAuthenticate (some a) param1 payload =
    (a.ctrl ≡ param1)
    × IsKnownCtrl a.ctrl
    × (length a.challenge_param ≡ 32)
    × (length a.application_param ≡ 32)
    × ((rest : Bytes) × (payload
          ≡ a.challenge_param
            ++ (a.application_param ++ (length a.key_handle ∷ (a.key_handle ++ rest)))))

-- A request in which the part for its command, and no other, is set, and is what the bytes say.
pub record IsDecoded (raw : Bytes) (req : AuthenticatorRequest) : Type 0 where
  pub long_enough : 7 ≤ length raw
  pub command_byte : req.command ≡ get_or raw 1 0
  pub param_byte : req.param1 ≡ get_or raw 2 0
  pub body : req.payload ≡ drop 7 raw
  pub register_part : req.command ≡ cmd_register → IsRegister req.register req.payload
  pub no_register : req.command ≢ cmd_register → req.register ≡ none
  pub authenticate_part :
      req.command ≡ cmd_authenticate → IsAuthenticate req.authenticate req.param1 req.payload
  pub no_authenticate : req.command ≢ cmd_authenticate → req.authenticate ≡ none

two_cuts : (xs : Bytes) → take 32 xs ++ (take 32 (drop 32 xs) ++ drop 32 (drop 32 xs)) ≡ xs
two_cuts xs = rw (take-append-drop 32 (drop 32 xs), take-append-drop 32 xs)

-- Bytes that begin with a length, cut into the length, what it counts and a rest.
counted_cut :
    (xs : Bytes)
    → 0 < length xs
    → get_or xs 0 0 ≤ length (drop 1 xs)
    → (length (take (get_or xs 0 0) (drop 1 xs))
        ∷ (take (get_or xs 0 0) (drop 1 xs) ++ drop (get_or xs 0 0) (drop 1 xs)))
      ≡ xs
counted_cut [] h k = absurd (omega arith)
counted_cut (x ∷ xs) h k =
    rw (take-append-drop x xs) (ap (λ (n : ℕ). n ∷ xs) (omega (arith, length-take x xs)))

known_ctrl : (c : ℕ) → is_known_ctrl c ≡ true → IsKnownCtrl c
known_ctrl c h = ground arith

length-cut : (xs : Bytes) (n k : ℕ) → n + k ≤ length xs → length (take n (drop k xs)) ≡ n
length-cut xs n k h = omega (arith, length-take n (drop k xs), length-drop k xs)

module _ (raw : Bytes) (q : AuthenticatorRequest) where
  -- The request before its part is decoded.
  record IsPlain : Type 0 where
    long_enough : 7 ≤ length raw
    command_byte : q.command ≡ get_or raw 1 0
    param_byte : q.param1 ≡ get_or raw 2 0
    body : q.payload ≡ drop 7 raw
    plain_register : q.register ≡ none
    plain_authenticate : q.authenticate ≡ none

decode_register-Ensures :
    (raw : Bytes) (q : AuthenticatorRequest)
    → IsPlain raw q
    → q.command ≡ cmd_register
    → Ensures (IsDecoded raw) (decode_register q)
unfolding decode_register
decode_register-Ensures raw q p e =
    if_cases (Ensures (IsDecoded raw)) (ltb (length q.payload) (32 + 32)) _ _ (λ _. tt)
      λ fits. record {
        long_enough = p.long_enough;
        command_byte = p.command_byte;
        param_byte = p.param_byte;
        body = p.body;
        register_part = λ _. (
          omega (arith, length-take 32 q.payload, ltb_false→le _ _ fits),
          length-cut q.payload 32 32 (ltb_false→le _ _ fits),
          (drop 32 (drop 32 q.payload), sym (two_cuts q.payload)),
        );
        no_register = λ ne. absurd (ne e);
        authenticate_part = λ a. absurd (omega arith);
        no_authenticate = λ _. p.plain_authenticate;
      }

decode_key_handle-Ensures :
    (raw : Bytes) (q : AuthenticatorRequest)
    → IsPlain raw q
    → q.command ≡ cmd_authenticate
    → 66 ≤ length q.payload
    → is_known_ctrl q.param1 ≡ true
    → Ensures (IsDecoded raw) (
        decode_key_handle q
          (get_or (drop 32 (drop 32 q.payload)) 0 0)
          (drop 1 (drop 32 (drop 32 q.payload))))
unfolding decode_key_handle
decode_key_handle-Ensures raw q p e long ctrl =
    let tail = drop 32 (drop 32 q.payload) in
    if_cases (Ensures (IsDecoded raw)) (ltb (length (drop 1 tail)) (get_or tail 0 0)) _ _ (λ _. tt)
      λ fits. record {
        long_enough = p.long_enough;
        command_byte = p.command_byte;
        param_byte = p.param_byte;
        body = p.body;
        register_part = λ a. absurd (omega arith);
        no_register = λ _. p.plain_register;
        authenticate_part = λ _. (
          refl,
          known_ctrl q.param1 ctrl,
          omega (arith, length-take 32 q.payload),
          length-cut q.payload 32 32 (omega arith),
          (
            drop (get_or tail 0 0) (drop 1 tail),
            rw
                (counted_cut tail
                  (omega (arith, length-drop 32 q.payload, length-drop 32 (drop 32 q.payload)))
                  (ltb_false→le _ _ fits))
                (sym (two_cuts q.payload)),
          ),
        );
        no_authenticate = λ ne. absurd (ne e);
      }

decode_authenticate-Ensures :
    (raw : Bytes) (q : AuthenticatorRequest)
    → IsPlain raw q
    → q.command ≡ cmd_authenticate
    → Ensures (IsDecoded raw) (decode_authenticate q)
unfolding decode_authenticate
decode_authenticate-Ensures raw q p e =
    if_cases (Ensures (IsDecoded raw)) (ltb (length q.payload) (32 + 32 + 2)) _ _ (λ _. tt)
      λ long.
        if_cases (Ensures (IsDecoded raw)) (is_known_ctrl q.param1) _ _
          (λ known. decode_key_handle-Ensures raw q p e (ltb_false→le _ _ long) known) (λ _. tt)

abbrev plain : Bytes → AuthenticatorRequest
plain raw = record {
  command = get_or raw 1 0;
  param1 = get_or raw 2 0;
  payload = drop 7 raw;
  register = none;
  authenticate = none;
}

plain-IsPlain : (raw : Bytes) → ltb (length raw) 7 ≡ false → IsPlain raw (plain raw)
plain-IsPlain raw h = record {
  long_enough = ltb_false→le _ _ h;
  command_byte = refl;
  param_byte = refl;
  body = refl;
  plain_register = refl;
  plain_authenticate = refl;
}

decode-Ensures : (raw : Bytes) → Ensures (IsDecoded raw) (decode_authenticator_request raw)
unfolding decode_authenticator_request
decode-Ensures raw =
    if_cases (Ensures (IsDecoded raw)) (ltb (length raw) 7) _ _ (λ _. tt)
      λ long.
        if_cases (Ensures (IsDecoded raw)) (get_or raw 1 0 == cmd_register) _ _
          (λ reg.
            decode_register-Ensures raw (plain raw) (plain-IsPlain raw long) ((==_iff _ _).0 reg))
          λ other.
            if_cases (Ensures (IsDecoded raw)) (get_or raw 1 0 == cmd_authenticate) _ _
              (λ aut.
                decode_authenticate-Ensures raw (plain raw) (plain-IsPlain raw long)
                  ((==_iff _ _).0 aut))
              λ neither. record {
                long_enough = ltb_false→le _ _ long;
                command_byte = refl;
                param_byte = refl;
                body = refl;
                register_part = λ e. absurd (cc ((==_iff _ _).1 e));
                no_register = λ _. refl;
                authenticate_part = λ e. absurd (cc ((==_iff _ _).1 e));
                no_authenticate = λ _. refl;
              }

-- A request that the decoder accepts carries the command and control bytes of the message, has the
-- part of its command set and no other, and that part spells out the bytes it was read from, with
-- parameters of 32 bytes, a known control byte and the whole key handle.
pub decode-IsDecoded :
    (raw : Bytes) (req : AuthenticatorRequest)
    → decode_authenticator_request raw ≡ ok req
    → IsDecoded raw req
decode-IsDecoded raw req = Ensures-ok (IsDecoded raw) _ req (decode-Ensures raw)
