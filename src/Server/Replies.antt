-- ===== src/Server/Replies.antt =====
-- main.go: the replies of the CTAP2 handlers, over all their paths.
use linux_id.Common.{
  ℕ, ◌^◌, ◌<◌, ◌≡◌, refl, not, ◌&&◌, Option, none, some, List, [], ◌∷◌, Bytes, Result, ok, err,
  length, lt→ltb, fill_bytes, ◌==◌, if_cases,
}
use linux_id.Ctap2.Types.{
  MakeCredentialRequest, GetAssertionRequest, CredDescriptor, cmd_get_info, cmd_make_credential,
  cmd_get_assertion,
}
use linux_id.Ctap2.CredStore.{StoredCredential, StoreError}
use linux_id.Verifier.{
  Prompt, Answer, could_not_start, answered, timed_out, caching_performs_uv, verify_user,
}
use linux_id.Server.Types.{RegisteredKey, Signer, Services, Server, Ending, replied, ctap2}
use linux_id.Server.MakeCredential.{
  has_es256, wants_uv, make_replied, make_counted, make_key, make_registered, make_excluded,
  make_answered, make_verified, make_decoded, handle_make_credential,
}
use linux_id.Server.GetAssertion.{
  Chosen, get_encoded, get_signed, get_counted, get_answered, get_verified, get_resolved,
  get_allowed, get_found, get_listed, get_decoded, handle_get_assertion,
}
use linux_id.Server.GetAssertion
use linux_id.Server.Dispatch.{info_reply, handle_get_info, handle_ctap2}

-- The handler wrote one CTAP2 response.
abbrev pub AnswersCtap2 : {S : Type 0} → Server S × Ending → Type 0
AnswersCtap2 r = (status : ℕ) × (d : Bytes) × (r.1 ≡ replied (ctap2 status d))

module _ {S : Type 0} (signer : Signer S) (lib : Services) where
  -- Both coordinates fit 32 bytes.
  abbrev pub Fits : Option RegisteredKey → Type 0
  Fits none = Unit {0}
  Fits (some key) = (key.x < 2 ^ 256) × (key.y < 2 ^ 256)

  replied_answers :
      (s : Server S) (req : MakeCredentialRequest) (key : RegisteredKey) (o : Option Bytes)
      → AnswersCtap2 (make_replied signer lib s req key o)
  unfolding make_replied
  replied_answers s req key none = (_, _, refl)
  replied_answers s req key (some d) = (_, _, refl)

  counted_answers :
      (s : Server S) (req : MakeCredentialRequest) (key : RegisteredKey) (o : Option Bytes)
      → AnswersCtap2 (make_counted signer lib s req key o)
  unfolding make_counted
  counted_answers s req key none = (_, _, refl)
  counted_answers s req key (some d) = replied_answers _ req key _

  registered_answers :
      (s : Server S) (req : MakeCredentialRequest) (r : S × Option RegisteredKey)
      → Fits r.1
      → AnswersCtap2 (make_registered signer lib s req r)
  unfolding make_registered make_key fill_bytes
  registered_answers s req (k, none) f = (_, _, refl)
  registered_answers s req (k, some key) f =
      rw (lt→ltb key.x (256 ^ 32) f.0, lt→ltb key.y (256 ^ 32) f.1)
        (counted_answers (record s { keys = k }) req key _)

  excluded_answers :
      (s : Server S) (req : MakeCredentialRequest) (r : S × Option CredDescriptor)
      → ((k : S) → Fits (signer.register_key k (lib.sum256 req.rp.id)).1)
      → AnswersCtap2 (make_excluded signer lib s req r)
  unfolding make_excluded
  excluded_answers s req (k, some c) f = (_, _, refl)
  excluded_answers s req (k, none) f = registered_answers _ req _ (f k)

  verified_answers :
      (s : Server S) (req : MakeCredentialRequest) (a : Answer)
      → ((k : S) (x : Bytes) → Fits (signer.register_key k x).1)
      → AnswersCtap2 (make_answered signer lib s req a)
  unfolding make_answered
  verified_answers s req could_not_start f = (_, _, refl)
  verified_answers s req timed_out f = (_, _, refl)
  verified_answers s req (answered r) f =
      if_cases {A = Server S × Ending} AnswersCtap2 r.ok _ _
        (λ _. excluded_answers s req _ (λ k. f k (lib.sum256 req.rp.id))) (λ _. (_, _, refl))

  make_answers :
      (s : Server S) (p : Prompt) (o : Option MakeCredentialRequest)
      → ((k : S) (a : Bytes) → Fits (signer.register_key k a).1)
      → AnswersCtap2 (make_decoded signer lib s p o)
  unfolding make_decoded make_verified
  make_answers s p none f = (_, _, refl)
  make_answers s p (some req) f =
      if_cases {A = Server S × Ending} AnswersCtap2 (not (length req.client_data_hash == 32)) _ _
        (λ _. (_, _, refl))
        λ _.
          if_cases {A = Server S × Ending} AnswersCtap2 (not (has_es256 req.pub_key_cred_params)) _
            _ (λ _. (_, _, refl))
            λ _.
              if_cases {A = Server S × Ending} AnswersCtap2
                (wants_uv req.options && not (caching_performs_uv s.verifier)) _ _
                (λ _. (_, _, refl)) λ _. verified_answers _ req (verify_user s.verifier p).1 f

  encoded_answers : (s : Server S) (o : Option Bytes) → AnswersCtap2 (get_encoded signer lib s o)
  unfolding get_encoded
  encoded_answers s none = (_, _, refl)
  encoded_answers s (some b) = (_, _, refl)

  signed_answers :
      (s : Server S) (c : Chosen) (b : Bytes) (r : S × Option Bytes)
      → AnswersCtap2 (get_signed signer lib s c b r)
  unfolding get_signed
  signed_answers s c b (k, none) = (_, _, refl)
  signed_answers s c b (k, some sig) = encoded_answers _ _

  given_answers :
      (s : Server S) (req : GetAssertionRequest) (c : Chosen) (a : Answer)
      → AnswersCtap2 (get_answered signer lib s req c a)
  unfolding get_answered get_counted
  given_answers s req c could_not_start = (_, _, refl)
  given_answers s req c timed_out = (_, _, refl)
  given_answers s req c (answered r) =
      if_cases {A = Server S × Ending} AnswersCtap2 r.ok _ _ (λ _. signed_answers _ c _ _)
        (λ _. (_, _, refl))

  resolved_answers :
      (s : Server S) (p : Prompt) (req : GetAssertionRequest) (o : Option Chosen)
      → AnswersCtap2 (get_resolved signer lib s p req o)
  unfolding get_resolved get_verified
  resolved_answers s p req none = (_, _, refl)
  resolved_answers s p req (some c) = given_answers _ req c _

  found_answers :
      (s : Server S) (p : Prompt) (req : GetAssertionRequest)
      (r : Result StoreError (List StoredCredential))
      → AnswersCtap2 (get_found signer lib s p req r)
  unfolding get_found
  found_answers s p req (err e) = (_, _, refl)
  found_answers s p req (ok creds) = resolved_answers s p req _

  listed_answers :
      (s : Server S) (p : Prompt) (req : GetAssertionRequest) (l : List CredDescriptor)
      → AnswersCtap2 (get_listed signer lib s p req l)
  unfolding get_listed get_allowed
  listed_answers s p req [] = found_answers s p req _
  listed_answers s p req (c ∷ cs) = resolved_answers _ p req _

  get_answers :
      (s : Server S) (p : Prompt) (o : Option GetAssertionRequest)
      → AnswersCtap2 (get_decoded signer lib s p o)
  unfolding get_decoded
  get_answers s p none = (_, _, refl)
  get_answers s p (some req) =
      if_cases {A = Server S × Ending} AnswersCtap2 (not (length req.client_data_hash == 32)) _ _
        (λ _. (_, _, refl))
        λ _.
          if_cases {A = Server S × Ending} AnswersCtap2
            (GetAssertion.wants_uv req.options && not (caching_performs_uv s.verifier)) _ _
            (λ _. (_, _, refl)) λ _. listed_answers s p req req.allow_list

  info_answers : (s : Server S) (o : Option Bytes) → AnswersCtap2 (s, info_reply o)
  info_answers s none = (_, _, refl)
  info_answers s (some b) = (_, _, refl)

  -- Every CTAP2 message, whatever its bytes, is answered by exactly one response with a status byte,
  -- on every path through the handlers and without a panic, if the coordinates of every key that the
  -- signer makes fit 32 bytes.
  pub handle_ctap2-AnswersCtap2 :
      (s : Server S) (p : Prompt) (msg : Bytes)
      → ((k : S) (a : Bytes) → Fits (signer.register_key k a).1)
      → AnswersCtap2 (handle_ctap2 signer lib s p msg)
  unfolding handle_ctap2 handle_get_info handle_make_credential handle_get_assertion
  handle_ctap2-AnswersCtap2 s p [] f = (_, _, refl)
  handle_ctap2-AnswersCtap2 s p (cmd ∷ payload) f =
      if_cases {A = Server S × Ending} AnswersCtap2 (cmd == cmd_get_info) _ _
        (λ _. info_answers s _)
        λ _.
          if_cases {A = Server S × Ending} AnswersCtap2 (cmd == cmd_make_credential) _ _
            (λ _. make_answers s p _ f)
            λ _.
              if_cases {A = Server S × Ending} AnswersCtap2 (cmd == cmd_get_assertion) _ _
                (λ _. get_answers s p _) (λ _. (_, _, refl))
