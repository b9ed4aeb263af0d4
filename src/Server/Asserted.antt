-- ===== src/Server/Asserted.antt =====
-- main.go: `handleGetAssertion`, followed back from a reported success.
use linux_id.Common.{
  ◌≡◌, ◌≢◌, refl, sym, ap, ◌∙◌, true, not, ◌&&◌, Option, none, some, List, [], ◌∷◌, ◌++◌, Bytes,
  Result, ok, err, length, ◌==◌, if_cases, arith,
}
use linux_id.Ctap2.Types.{
  GetAssertionRequest, CredDescriptor, status_operation_denied, status_invalid_cbor,
  status_invalid_option, status_no_credentials, status_user_action_timeout,
}
use linux_id.Ctap2.CredStore.{StoredCredential, StoreError, find_by_rp_id}
use linux_id.Verifier.{
  Prompt, Answer, could_not_start, answered, timed_out, verify_user, status_for_failure,
  caching_performs_uv,
}
use linux_id.Verifier.Laws.{IsOk}
use linux_id.Server.Types.{Signer, Services, Server, Ending}
use linux_id.Server.MakeCredential.{first_accepted}
use linux_id.Server.GetAssertion.{
  wants_uv, Chosen, get_flags, assertion_data, assertion_response, chosen_id, chosen_stored,
  get_encoded, get_signed, get_counted, get_answered, get_verified, get_resolved, get_allowed,
  get_found, get_listed, get_decoded, handle_get_assertion,
}
use linux_id.Server.Consent.{failure_status}
use linux_id.Server.Made.{Sends, not_sent}

module _ {S : Type 0} (signer : Signer S) (lib : Services) where
  abbrev pub auth_data_of : Server S → GetAssertionRequest → Bytes
  auth_data_of s req =
      assertion_data (lib.sum256 req.rp_id) (get_flags (caching_performs_uv s.verifier))
        (signer.counter s.keys).1

  -- From the consent on: the data is counted and signed together with the client data hash.
  pub record Signed (s : Server S) (req : GetAssertionRequest) (c : Chosen) (s' : Server S)
      (d : Bytes) : Type 0 where
    pub sig : Bytes
    pub made :
        (signer.sign_asn1
          (signer.counter s.keys).0
          c.key_handle
          (lib.sum256 req.rp_id)
          (lib.sum256 (auth_data_of s req ++ req.client_data_hash))).1
        ≡ some sig
    pub sent : lib.cbor_marshal (assertion_response c (auth_data_of s req) sig) ≡ some d
    pub disk_kept : s'.disk ≡ s.disk

  get_encoded_ok :
      (s : Server S) (o : Option Bytes) (d : Bytes)
      → Sends (get_encoded signer lib s o) d
      → (o ≡ some d) × ((get_encoded signer lib s o).0 ≡ s)
  unfolding get_encoded
  get_encoded_ok s none d e = absurd (not_sent s status_operation_denied d (ground arith) e)
  get_encoded_ok s (some b) d e = (cc, refl)

  get_signed_ok :
      (s : Server S) (c : Chosen) (data' : Bytes) (r : S × Option Bytes) (d : Bytes)
      → Sends (get_signed signer lib s c data' r) d
      → (sig : Bytes) × (r.1 ≡ some sig)
        × (lib.cbor_marshal (assertion_response c data' sig) ≡ some d)
        × ((get_signed signer lib s c data' r).0.disk ≡ s.disk)
  unfolding get_signed
  get_signed_ok s c data' (k, none) d e =
      absurd (not_sent (record s { keys = k }) status_operation_denied d (ground arith) e)
  get_signed_ok s c data' (k, some sig) d e =
      let (o, after) = get_encoded_ok (record s { keys = k }) _ d e in
      (sig, refl, o, ap (λ (t : Server S). t.disk) after)

  get_answered-IsOk :
      (s : Server S) (req : GetAssertionRequest) (c : Chosen) (a : Answer) (d : Bytes)
      → Sends (get_answered signer lib s req c a) d
      → IsOk a × Signed s req c (get_answered signer lib s req c a).0 d
  unfolding get_answered get_counted
  get_answered-IsOk s req c could_not_start d e =
      absurd (not_sent s status_operation_denied d (ground arith) e)
  get_answered-IsOk s req c timed_out d e =
      absurd (not_sent s status_user_action_timeout d (ground arith) e)
  get_answered-IsOk s req c (answered r) d h =
      if_cases {A = Server S × Ending} (λ q. Sends q d → (r.ok ≡ true) × Signed s req c q.0 d) r.ok
        _ _
        (λ given e.
          let (sig, made, sent, disk) = get_signed_ok s c (auth_data_of s req) _ d e in
          (given, record { sig = sig; made = made; sent = sent; disk_kept = disk }))
        (λ _ e. absurd (not_sent s (status_for_failure r) d (failure_status r) e)) h

  -- The credential that a request is answered with, and the signer's state once it is found: the
  -- first of the allow list that is good, or the first resident one if there is no such list.
  pub data Picks (s : Server S) (req : GetAssertionRequest) (k : S) (c : Chosen) : Type 0 where
    allowed :
        (cred : CredDescriptor)
        → req.allow_list ≢ []
        → first_accepted signer lib s.keys (lib.sum256 req.rp_id) req.allow_list ≡ (k, some cred)
        → cred.id ≡ some c.key_handle
        → c.stored ≡ none
        → Picks s req k c
    resident :
        (cred : StoredCredential) (creds : List StoredCredential)
        → req.allow_list ≡ []
        → find_by_rp_id lib.json_marshal lib.json_unmarshal s.disk (lib.sum256 req.rp_id)
          ≡ ok (cred ∷ creds)
        → k ≡ s.keys
        → c.key_handle ≡ cred.cred_id
        → c.stored ≡ some cred
        → Picks s req k c

  pub record Asserted (s : Server S) (p : Prompt) (req : GetAssertionRequest) (s' : Server S)
      (d : Bytes) : Type 0 where
    pub hash_size : length req.client_data_hash ≡ 32
    pub uv_kept : wants_uv req.options ≡ true → caching_performs_uv s.verifier ≡ true
    pub consent : IsOk (verify_user s.verifier p).1
    pub tried : S
    pub chosen : Chosen
    pub picked : Picks s req tried chosen
    pub signed :
        Signed (record s { keys = tried; verifier = (verify_user s.verifier p).0 }) req chosen s' d

  get_resolved-IsOk :
      (s : Server S) (p : Prompt) (req : GetAssertionRequest) (o : Option Chosen) (d : Bytes)
      → Sends (get_resolved signer lib s p req o) d
      → (c : Chosen) × (o ≡ some c)
        × IsOk (verify_user s.verifier p).1
        × Signed
            (record s { verifier = (verify_user s.verifier p).0 })
            req
            c
            (get_resolved signer lib s p req o).0
            d
  unfolding get_resolved get_verified
  get_resolved-IsOk s p req none d e = absurd (not_sent s status_no_credentials d (ground arith) e)
  get_resolved-IsOk s p req (some c) d e =
      let (consent, signed) = get_answered-IsOk _ req c _ d e in (c, refl, consent, signed)

  chosen_id-some :
      (cred : CredDescriptor) (c : Chosen)
      → chosen_id (some cred) ≡ some c
      → (cred.id ≡ some c.key_handle) × (c.stored ≡ none)
  chosen_id-some cred c e = (ground arith, ground arith)

  -- What is left to say once the request is checked.
  abbrev Outcome : Server S → Prompt → GetAssertionRequest → Server S → Bytes → Type 0
  Outcome s p req s' d =
      (k : S) × (c : Chosen) × Picks s req k c
      × IsOk (verify_user s.verifier p).1
      × Signed (record s { keys = k; verifier = (verify_user s.verifier p).0 }) req c s' d

  get_allowed_ok :
      (s : Server S) (p : Prompt) (req : GetAssertionRequest) (r : S × Option CredDescriptor)
      (d : Bytes)
      → req.allow_list ≢ []
      → first_accepted signer lib s.keys (lib.sum256 req.rp_id) req.allow_list ≡ r
      → Sends (get_allowed signer lib s p req r) d
      → Outcome s p req (get_allowed signer lib s p req r).0 d
  unfolding get_allowed
  get_allowed_ok s p req (k, none) d n h e =
      let (c, o, consent, signed) = get_resolved-IsOk (record s { keys = k }) p req none d e in
      absurd (cc)
  get_allowed_ok s p req (k, some cred) d n h e =
      let (c, o, consent, signed) = get_resolved-IsOk (record s { keys = k }) p req _ d e in
      let (id, stored) = chosen_id-some cred c o in
      (k, c, Picks.allowed cred n h id stored, consent, signed)

  get_found_ok :
      (s : Server S) (p : Prompt) (req : GetAssertionRequest)
      (r : Result StoreError (List StoredCredential)) (d : Bytes)
      → req.allow_list ≡ []
      → find_by_rp_id lib.json_marshal lib.json_unmarshal s.disk (lib.sum256 req.rp_id) ≡ r
      → Sends (get_found signer lib s p req r) d
      → Outcome s p req (get_found signer lib s p req r).0 d
  unfolding get_found
  get_found_ok s p req (err x) d n h e =
      absurd (not_sent s status_operation_denied d (ground arith) e)
  get_found_ok s p req (ok []) d n h e =
      let (c, o, consent, signed) = get_resolved-IsOk s p req none d e in absurd (cc)
  get_found_ok s p req (ok (cred ∷ creds)) d n h e =
      let (c, o, consent, signed) = get_resolved-IsOk s p req (chosen_stored (cred ∷ creds)) d e in
      (s.keys, c, Picks.resident cred creds n h refl (ground arith) (ground arith), consent, signed)

  get_listed_ok :
      (s : Server S) (p : Prompt) (req : GetAssertionRequest) (l : List CredDescriptor) (d : Bytes)
      → req.allow_list ≡ l
      → Sends (get_listed signer lib s p req l) d
      → Outcome s p req (get_listed signer lib s p req l).0 d
  unfolding get_listed
  get_listed_ok s p req [] d h e = get_found_ok s p req _ d h refl e
  get_listed_ok s p req (x ∷ xs) d h e =
      get_allowed_ok s p req _ d (λ n. ne (sym h ∙ n))
        (ap (first_accepted signer lib s.keys (lib.sum256 req.rp_id)) h) e
    where
      ne : List.◌∷◌ x xs ≡ [] → ⊥
      ne z = cc

  get_decoded_ok :
      (s : Server S) (p : Prompt) (req : GetAssertionRequest) (d : Bytes)
      → Sends (get_decoded signer lib s p (some req)) d
      → Asserted s p req (get_decoded signer lib s p (some req)).0 d
  unfolding get_decoded
  get_decoded_ok s p req d =
      if_cases Goal (not (length req.client_data_hash == 32)) _ _
        (λ _ e. absurd (not_sent s status_invalid_cbor d (ground arith) e))
        λ sized.
          if_cases Goal (wants_uv req.options && not (caching_performs_uv s.verifier)) _ _
            (λ _ e. absurd (not_sent s status_invalid_option d (ground arith) e))
            λ uv e.
              let (k, c, picked, consent, signed) = get_listed_ok s p req req.allow_list d refl e in
              record {
                hash_size = ground arith;
                uv_kept = ground arith;
                consent = consent;
                tried = k;
                chosen = c;
                picked = picked;
                signed = signed;
              }
    where
      Goal : Server S × Ending → Type 0
      Goal q = Sends q d → Asserted s p req q.0 d

  -- A GetAssertion that reports success was given a client data hash of 32 bytes, asked for user
  -- verification only if the verifier can, and had the user's consent. It answers for the first
  -- credential of the allow list that is good or, without a list, the first resident one of the
  -- relying party, and signs with its key the authenticator data, which has the flags of the verifier
  -- and a fresh count, followed by the client data hash. It stores nothing.
  pub handle_get_assertion-Asserted :
      (s : Server S) (p : Prompt) (payload d : Bytes)
      → Sends (handle_get_assertion signer lib s p payload) d
      → (req : GetAssertionRequest) × (lib.unmarshal_get_assertion payload ≡ some req)
        × Asserted s p req (handle_get_assertion signer lib s p payload).0 d
  unfolding handle_get_assertion
  handle_get_assertion-Asserted s p payload d e =
      decoded (lib.unmarshal_get_assertion payload) refl e
    where
      decoded :
          (o : Option GetAssertionRequest)
          → lib.unmarshal_get_assertion payload ≡ o
          → Sends (get_decoded signer lib s p o) d
          → (req : GetAssertionRequest) × (lib.unmarshal_get_assertion payload ≡ some req)
            × Asserted s p req (get_decoded signer lib s p o).0 d
      decoded none h k =
          absurd (not_sent s status_invalid_cbor d (ground arith) (unfold get_decoded in k))
      decoded (some req) h k = (req, h, get_decoded_ok s p req d k)
