-- ===== src/Server/Made.antt =====
-- main.go: `handleMakeCredential`, followed back from a reported success.
use mathlib.Core.Path.{subst}
use linux_id.Common.{
  sym, ◌∙◌, false, Bool-cases, inl, inr, ℕ, ◌≡◌, ◌≢◌, refl, true, not, ◌&&◌, Option, none, some,
  Bytes, fill_bytes, length, ◌==◌, if_cases, arith,
}
use linux_id.Ctap2.Types.{
  MakeCredentialRequest, MakeCredOptions, CredDescriptor, status_ok, status_operation_denied,
  status_credential_excluded, status_user_action_timeout, status_invalid_cbor,
  status_invalid_option, status_unsupported_alg,
}
use linux_id.Ctap2.CredStore.{save}
use linux_id.Verifier.{
  Prompt, Answer, could_not_start, answered, timed_out, verify_user, status_for_failure,
  caching_performs_uv,
}
use linux_id.Verifier.Laws.{IsOk}
use linux_id.Server.Types.{RegisteredKey, Signer, Services, Server, Ending, replied, ctap2}
use linux_id.Server.MakeCredential.{
  refuse, resident, has_es256, wants_uv, attested_data, make_flags, cose_key, attestation_object,
  first_accepted, make_saved, make_replied, make_counted, make_key, make_registered, make_excluded,
  make_answered, make_verified, make_decoded, handle_make_credential,
}
use linux_id.Server.Consent.{failure_status}

-- The result is a success that sends `d`.
abbrev pub Sends : {S : Type 0} → Server S × Ending → Bytes → Type 0
Sends r d = r.1 ≡ replied (ctap2 status_ok d)

pub not_sent :
    {S : Type 0} (s : Server S) (status : ℕ) (d : Bytes)
    → status ≢ status_ok
    → Sends (s, refuse status) d
    → ⊥
not_sent s status d n e = n (cc)

module _ {S : Type 0} (signer : Signer S) (lib : Services) where
  abbrev pub hash_of : MakeCredentialRequest → Bytes
  hash_of req = lib.sum256 req.rp.id

  -- From a registered key on: the key is encoded, the data counted and sent, the credential stored.
  pub record Issued (s : Server S) (req : MakeCredentialRequest) (key : RegisteredKey)
      (s' : Server S) (d : Bytes) : Type 0 where
    pub x_bytes : Bytes
    pub y_bytes : Bytes
    pub cose : Bytes
    pub x_filled : fill_bytes 32 key.x ≡ some x_bytes
    pub y_filled : fill_bytes 32 key.y ≡ some y_bytes
    pub encoded_key : lib.cbor_marshal (cose_key x_bytes y_bytes) ≡ some cose
    pub encoded :
        lib.cbor_marshal (
          attestation_object (
            attested_data
              (hash_of req)
              (make_flags (caching_performs_uv s.verifier))
              (signer.counter s.keys).1
              key.key_handle
              cose))
        ≡ some d
    pub after : s' ≡ make_saved signer lib (record s { keys = (signer.counter s.keys).0 }) req key

  make_replied_ok :
      (s : Server S) (req : MakeCredentialRequest) (key : RegisteredKey) (o : Option Bytes)
      (d : Bytes)
      → Sends (make_replied signer lib s req key o) d
      → (o ≡ some d) × ((make_replied signer lib s req key o).0 ≡ make_saved signer lib s req key)
  unfolding make_replied
  make_replied_ok s req key none d e =
      absurd (not_sent s status_operation_denied d (ground arith) e)
  make_replied_ok s req key (some b) d e = (cc, refl)

  make_counted_ok :
      (s : Server S) (req : MakeCredentialRequest) (key : RegisteredKey) (xb yb : Bytes)
      (o : Option Bytes) (d : Bytes)
      → fill_bytes 32 key.x ≡ some xb
      → fill_bytes 32 key.y ≡ some yb
      → lib.cbor_marshal (cose_key xb yb) ≡ o
      → Sends (make_counted signer lib s req key o) d
      → Issued s req key (make_counted signer lib s req key o).0 d
  unfolding make_counted
  make_counted_ok s req key xb yb none d ex ey ec e =
      absurd (not_sent s status_operation_denied d (ground arith) e)
  make_counted_ok s req key xb yb (some cose) d ex ey ec e =
      let (encoded, after) = make_replied_ok _ req key _ d e in
      record {
        x_bytes = xb;
        y_bytes = yb;
        cose = cose;
        x_filled = ex;
        y_filled = ey;
        encoded_key = ec;
        encoded = encoded;
        after = after;
      }

  make_key_ok :
      (s : Server S) (req : MakeCredentialRequest) (key : RegisteredKey) (ox oy : Option Bytes)
      (d : Bytes)
      → fill_bytes 32 key.x ≡ ox
      → fill_bytes 32 key.y ≡ oy
      → Sends (make_key signer lib s req key ox oy) d
      → Issued s req key (make_key signer lib s req key ox oy).0 d
  unfolding make_key
  make_key_ok s req key none oy d ex ey e = cc
  make_key_ok s req key (some xb) none d ex ey e = cc
  make_key_ok s req key (some xb) (some yb) d ex ey e =
      make_counted_ok s req key xb yb (lib.cbor_marshal (cose_key xb yb)) d ex ey refl e

  -- From the consent on: no credential of the exclude list was good, and a key was registered.
  pub record Registered (s : Server S) (req : MakeCredentialRequest) (s' : Server S) (d : Bytes)
      : Type 0 where
    pub key : RegisteredKey
    pub tried : S
    pub none_excluded :
        first_accepted signer lib s.keys (hash_of req) req.exclude_list ≡ (tried, none)
    pub new_key : (signer.register_key tried (hash_of req)).1 ≡ some key
    pub issued :
        Issued (record s { keys = (signer.register_key tried (hash_of req)).0 }) req key s' d

  make_registered_ok :
      (s : Server S) (req : MakeCredentialRequest) (r : S × Option RegisteredKey) (d : Bytes)
      → Sends (make_registered signer lib s req r) d
      → (key : RegisteredKey) × (r.1 ≡ some key)
        × Issued (record s { keys = r.0 }) req key (make_registered signer lib s req r).0 d
  unfolding make_registered
  make_registered_ok s req (k, none) d e =
      absurd (not_sent s status_operation_denied d (ground arith) (cc))
  make_registered_ok s req (k, some key) d e =
      (key, refl, make_key_ok (record s { keys = k }) req key _ _ d refl refl e)

  make_excluded_ok :
      (s : Server S) (req : MakeCredentialRequest) (r : S × Option CredDescriptor) (d : Bytes)
      → first_accepted signer lib s.keys (hash_of req) req.exclude_list ≡ r
      → Sends (make_excluded signer lib s req r) d
      → Registered s req (make_excluded signer lib s req r).0 d
  unfolding make_excluded
  make_excluded_ok s req (k, some c) d h e =
      absurd (not_sent s status_credential_excluded d (ground arith) (cc))
  make_excluded_ok s req (k, none) d h e =
      let (key, new_key, issued) =
        make_registered_ok (record s { keys = k }) req (signer.register_key k (hash_of req)) d e in
      record { key = key; tried = k; none_excluded = h; new_key = new_key; issued = issued }

  make_answered-IsOk :
      (s : Server S) (req : MakeCredentialRequest) (a : Answer) (d : Bytes)
      → Sends (make_answered signer lib s req a) d
      → IsOk a × Registered s req (make_answered signer lib s req a).0 d
  unfolding make_answered
  make_answered-IsOk s req could_not_start d e =
      absurd (not_sent s status_operation_denied d (ground arith) e)
  make_answered-IsOk s req timed_out d e =
      absurd (not_sent s status_user_action_timeout d (ground arith) e)
  make_answered-IsOk s req (answered r) d h =
      if_cases {A = Server S × Ending} (λ q. Sends q d → (r.ok ≡ true) × Registered s req q.0 d)
        r.ok _ _ (λ given e. (given, make_excluded_ok s req _ d refl e))
        (λ _ e. absurd (not_sent s (status_for_failure r) d (failure_status r) e)) h

  -- The whole of a success.
  pub record Made (s : Server S) (p : Prompt) (req : MakeCredentialRequest) (s' : Server S)
      (d : Bytes) : Type 0 where
    pub hash_size : length req.client_data_hash ≡ 32
    pub es256_offered : has_es256 req.pub_key_cred_params ≡ true
    pub uv_kept : wants_uv req.options ≡ true → caching_performs_uv s.verifier ≡ true
    pub consent : IsOk (verify_user s.verifier p).1
    pub registered : Registered (record s { verifier = (verify_user s.verifier p).0 }) req s' d

  make_decoded_ok :
      (s : Server S) (p : Prompt) (req : MakeCredentialRequest) (d : Bytes)
      → Sends (make_decoded signer lib s p (some req)) d
      → Made s p req (make_decoded signer lib s p (some req)).0 d
  unfolding make_decoded make_verified
  make_decoded_ok s p req d =
      if_cases Goal (not (length req.client_data_hash == 32)) _ _
        (λ _ e. absurd (not_sent s status_invalid_cbor d (ground arith) e))
        λ sized.
          if_cases Goal (not (has_es256 req.pub_key_cred_params)) _ _
            (λ _ e. absurd (not_sent s status_unsupported_alg d (ground arith) e))
            λ es256.
              if_cases Goal (wants_uv req.options && not (caching_performs_uv s.verifier)) _ _
                (λ _ e. absurd (not_sent s status_invalid_option d (ground arith) e))
                λ uv e.
                  let (consent, registered) = make_answered-IsOk _ req _ d e in
                  record {
                    hash_size = ground arith;
                    es256_offered = ground arith;
                    uv_kept = ground arith;
                    consent = consent;
                    registered = registered;
                  }
    where
      Goal : Server S × Ending → Type 0
      Goal q = Sends q d → Made s p req q.0 d

  -- The request asks for a resident credential.
  abbrev pub AsksResident : MakeCredentialRequest → Type 0
  AsksResident req = (o : MakeCredOptions) × (req.options ≡ some o) × (o.rk ≡ true)

  -- What becomes of the disk: `Save` ran on it for a resident credential, and else nothing did.
  pub record Kept (s : Server S) (req : MakeCredentialRequest) (key_handle : Bytes) (s' : Server S)
      : Type 0 where
    pub stored :
        AsksResident req
        → s'.disk
          ≡ (save lib.json_marshal lib.json_unmarshal s.disk (record {
            cred_id = key_handle;
            rp_id_hash = lib.sum256 req.rp.id;
            rp_id = req.rp.id;
            rp_name = req.rp.name;
            user_id = req.user.id;
            user_name = req.user.name;
            display_name = req.user.display_name;
          })).0
    pub untouched : ¬ AsksResident req → s'.disk ≡ s.disk

  make_saved-Kept :
      (s : Server S) (req : MakeCredentialRequest) (key : RegisteredKey)
      (o : Option MakeCredOptions)
      → req.options ≡ o
      → Kept s req key.key_handle (make_saved signer lib s req key)
  unfolding make_saved resident
  make_saved-Kept s req key none e = record {
    stored = λ (o, f, rk). absurd (clash (sym e ∙ f));
    untouched = λ no. rw e refl;
  }
    where
      clash : {o : MakeCredOptions} → none ≡ some o → ⊥
      clash z = cc
  make_saved-Kept s req key (some o) e = elim (Bool-cases o.rk) [
    | inl rk ↦ record {
      stored = λ asked. rw (e, rk) refl;
      untouched = λ no. absurd (no (o, e, rk));
    }
    | inr plain ↦ record {
      stored = λ (o', f, rk). absurd (clash o' (sym e ∙ f) rk plain);
      untouched = λ no. rw (e, plain) refl;
    }
  ]
    where
      clash : (o' : MakeCredOptions) → some o ≡ some o' → o'.rk ≡ true → o.rk ≡ false → ⊥
      clash o' same yes_rk no_rk = let eq : o ≡ o' = cc in cc

  Made-Kept :
      (s : Server S) (p : Prompt) (req : MakeCredentialRequest) (s' : Server S) (d : Bytes)
      (m : Made s p req s' d)
      → Kept s req m.registered.key.key_handle s'
  Made-Kept s p req s' d m =
      subst (Kept s req m.registered.key.key_handle) (sym m.registered.issued.after) (
        let k = make_saved-Kept _ req m.registered.key req.options refl in
        record { stored = k.stored; untouched = k.untouched })

  -- A MakeCredential that reports success was given a request with a client data hash of 32 bytes and
  -- ES256 among its algorithms, asked for user verification only if the verifier can, and had the
  -- user's consent; no excluded credential was good; the key it registered is in the authenticator
  -- data that it sent, with the flags of the verifier and a fresh count. If the option `rk` was set,
  -- `Save` ran on the disk for the credential with the new key handle and the party and user of the
  -- request, and otherwise the disk is as it was.
  pub handle_make_credential-Made :
      (s : Server S) (p : Prompt) (payload d : Bytes)
      → Sends (handle_make_credential signer lib s p payload) d
      → (req : MakeCredentialRequest) × (lib.unmarshal_make_credential payload ≡ some req)
        × (m : Made s p req (handle_make_credential signer lib s p payload).0 d) × Kept s req
            m.registered.key.key_handle
            (handle_make_credential signer lib s p payload).0
  unfolding handle_make_credential
  handle_make_credential-Made s p payload d e =
      decoded (lib.unmarshal_make_credential payload) refl e
    where
      decoded :
          (o : Option MakeCredentialRequest)
          → lib.unmarshal_make_credential payload ≡ o
          → Sends (make_decoded signer lib s p o) d
          → (req : MakeCredentialRequest) × (lib.unmarshal_make_credential payload ≡ some req)
            × (m : Made s p req (make_decoded signer lib s p o).0 d) × Kept s req
                m.registered.key.key_handle
                (make_decoded signer lib s p o).0
      decoded none h k =
          absurd (not_sent s status_invalid_cbor d (ground arith) (unfold make_decoded in k))
      decoded (some req) h k =
          let m = make_decoded_ok s p req d k in (req, h, m, Made-Kept s p req _ d m)
