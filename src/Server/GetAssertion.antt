-- ===== src/Server/GetAssertion.antt =====
-- main.go: `handleGetAssertion`, a function for each stretch between two early returns.
use linux_id.Common.{
  ℕ, pos, Bool, false, not, ◌&&◌, Option, none, some, List, [], ◌∷◌, ◌++◌, Bytes, Result, ok, err,
  be32, bit_or, codes, length, ◌==◌, if◌then◌else◌,
}
use linux_id.Ctap2.Types.{
  GetAssertionRequest, GetAssertOptions, CredDescriptor, status_ok, status_invalid_cbor,
  status_invalid_option, status_no_credentials, status_operation_denied, status_user_action_timeout,
  auth_flag_up, auth_flag_uv,
}
use linux_id.Ctap2.CredStore.{StoredCredential, StoreError, find_by_rp_id}
use linux_id.Verifier.{
  Prompt, Answer, could_not_start, answered, timed_out, verify_user, status_for_failure,
  caching_performs_uv, CachingVerifier,
}
use linux_id.Server.Types.{
  Signer, Cbor, bytes, text, mapping, CborFields, no_fields, field, int_key, text_key, Services,
  Server, ctap2, Ending, replied,
}
use linux_id.Server.MakeCredential.{refuse, first_accepted}

abbrev pub wants_uv : Option GetAssertOptions → Bool
wants_uv none = false
wants_uv (some o) = o.uv

-- The credential that is used: its key handle, and the resident entry if it comes from one.
pub record Chosen : Type 0 where
  pub key_handle : Bytes
  pub stored : Option StoredCredential

abbrev pub get_flags : Bool → ℕ
get_flags uv = if uv then bit_or auth_flag_up auth_flag_uv else auth_flag_up

-- rpIdHash | flags | signCount
unfoldable pub assertion_data : Bytes → ℕ → ℕ → Bytes
assertion_data rp_id_hash flags count = rp_id_hash ++ (flags ∷ be32 count)

-- The fourth entry of the response.
abbrev pub user_fields : Option StoredCredential → CborFields
user_fields none = no_fields
user_fields (some c) =
    field (int_key (pos 4))
      (mapping (
        field (text_key (codes "id")) (bytes c.user_id) (
          field (text_key (codes "name")) (text c.user_name)
            (field (text_key (codes "displayName")) (text c.display_name) no_fields))))
      no_fields

unfoldable pub assertion_response : Chosen → Bytes → Bytes → Cbor
assertion_response c auth_data sig = mapping (
    field (int_key (pos 1))
      (mapping (
        field (text_key (codes "type")) (text (codes "public-key"))
          (field (text_key (codes "id")) (bytes c.key_handle) no_fields)))
      (field (int_key (pos 2)) (bytes auth_data)
        (field (int_key (pos 3)) (bytes sig) (user_fields c.stored))))

-- `keyHandle = cred.ID`, which is nil for a credential without an id.
abbrev pub chosen_id : Option CredDescriptor → Option Chosen
chosen_id none = none
chosen_id (some c) = elim c.id [
  | none ↦ none
  | some b ↦ some (record { key_handle = b; stored = none })
]

-- `&creds[0]`
abbrev pub chosen_stored : List StoredCredential → Option Chosen
chosen_stored [] = none
chosen_stored (c ∷ cs) = some (record { key_handle = c.cred_id; stored = some c })

module _ {S : Type 0} (signer : Signer S) (lib : Services) where
  unfoldable pub get_encoded : Server S → Option Bytes → Server S × Ending
  get_encoded s none = (s, refuse status_operation_denied)
  get_encoded s (some encoded) = (s, replied (ctap2 status_ok encoded))

  unfoldable pub get_signed : Server S → Chosen → Bytes → S × Option Bytes → Server S × Ending
  get_signed s c auth_data (k, none) = (record s { keys = k }, refuse status_operation_denied)
  get_signed s c auth_data (k, some sig) =
      get_encoded (record s { keys = k }) (lib.cbor_marshal (assertion_response c auth_data sig))

  -- The authenticator data is signed together with the client data hash.
  unfoldable pub get_counted : Server S → GetAssertionRequest → Chosen → S × ℕ → Server S × Ending
  get_counted s req c (k, count) =
      let rp_id_hash = lib.sum256 req.rp_id in
      let auth_data =
        assertion_data rp_id_hash (get_flags (caching_performs_uv s.verifier)) count in
      get_signed s c auth_data (
        signer.sign_asn1 k c.key_handle rp_id_hash (lib.sum256 (auth_data ++ req.client_data_hash)))

  -- The `select` on the verifier's result.
  unfoldable pub get_answered : Server S → GetAssertionRequest → Chosen → Answer → Server S × Ending
  get_answered s req c could_not_start = (s, refuse status_operation_denied)
  get_answered s req c timed_out = (s, refuse status_user_action_timeout)
  get_answered s req c (answered r) =
      if r.ok
      then get_counted s req c (signer.counter s.keys)
      else (s, refuse (status_for_failure r))

  unfoldable pub get_verified :
      Server S → GetAssertionRequest → Chosen → CachingVerifier × Answer → Server S × Ending
  get_verified s req c (v, a) = get_answered (record s { verifier = v }) req c a

  unfoldable pub get_resolved :
      Server S → Prompt → GetAssertionRequest → Option Chosen → Server S × Ending
  get_resolved s p req none = (s, refuse status_no_credentials)
  get_resolved s p req (some c) = get_verified s req c (verify_user s.verifier p)

  unfoldable pub get_allowed :
      Server S → Prompt → GetAssertionRequest → S × Option CredDescriptor → Server S × Ending
  get_allowed s p req (k, o) = get_resolved (record s { keys = k }) p req (chosen_id o)

  unfoldable pub get_found :
      Server S
      → Prompt
      → GetAssertionRequest
      → Result StoreError (List StoredCredential)
      → Server S × Ending
  get_found s p req (err e) = (s, refuse status_operation_denied)
  get_found s p req (ok creds) = get_resolved s p req (chosen_stored creds)

  -- The allow list takes priority over resident credentials.
  unfoldable pub get_listed :
      Server S → Prompt → GetAssertionRequest → List CredDescriptor → Server S × Ending
  get_listed s p req [] =
      get_found s p req
        (find_by_rp_id lib.json_marshal lib.json_unmarshal s.disk (lib.sum256 req.rp_id))
  get_listed s p req (c ∷ cs) =
      get_allowed s p req (first_accepted signer lib s.keys (lib.sum256 req.rp_id) (c ∷ cs))

  unfoldable pub get_decoded : Server S → Prompt → Option GetAssertionRequest → Server S × Ending
  get_decoded s p none = (s, refuse status_invalid_cbor)
  get_decoded s p (some req) =
      if not (length req.client_data_hash == 32)
      then (s, refuse status_invalid_cbor)
      else if wants_uv req.options && not (caching_performs_uv s.verifier)
      then (s, refuse status_invalid_option)
      else get_listed s p req req.allow_list

  unfoldable pub handle_get_assertion : Server S → Prompt → Bytes → Server S × Ending
  handle_get_assertion s p payload = get_decoded s p (lib.unmarshal_get_assertion payload)
