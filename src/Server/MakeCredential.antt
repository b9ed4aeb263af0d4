-- ===== src/Server/MakeCredential.antt =====
-- main.go: `handleMakeCredential`, a function for each stretch between two early returns.
use linux_id.Common.{
  ℕ, ◌%◌, ℤ, pos, negsuc, Bool, false, not, ◌&&◌, ◌||◌, Option, none, some, List, [], ◌∷◌, ◌++◌,
  Bytes, be16, be32, fill_bytes, bit_or, codes, length, ◌==◌, if◌then◌else◌,
}
use linux_id.Ctap2.Types.{
  MakeCredentialRequest, MakeCredOptions, CredParam, CredDescriptor, status_ok, status_invalid_cbor,
  status_unsupported_alg, status_invalid_option, status_operation_denied,
  status_user_action_timeout, status_credential_excluded, auth_flag_up, auth_flag_uv, auth_flag_at,
}
use linux_id.Ctap2.CredStore.{StoredCredential, save}
use linux_id.Verifier.{
  Prompt, Answer, could_not_start, answered, timed_out, verify_user, status_for_failure,
  caching_performs_uv, CachingVerifier,
}
use linux_id.Server.Types.{
  RegisteredKey, Signer, Cbor, int, bytes, text, mapping, no_fields, field, int_key, Services,
  Server, ctap2, Ending, replied, panicked, dummy_text, aaguid,
}

abbrev pub is_es256 : ℤ → Bool
is_es256 (pos n) = false
is_es256 (negsuc n) = n == 6

-- The loop over `PubKeyCredParams`.
abbrev pub has_es256 : List CredParam → Bool
has_es256 [] = false
has_es256 (p ∷ ps) = is_es256 p.alg || has_es256 ps

abbrev pub wants_uv : Option MakeCredOptions → Bool
wants_uv none = false
wants_uv (some o) = o.uv

abbrev pub wants_rk : Option MakeCredOptions → Bool
wants_rk none = false
wants_rk (some o) = o.rk

-- `cred.ID` where a byte slice is needed.
abbrev pub id_bytes : CredDescriptor → Bytes
id_bytes c = elim c.id [ none ↦ [] | some b ↦ b ]

abbrev pub refuse : ℕ → Ending
refuse status = replied (ctap2 status [])

abbrev pub make_flags : Bool → ℕ
make_flags uv =
    let flags = bit_or auth_flag_up auth_flag_at in if uv then bit_or flags auth_flag_uv else flags

-- rpIdHash | flags | signCount | AAGUID | credIdLen | credId | coseKey
unfoldable pub attested_data : Bytes → ℕ → ℕ → Bytes → Bytes → Bytes
attested_data rp_id_hash flags count key_handle cose_key =
    rp_id_hash
    ++ (flags
        ∷ (be32 count
            ++ (aaguid ++ (be16 (length key_handle % 65536) ++ (key_handle ++ cose_key)))))

unfoldable pub cose_key : Bytes → Bytes → Cbor
cose_key x_bytes y_bytes = mapping (
    field (int_key (pos 1)) (int (pos 2)) (
      field (int_key (pos 3)) (int (negsuc 6)) (
        field (int_key (negsuc 0)) (int (pos 1)) (
          field (int_key (negsuc 1)) (bytes x_bytes)
            (field (int_key (negsuc 2)) (bytes y_bytes) no_fields)))))

unfoldable pub attestation_object : Bytes → Cbor
attestation_object auth_data = mapping (
    field (int_key (pos 1)) (text (codes "none")) (
      field (int_key (pos 2)) (bytes auth_data)
        (field (int_key (pos 3)) (mapping no_fields) no_fields)))

unfoldable pub resident : MakeCredentialRequest → Bytes → Bytes → StoredCredential
resident req rp_id_hash key_handle = record {
  cred_id = key_handle;
  rp_id_hash = rp_id_hash;
  rp_id = req.rp.id;
  rp_name = req.rp.name;
  user_id = req.user.id;
  user_name = req.user.name;
  display_name = req.user.display_name;
}

module _ {S : Type 0} (signer : Signer S) (lib : Services) where
  abbrev pub stop_or_go :
      S × Option Bytes
      → CredDescriptor
      → (S → S × Option CredDescriptor)
      → S × Option CredDescriptor
  stop_or_go (k, some sig) c next = (k, some c)
  stop_or_go (k, none) c next = next k

  -- The loop over a list of credentials, up to the first whose id the signer accepts for the party.
  unfoldable pub first_accepted : S → Bytes → List CredDescriptor → S × Option CredDescriptor
  first_accepted k rp_id_hash [] = (k, none)
  first_accepted k rp_id_hash (c ∷ cs) =
      stop_or_go (signer.sign_asn1 k (id_bytes c) rp_id_hash (lib.sum256 dummy_text)) c
        (λ k'. first_accepted k' rp_id_hash cs)

  -- An error of `Save` is logged only.
  unfoldable pub make_saved : Server S → MakeCredentialRequest → RegisteredKey → Server S
  make_saved s req key =
      if wants_rk req.options
      then record s {
        disk =
            (save lib.json_marshal lib.json_unmarshal s.disk
              (resident req (lib.sum256 req.rp.id) key.key_handle)).0;
      }
      else s

  unfoldable pub make_replied :
      Server S → MakeCredentialRequest → RegisteredKey → Option Bytes → Server S × Ending
  make_replied s req key none = (s, refuse status_operation_denied)
  make_replied s req key (some encoded) = (make_saved s req key, replied (ctap2 status_ok encoded))

  -- The authenticator data, with a fresh count, and the response around it.
  unfoldable pub make_counted :
      Server S → MakeCredentialRequest → RegisteredKey → Option Bytes → Server S × Ending
  make_counted s req key none = (s, refuse status_operation_denied)
  make_counted s req key (some cose) =
      let (k, count) = signer.counter s.keys in
      make_replied (record s { keys = k }) req key
        (lib.cbor_marshal (
          attestation_object (
            attested_data (lib.sum256 req.rp.id) (make_flags (caching_performs_uv s.verifier)) count
              key.key_handle cose)))

  unfoldable pub make_key :
      Server S
      → MakeCredentialRequest
      → RegisteredKey
      → Option Bytes
      → Option Bytes
      → Server S × Ending
  make_key s req key (some x_bytes) (some y_bytes) =
      make_counted s req key (lib.cbor_marshal (cose_key x_bytes y_bytes))
  make_key s req key (some x_bytes) none = (s, panicked)
  make_key s req key none y_bytes = (s, panicked)

  unfoldable pub make_registered :
      Server S → MakeCredentialRequest → S × Option RegisteredKey → Server S × Ending
  make_registered s req (k, none) = (record s { keys = k }, refuse status_operation_denied)
  make_registered s req (k, some key) =
      make_key (record s { keys = k }) req key (fill_bytes 32 key.x) (fill_bytes 32 key.y)

  unfoldable pub make_excluded :
      Server S → MakeCredentialRequest → S × Option CredDescriptor → Server S × Ending
  make_excluded s req (k, some c) = (record s { keys = k }, refuse status_credential_excluded)
  make_excluded s req (k, none) =
      make_registered (record s { keys = k }) req (signer.register_key k (lib.sum256 req.rp.id))

  -- The `select` on the verifier's result.
  unfoldable pub make_answered : Server S → MakeCredentialRequest → Answer → Server S × Ending
  make_answered s req could_not_start = (s, refuse status_operation_denied)
  make_answered s req timed_out = (s, refuse status_user_action_timeout)
  make_answered s req (answered r) =
      if r.ok
      then make_excluded s req (first_accepted s.keys (lib.sum256 req.rp.id) req.exclude_list)
      else (s, refuse (status_for_failure r))

  unfoldable pub make_verified :
      Server S → MakeCredentialRequest → CachingVerifier × Answer → Server S × Ending
  make_verified s req (v, a) = make_answered (record s { verifier = v }) req a

  unfoldable pub make_decoded : Server S → Prompt → Option MakeCredentialRequest → Server S × Ending
  make_decoded s p none = (s, refuse status_invalid_cbor)
  make_decoded s p (some req) =
      if not (length req.client_data_hash == 32)
      then (s, refuse status_invalid_cbor)
      else if not (has_es256 req.pub_key_cred_params)
      then (s, refuse status_unsupported_alg)
      else if wants_uv req.options && not (caching_performs_uv s.verifier)
      then (s, refuse status_invalid_option)
      else make_verified s req (verify_user s.verifier p)

  unfoldable pub handle_make_credential : Server S → Prompt → Bytes → Server S × Ending
  handle_make_credential s p payload = make_decoded s p (lib.unmarshal_make_credential payload)
