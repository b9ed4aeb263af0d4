-- ===== src/Server/Consent.antt =====
-- main.go: `handleMakeCredential` and the consent of the user.
use linux_id.Common.{
  ℕ, ◌≡◌, ◌≢◌, refl, not, ◌&&◌, Option, none, some, List, Bytes, length, ◌==◌, Bool-cases, inl, inr,
  if_cases, arith,
}
use linux_id.Ctap2.Types.{
  MakeCredentialRequest, CredDescriptor, status_ok, status_operation_denied,
  status_user_action_timeout, status_invalid_cbor, status_unsupported_alg, status_invalid_option,
}
use linux_id.Verifier.{
  CachingVerifier, VerifyResult, Prompt, Answer, could_not_start, answered, timed_out, verify_user,
  status_for_failure, caching_performs_uv,
}
use linux_id.Verifier.Laws.{IsOk}
use linux_id.Server.Types.{Signer, Services, Server, Ending}
use linux_id.Server.MakeCredential.{
  refuse, has_es256, wants_uv, make_answered, make_verified, make_decoded, handle_make_credential,
}

-- The operation was refused: an error is reported, and neither the keys nor the disk have changed.
pub record Refused {S : Type 0} (s : Server S) (r : Server S × Ending) : Type 0 where
  pub keys_kept : r.0.keys ≡ s.keys
  pub disk_kept : r.0.disk ≡ s.disk
  pub reported : (status : ℕ) × (r.1 ≡ refuse status) × (status ≢ status_ok)

pub failure_status : (r : VerifyResult) → status_for_failure r ≢ status_ok
unfolding status_for_failure
failure_status r h = ground arith

refused :
    {S : Type 0} (s : Server S) (status : ℕ) → status ≢ status_ok → Refused s (s, refuse status)
refused s status n = record { keys_kept = refl; disk_kept = refl; reported = (status, refl, n) }

module _ {S : Type 0} (signer : Signer S) (lib : Services) where
  make_answered-Refused :
      (s : Server S) (req : MakeCredentialRequest) (a : Answer)
      → ¬ IsOk a
      → Refused s (make_answered signer lib s req a)
  unfolding make_answered
  make_answered-Refused s req could_not_start n = refused s status_operation_denied (ground arith)
  make_answered-Refused s req timed_out n = refused s status_user_action_timeout (ground arith)
  make_answered-Refused s req (answered r) n =
      if_cases (Refused s) r.ok _ _ (λ yes_ok. absurd (n yes_ok))
        (λ _. refused s (status_for_failure r) (failure_status r))

  make_verified-Refused :
      (s : Server S) (req : MakeCredentialRequest) (va : CachingVerifier × Answer)
      → ¬ IsOk va.1
      → Refused s (make_verified signer lib s req va)
  unfolding make_verified
  make_verified-Refused s req (v, a) n =
      let r = make_answered-Refused (record s { verifier = v }) req a n in
      record { keys_kept = r.keys_kept; disk_kept = r.disk_kept; reported = r.reported }

  make_decoded-Refused :
      (s : Server S) (p : Prompt) (o : Option MakeCredentialRequest)
      → ¬ IsOk (verify_user s.verifier p).1
      → Refused s (make_decoded signer lib s p o)
  unfolding make_decoded
  make_decoded-Refused s p none n = refused s status_invalid_cbor (ground arith)
  make_decoded-Refused s p (some req) n =
      if_cases (Refused s) (not (length req.client_data_hash == 32)) _ _
        (λ _. refused s status_invalid_cbor (ground arith))
        λ _.
          if_cases (Refused s) (not (has_es256 req.pub_key_cred_params)) _ _
            (λ _. refused s status_unsupported_alg (ground arith))
            λ _.
              if_cases (Refused s) (wants_uv req.options && not (caching_performs_uv s.verifier)) _
                _ (λ _. refused s status_invalid_option (ground arith))
                λ _. make_verified-Refused s req (verify_user s.verifier p) n

  -- Without a success of the verifier MakeCredential reports an error, and it has then neither used
  -- the signer, so that no key was made and no excluded credential tried, nor touched the disk.
  pub handle_make_credential-Refused :
      (s : Server S) (p : Prompt) (payload : Bytes)
      → ¬ IsOk (verify_user s.verifier p).1
      → Refused s (handle_make_credential signer lib s p payload)
  unfolding handle_make_credential
  handle_make_credential-Refused s p payload n =
      make_decoded-Refused s p (lib.unmarshal_make_credential payload) n

  make_answered-exclude_list :
      (s : Server S) (req : MakeCredentialRequest) (l : List CredDescriptor) (a : Answer)
      → ¬ IsOk a
      → make_answered signer lib s (record req { exclude_list = l }) a
        ≡ make_answered signer lib s req a
  unfolding make_answered
  make_answered-exclude_list s req l could_not_start n = refl
  make_answered-exclude_list s req l timed_out n = refl
  make_answered-exclude_list s req l (answered r) n = elim (Bool-cases r.ok) [
    | inl yes_ok ↦ absurd (n yes_ok)
    | inr no_ok ↦ rw no_ok
  ]

  -- Without consent the answer to a request does not depend on its exclude list, so it tells nothing
  -- about which credentials exist.
  make_decoded-exclude_list :
      (s : Server S) (p : Prompt) (req : MakeCredentialRequest) (l : List CredDescriptor)
      → ¬ IsOk (verify_user s.verifier p).1
      → make_decoded signer lib s p (some (record req { exclude_list = l }))
        ≡ make_decoded signer lib s p (some req)
  unfolding make_decoded make_verified
  make_decoded-exclude_list s p req l n = rw (make_answered-exclude_list _ req l _ n)
