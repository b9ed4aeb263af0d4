-- ===== src/Tests/Handlers.antt =====
-- The theorems on the handlers, applied.
use linux_id.Common.{
  ℕ, ◌≡◌, ◌≢◌, inl, refl, true, none, some, [], ◌∷◌, ◌++◌, Bytes, codes, replicate, fill_bytes,
  be_bytes, arith,
}
use linux_id.Ctap2.Types.{
  MakeCredentialRequest, GetAssertionRequest, CredDescriptor, status_credential_excluded,
}
use linux_id.Ctap2.CredStore.{
  StoredCredential, Disk, saved_list, load, store, save, save_loaded, write_encoded, write_file,
  find_by_rp_id, replace_first, matching,
}
use linux_id.Verifier.{
  verify_user, new_caching_verifier, is_cached, wait_for, note_result, performs_uv,
  caching_performs_uv,
}
use linux_id.Verifier.Laws.{IsOk}
use linux_id.U2f.Decode.{
  decode_authenticator_request, AuthenticatorAuthReq, AuthenticatorRegisterReq,
}
use linux_id.Server.Types.{Server, RegisteredKey, dummy_text}
use linux_id.Server.MakeCredential.{
  refuse, resident, first_accepted, make_saved, make_replied, make_counted, make_key,
  make_registered, make_excluded, make_answered, make_verified, make_decoded,
  handle_make_credential,
}
use linux_id.Server.GetAssertion.{
  get_encoded, get_signed, get_counted, get_answered, get_verified, get_resolved, get_found,
  get_listed, get_decoded, handle_get_assertion,
}
use linux_id.Server.U2f.{
  point_marshalled, result, auth_signed, auth_counted, auth_sign, auth_present, auth_checked,
  handle_authenticate, register_signed, site_registered, register_site, handle_register,
  signed_data, registration_data,
}
use linux_id.Server.Consent.{Refused, handle_make_credential-Refused}
use linux_id.Server.Made.{Kept, Sends, Made, handle_make_credential-Made}
use linux_id.Server.Asserted.{Asserted, handle_get_assertion-Asserted}
use linux_id.Server.Passkey.{make_excluded_after_make}
use linux_id.Server.Replies.{Fits, AnswersCtap2, handle_ctap2-AnswersCtap2}
use linux_id.Server.Dispatch.{handle_ctap2}
use linux_id.Server.Run.{run_round, run_event}
use linux_id.Server.Panics.{Survives, run_event-Survives}
use linux_id.Server.Exchange.{run_packets-run_round}
use linux_id.Hid.Types.{cmd_cbor}
use linux_id.Hid.Reader.{parse_packets}
use linux_id.Hid.Run.{msg_event, AuthEvent, run_packets, empty_assembly}
use linux_id.Hid.FrameList.{frames, write_all}
use linux_id.Hid.Transport.{reports}
use linux_id.Server.Login.{AnswersFor, get_after_make, resident_login}
use linux_id.Server.Presence.{
  Confirms, AuthSigned, PresenceByte, SiteRegistered, handle_authenticate_ok, handle_register_ok,
}
use linux_id.Tests.Data.{
  tape, token, marshal, unmarshal, reads_back, signer, laws, sums, request, login, services,
  encodes, hash, empty_disk, server, confirmed, mismatched,
}

mismatch_fails : ¬ IsOk (verify_user server.verifier mismatched).1
unfolding verify_user new_caching_verifier is_cached wait_for note_result
mismatch_fails e = cc

handle_make_credential-Refused_example :
    Refused server (handle_make_credential signer services server mismatched (1 ∷ []))
handle_make_credential-Refused_example =
    handle_make_credential-Refused signer services server mismatched (1 ∷ []) mismatch_fails

abbrev known : CredDescriptor
known = record { type_name = codes "public-key"; id = some (7 ∷ hash) }

abbrev other : CredDescriptor
other = record { type_name = codes "public-key"; id = some (6 ∷ []) }

abbrev rp_hash : Bytes
rp_hash = replicate 32 3

make-Sends : Sends (handle_make_credential signer services server confirmed (1 ∷ [])) (1 ∷ [])
unfolding handle_make_credential make_decoded make_verified make_answered make_excluded
    make_registered make_key make_counted make_replied make_saved first_accepted fill_bytes
    verify_user new_caching_verifier is_cached wait_for note_result caching_performs_uv performs_uv
make-Sends = refl

handle_make_credential-Made_example :
    (req : MakeCredentialRequest) × (services.unmarshal_make_credential (1 ∷ []) ≡ some req)
    × (m : Made signer services server confirmed req
        (handle_make_credential signer services server confirmed (1 ∷ [])).0
        (1 ∷ []))
    × Kept signer services server req m.registered.key.key_handle
        (handle_make_credential signer services server confirmed (1 ∷ [])).0
handle_make_credential-Made_example =
    handle_make_credential-Made signer services server confirmed (1 ∷ []) (1 ∷ []) make-Sends

-- The server after the registration of the key for `hash`.
abbrev after_make : Server ℕ
after_make = (handle_make_credential signer services server confirmed (1 ∷ [])).0

abbrev new_key : RegisteredKey
new_key = record { key_handle = 7 ∷ hash; x = 1; y = 2 }

unfoldable made : Made signer services server confirmed request after_make (1 ∷ [])
unfolding handle_make_credential make_decoded make_verified make_answered make_excluded
    make_registered make_key make_counted make_replied make_saved first_accepted fill_bytes
    verify_user new_caching_verifier is_cached wait_for note_result caching_performs_uv performs_uv
made = record {
  hash_size = refl;
  es256_offered = refl;
  uv_kept = λ e. refl;
  consent = refl;
  registered = record {
    key = new_key;
    tried = 0;
    none_excluded = refl;
    new_key = refl;
    issued = record {
      x_bytes = be_bytes 32 1;
      y_bytes = be_bytes 32 2;
      cose = 1 ∷ [];
      x_filled = refl;
      y_filled = refl;
      encoded_key = refl;
      encoded = refl;
      after = refl;
    };
  };
}

-- The same request once more, and it excludes the key.
abbrev make_again : MakeCredentialRequest
make_again = record request { exclude_list = known ∷ [] }

make_excluded_after_make_example :
    (make_decoded signer services after_make confirmed (some make_again)).1
    ≡ refuse status_credential_excluded
unfolding made handle_make_credential make_decoded make_verified make_answered make_excluded
    make_registered make_key make_counted make_replied first_accepted fill_bytes verify_user
    new_caching_verifier is_cached wait_for note_result caching_performs_uv performs_uv
make_excluded_after_make_example =
    make_excluded_after_make signer services laws sums server after_make confirmed confirmed request
      make_again (1 ∷ []) made refl (inl refl) refl refl refl refl

abbrev login_with : GetAssertionRequest
login_with = record login { allow_list = known ∷ [] }

get_after_make_example :
    AnswersFor services
      (record { key_handle = 7 ∷ hash; stored = none })
      (get_decoded signer services after_make confirmed (some login_with)).1
unfolding made handle_make_credential make_decoded make_verified make_answered make_excluded
    make_registered make_key make_counted make_replied first_accepted fill_bytes verify_user
    new_caching_verifier is_cached wait_for note_result caching_performs_uv performs_uv
get_after_make_example =
    get_after_make signer services laws sums server after_make confirmed confirmed request
      login_with known (1 ∷ []) made encodes refl refl refl refl refl refl

abbrev passkey : StoredCredential
passkey = resident request hash (7 ∷ hash)

abbrev disk_with : Disk
disk_with = (save marshal unmarshal empty_disk passkey).0

resident_login_example :
    AnswersFor services
      (record { key_handle = 7 ∷ hash; stored = some passkey })
      (get_decoded signer services after_make confirmed (some login)).1
unfolding made save save_loaded store write_encoded write_file load saved_list replace_first
    matching handle_make_credential make_decoded make_verified make_answered make_excluded
    make_registered make_key make_counted make_replied first_accepted fill_bytes verify_user
    new_caching_verifier is_cached wait_for note_result caching_performs_uv performs_uv
resident_login_example =
    resident_login signer services laws sums server after_make confirmed confirmed request login
      (1 ∷ []) [] disk_with made encodes (reads_back (passkey ∷ [])) refl refl refl refl refl refl
      refl refl refl refl

get-Sends : Sends (handle_get_assertion signer services after_make confirmed (2 ∷ [])) (1 ∷ [])
unfolding save save_loaded store write_encoded write_file load saved_list replace_first matching
    find_by_rp_id make_saved resident handle_make_credential make_decoded make_verified
    make_answered make_excluded make_registered make_key make_counted make_replied first_accepted
    fill_bytes handle_get_assertion get_decoded get_listed get_found get_resolved get_verified
    get_answered get_counted get_signed get_encoded verify_user new_caching_verifier is_cached
    wait_for note_result caching_performs_uv performs_uv
get-Sends = refl

handle_get_assertion-Asserted_example :
    (req : GetAssertionRequest) × (services.unmarshal_get_assertion (2 ∷ []) ≡ some req)
    × Asserted signer services after_make confirmed req
        (handle_get_assertion signer services after_make confirmed (2 ∷ [])).0
        (1 ∷ [])
handle_get_assertion-Asserted_example =
    handle_get_assertion-Asserted signer services after_make confirmed (2 ∷ []) (1 ∷ []) get-Sends

abbrev authentication : AuthenticatorAuthReq
authentication = record {
  ctrl = 3;
  challenge_param = replicate 32 1;
  application_param = replicate 32 2;
  key_handle = 7 ∷ replicate 32 2;
}

abbrev signature : Bytes
signature = replicate 32 2

auth-Confirms :
    Confirms
      (handle_authenticate signer services server authentication (result true))
      (1 ∷ 0 ∷ 0 ∷ 0 ∷ 0 ∷ signature)
unfolding handle_authenticate auth_checked auth_present auth_sign auth_counted auth_signed
    signed_data
auth-Confirms = refl

handle_authenticate_ok_example :
    ((signer.sign_asn1 0 (7 ∷ replicate 32 2) (replicate 32 2) (services.sum256 dummy_text)).1
      ≢ none)
    × ((up : ℕ) × PresenceByte signer services authentication (result true) up
        × AuthSigned signer services 0 authentication up (1 ∷ 0 ∷ 0 ∷ 0 ∷ 0 ∷ signature))
handle_authenticate_ok_example =
    handle_authenticate_ok signer services server authentication (result true)
      (1 ∷ 0 ∷ 0 ∷ 0 ∷ 0 ∷ signature) auth-Confirms

abbrev registration : AuthenticatorRegisterReq
registration = record { challenge_param = replicate 32 1; application_param = replicate 32 2 }

abbrev registered_data : Bytes
registered_data = 5 ∷ 4 ∷ 1 ∷ 2 ∷ 33 ∷ 7 ∷ (replicate 32 2 ++ (48 ∷ 0 ∷ replicate 31 2))

register-Confirms :
    Confirms (handle_register signer services server registration (result true)) registered_data
unfolding handle_register register_site site_registered point_marshalled register_signed
    registration_data
register-Confirms = refl

handle_register_ok_example :
    (result true ≡ result true) × SiteRegistered signer services server registration registered_data
handle_register_ok_example =
    handle_register_ok signer services server registration (result true) registered_data
      register-Confirms

signer-Fits : (k : ℕ) (a : Bytes) → Fits signer services (signer.register_key k a).1
signer-Fits k a = (omega arith, omega arith)

handle_ctap2-AnswersCtap2_example :
    AnswersCtap2 (handle_ctap2 signer services server confirmed (1 ∷ 0 ∷ []))
handle_ctap2-AnswersCtap2_example =
    handle_ctap2-AnswersCtap2 signer services server confirmed (1 ∷ 0 ∷ []) signer-Fits

-- A request of a single byte, as a message of one frame.
run_packets-run_round_example :
    (evt : AuthEvent) × (status : ℕ) × (payload : Bytes) × (run_packets tape token
        (parse_packets (reports 0 (frames 5 cmd_cbor (4 ∷ [])))).0
      ≡ (record token { assembly = empty_assembly }, evt ∷ []))
    × (run_round signer services tape server [] evt confirmed (result true)
        ≡ some (
          (handle_ctap2 signer services server confirmed (4 ∷ [])).0,
          (write_all tape [] (frames 5 cmd_cbor (status ∷ payload))).0,
        ))
run_packets-run_round_example =
    run_packets-run_round signer services tape token server 0 5 (4 ∷ []) confirmed (result true)
      (omega arith) (omega arith) signer-Fits

run_event-Survives_example : Survives (
    run_event signer services server
      (msg_event 5 (decode_authenticator_request (codes "hello")))
      confirmed
      (result true))
run_event-Survives_example =
    run_event-Survives signer services (λ k a. (_, refl)) server 5 (codes "hello") confirmed
      (result true)
