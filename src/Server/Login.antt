-- ===== src/Server/Login.antt =====
-- main.go: `handleGetAssertion` after `handleMakeCredential`.
use linux_id.Common.{
  ◌≡◌, refl, sym, ap, ◌∙◌, true, false, Option, none, some, List, [], ◌∷◌, ◌++◌, Bytes, ok, length,
  Bool-cases, inl, inr, bytes_equal, bytes_equal_refl,
}
use linux_id.Ctap2.Types.{MakeCredentialRequest, GetAssertionRequest, CredDescriptor, status_ok}
use mathlib.Core.Path.{subst}
use linux_id.Ctap2.CredStore.{
  Disk, StoredCredential, StoreError, matching, replace_first, saved_list, load, save,
  find_by_rp_id,
}
use linux_id.Ctap2.CredStore.Files.{ReadsBack, load-save}
use linux_id.Ctap2.CredStore.Laws.{saved_list-hit, saved_list-miss}
use linux_id.Verifier.{Prompt, Answer, could_not_start, answered, timed_out, verify_user}
use linux_id.Verifier.Laws.{IsOk}
use linux_id.Server.Types.{RegisteredKey, Cbor, Signer, Services, Server, Ending, replied, ctap2}
use linux_id.Server.MakeCredential.{wants_rk, first_accepted, make_saved, resident}
use linux_id.Server.GetAssertion.{
  wants_uv, Chosen, assertion_response, get_answered, get_counted, get_signed, get_encoded,
  get_verified, get_resolved, get_allowed, get_found, get_listed, get_decoded,
}
use linux_id.Server.SignerLaws.{
  SignerLaws, Hashes, find_good, first_accepted-accepts, first_accepted-find_good,
}
use linux_id.Server.Made.{Made}
use linux_id.Server.Asserted.{auth_data_of}
use linux_id.Server.Passkey.{Made-accepts}

-- The encoder fails on no response.
abbrev pub Encodes : Services → Type 0
Encodes lib = (v : Cbor) → (b : Bytes) × (lib.cbor_marshal v ≡ some b)

-- The answer is a success for the credential `c`: it names its key handle and, for a resident one,
-- its user.
abbrev pub AnswersFor : Services → Chosen → Ending → Type 0
AnswersFor lib c e =
    (auth_data sig d : Bytes) × (lib.cbor_marshal (assertion_response c auth_data sig) ≡ some d)
    × (e ≡ replied (ctap2 status_ok d))

-- A party without credentials has, after a save for it, the new one.
matching-saved_list :
    (h : Bytes) (c : StoredCredential) (cs : List StoredCredential)
    → c.rp_id_hash ≡ h
    → matching h cs ≡ []
    → matching h (saved_list c cs) ≡ c ∷ []
unfolding matching
matching-saved_list h c [] e m = unfold saved_list replace_first in rw (e, bytes_equal_refl h)
matching-saved_list h c (x ∷ xs) e m = elim (Bool-cases (bytes_equal x.rp_id_hash h)) [
  | inl hit ↦ absurd (cons_ne_nil (rw (hit, matching) at m))
  | inr miss ↦
      let rest : matching h xs ≡ [] = rw (miss, matching) at m in
      elim (Bool-cases (bytes_equal x.cred_id c.cred_id)) [
        | inl same ↦ rw (saved_list-hit c x xs same) (rw (rest, e, bytes_equal_refl h))
        | inr other ↦
            rw (saved_list-miss c x xs other) (rw miss (matching-saved_list h c xs e rest))
      ]
]
  where
    cons_ne_nil : {y : StoredCredential} {ys : List StoredCredential} → List.◌∷◌ y ys ≡ [] → ⊥
    cons_ne_nil z = cc

module _ (lib : Services) where
  -- The entry that a request leads to.
  abbrev pub new_resident : MakeCredentialRequest → RegisteredKey → StoredCredential
  new_resident req key = resident req (lib.sum256 req.rp.id) key.key_handle

module _ {S : Type 0} (signer : Signer S) (lib : Services) (laws : SignerLaws signer)
    (sums : Hashes lib) where
  get_signed_sends :
      (s : Server S) (c : Chosen) (auth_data sig : Bytes) (r : S × Option Bytes)
      → Encodes lib
      → r.1 ≡ some sig
      → AnswersFor lib c (get_signed signer lib s c auth_data r).1
  unfolding get_signed get_encoded
  get_signed_sends s c auth_data sig (k, none) enc e = cc
  get_signed_sends s c auth_data sig (k, some x) enc e =
      let (d, made) = enc (assertion_response c auth_data x) in (auth_data, x, d, made, rw made)

  get_answered_sends :
      (s : Server S) (req : GetAssertionRequest) (c : Chosen) (a : Answer)
      → Encodes lib
      → IsOk a
      → laws.accepts s.keys c.key_handle (lib.sum256 req.rp_id) ≡ true
      → AnswersFor lib c (get_answered signer lib s req c a).1
  unfolding get_answered get_counted
  get_answered_sends s req c could_not_start enc given g = absurd given
  get_answered_sends s req c timed_out enc given g = absurd given
  get_answered_sends s req c (answered r) enc given g =
      let k = (signer.counter s.keys).0 in
      let (sig, e) =
        laws.sign_good k c.key_handle (lib.sum256 req.rp_id)
          (lib.sum256 (auth_data_of signer lib s req ++ req.client_data_hash))
          (laws.counter_keeps s.keys c.key_handle (lib.sum256 req.rp_id) ∙ g)
          (sums (auth_data_of signer lib s req ++ req.client_data_hash)) in
      rw given (get_signed_sends s c (auth_data_of signer lib s req) sig _ enc e)

  first_accepted_single :
      (k : S) (a h : Bytes) (cred : CredDescriptor)
      → cred.id ≡ some h
      → laws.accepts k h a ≡ true
      → (first_accepted signer lib k a (cred ∷ [])).1 ≡ some cred
  unfolding find_good
  first_accepted_single k a h cred e g =
      first_accepted-find_good signer lib laws sums k a (cred ∷ []) ∙ rw (e, g)

  get_allowed_sends :
      (s : Server S) (q : Prompt) (req : GetAssertionRequest) (r : S × Option CredDescriptor)
      (cred : CredDescriptor) (h : Bytes)
      → Encodes lib
      → r.1 ≡ some cred
      → cred.id ≡ some h
      → IsOk (verify_user s.verifier q).1
      → laws.accepts r.0 h (lib.sum256 req.rp_id) ≡ true
      → AnswersFor lib
          (record { key_handle = h; stored = none })
          (get_allowed signer lib s q req r).1
  unfolding get_allowed get_resolved get_verified
  get_allowed_sends s q req (k, none) cred h enc e i given g = cc
  get_allowed_sends s q req (k, some x) cred h enc e i given g =
      let id : x.id ≡ some h = ap_id x cred (cc) ∙ i in
      rw id (
        get_answered_sends (record s { keys = k; verifier = (verify_user s.verifier q).0 }) req
          (record { key_handle = h; stored = none }) (verify_user s.verifier q).1 enc given g)
    where
      ap_id : (x y : CredDescriptor) → x ≡ y → x.id ≡ y.id
      ap_id x y z = ap (λ (c : CredDescriptor). c.id) z

  get_decoded_valid :
      (s : Server S) (q : Prompt) (req : GetAssertionRequest)
      → length req.client_data_hash ≡ 32
      → wants_uv req.options ≡ false
      → get_decoded signer lib s q (some req) ≡ get_listed signer lib s q req req.allow_list
  unfolding get_decoded
  get_decoded_valid s q req sized uv = rw (sized, uv)

  get_listed_cons :
      (s : Server S) (q : Prompt) (req : GetAssertionRequest) (c : CredDescriptor)
      (cs : List CredDescriptor)
      → get_listed signer lib s q req (c ∷ cs)
        ≡ get_allowed signer lib s q req
            (first_accepted signer lib s.keys (lib.sum256 req.rp_id) (c ∷ cs))
  unfolding get_listed
  get_listed_cons s q req c cs = refl

  get_listed_nil :
      (s : Server S) (q : Prompt) (req : GetAssertionRequest)
      → get_listed signer lib s q req []
        ≡ get_found signer lib s q req
            (find_by_rp_id lib.json_marshal lib.json_unmarshal s.disk (lib.sum256 req.rp_id))
  unfolding get_listed
  get_listed_nil s q req = refl

  -- For a signer with the laws, hashes of 32 bytes, and a CBOR encoder that does not fail: after
  -- a successful MakeCredential, a GetAssertion for the same relying party that allows the new
  -- credential alone, with a client data hash of 32 bytes and not asking for user verification,
  -- succeeds if it is consented to, and answers for that credential.
  pub get_after_make :
      (s s' : Server S) (p q : Prompt) (req : MakeCredentialRequest) (login : GetAssertionRequest)
      (cred : CredDescriptor) (d : Bytes) (m : Made signer lib s p req s' d)
      → Encodes lib
      → login.rp_id ≡ req.rp.id
      → login.allow_list ≡ cred ∷ []
      → cred.id ≡ some m.registered.key.key_handle
      → length login.client_data_hash ≡ 32
      → wants_uv login.options ≡ false
      → IsOk (verify_user s'.verifier q).1
      → AnswersFor lib
          (record { key_handle = m.registered.key.key_handle; stored = none })
          (get_decoded signer lib s' q (some login)).1
  get_after_make s s' p q req login cred d m enc same only id sized uv given =
      let h = m.registered.key.key_handle in
      let good : laws.accepts s'.keys h (lib.sum256 login.rp_id) ≡ true =
        rw same (Made-accepts signer lib laws sums s s' p req d m) in
      subst
        (λ (r : Server S × Ending). AnswersFor lib (record { key_handle = h; stored = none }) r.1)
        (sym (
          get_decoded_valid s' q login sized uv
          ∙ ap (get_listed signer lib s' q login) only
          ∙ get_listed_cons s' q login cred []))
        (get_allowed_sends s' q login _ cred h enc
          (first_accepted_single s'.keys (lib.sum256 login.rp_id) h cred id good) id given
          (first_accepted-accepts signer lib laws sums s'.keys (lib.sum256 login.rp_id) (cred ∷ [])
              h (lib.sum256 login.rp_id)
            ∙ good))

  get_found_sends :
      (s : Server S) (q : Prompt) (req : GetAssertionRequest) (c : StoredCredential)
      → Encodes lib
      → IsOk (verify_user s.verifier q).1
      → laws.accepts s.keys c.cred_id (lib.sum256 req.rp_id) ≡ true
      → AnswersFor lib
          (record { key_handle = c.cred_id; stored = some c })
          (get_found signer lib s q req (ok (c ∷ []))).1
  unfolding get_found get_resolved get_verified
  get_found_sends s q req c enc given g =
      get_answered_sends (record s { verifier = (verify_user s.verifier q).0 }) req
        (record { key_handle = c.cred_id; stored = some c }) (verify_user s.verifier q).1 enc given
        g

  -- What the store finds for a party that had no credential before, once it is saved.
  find_after_save :
      (s : Server S) (req : MakeCredentialRequest) (key : RegisteredKey)
      (cs : List StoredCredential) (d' : Disk)
      → ReadsBack lib.json_marshal lib.json_unmarshal
          (saved_list (resident req (lib.sum256 req.rp.id) key.key_handle) cs)
      → s.disk.read_denied ≡ false
      → load lib.json_marshal lib.json_unmarshal s.disk ≡ ok cs
      → matching (lib.sum256 req.rp.id) cs ≡ []
      → save lib.json_marshal lib.json_unmarshal s.disk
          (resident req (lib.sum256 req.rp.id) key.key_handle)
        ≡ (d', none)
      → find_by_rp_id lib.json_marshal lib.json_unmarshal d' (lib.sum256 req.rp.id)
        ≡ ok (resident req (lib.sum256 req.rp.id) key.key_handle ∷ [])
  unfolding find_by_rp_id resident
  find_after_save s req key cs d' back readable loaded fresh saved =
      let (now, clean) =
        load-save lib.json_marshal lib.json_unmarshal s.disk d'
          (resident req (lib.sum256 req.rp.id) key.key_handle) cs back readable loaded saved in
      rw now (
        ap ok (
          matching-saved_list (lib.sum256 req.rp.id)
            (resident req (lib.sum256 req.rp.id) key.key_handle) cs refl fresh))

  make_saved-disk :
      (s : Server S) (req : MakeCredentialRequest) (key : RegisteredKey)
      → wants_rk req.options ≡ true
      → (make_saved signer lib s req key).disk
        ≡ (save lib.json_marshal lib.json_unmarshal s.disk
            (resident req (lib.sum256 req.rp.id) key.key_handle)).0
  unfolding make_saved
  make_saved-disk s req key rk = rw rk

  Made-disk :
      (s s' : Server S) (p : Prompt) (req : MakeCredentialRequest) (d : Bytes)
      (m : Made signer lib s p req s' d)
      → wants_rk req.options ≡ true
      → s'.disk
        ≡ (save lib.json_marshal lib.json_unmarshal s.disk
            (resident req (lib.sum256 req.rp.id) m.registered.key.key_handle)).0
  Made-disk s s' p req d m rk =
      ap (λ (t : Server S). t.disk) m.registered.issued.after
      ∙ make_saved-disk _ req m.registered.key rk

  -- For a signer with the laws, hashes of 32 bytes, a CBOR encoder that does not fail, and JSON
  -- that reads back the list with the new credential: after a successful MakeCredential of a resident credential
  -- whose `Save` reports no error, on a readable store without a credential of the relying party,
  -- a GetAssertion for this party without an allow list, with a client data hash of 32 bytes and
  -- not asking for user verification, succeeds if it is consented to. It answers for the new
  -- credential and names the user it was made for.
  pub resident_login :
      (s s' : Server S) (p q : Prompt) (req : MakeCredentialRequest) (login : GetAssertionRequest)
      (d : Bytes) (cs : List StoredCredential) (disk' : Disk) (m : Made signer lib s p req s' d)
      → Encodes lib
      → ReadsBack lib.json_marshal lib.json_unmarshal
          (saved_list (new_resident lib req m.registered.key) cs)
      → wants_rk req.options ≡ true
      → s.disk.read_denied ≡ false
      → load lib.json_marshal lib.json_unmarshal s.disk ≡ ok cs
      → matching (lib.sum256 req.rp.id) cs ≡ []
      → save lib.json_marshal lib.json_unmarshal s.disk (new_resident lib req m.registered.key)
        ≡ (disk', none)
      → login.rp_id ≡ req.rp.id
      → login.allow_list ≡ []
      → length login.client_data_hash ≡ 32
      → wants_uv login.options ≡ false
      → IsOk (verify_user s'.verifier q).1
      → AnswersFor lib
          (record {
            key_handle = m.registered.key.key_handle;
            stored = some (new_resident lib req m.registered.key);
          })
          (get_decoded signer lib s' q (some login)).1
  unfolding resident
  resident_login s s' p q req login d cs disk' m enc back rk readable loaded fresh saved same
        none_allowed sized uv given =
      let cred = resident req (lib.sum256 req.rp.id) m.registered.key.key_handle in
      let here : s'.disk ≡ disk' =
        Made-disk s s' p req d m rk ∙ ap (λ (r : Disk × Option StoreError). r.0) saved in
      let found : find_by_rp_id lib.json_marshal lib.json_unmarshal s'.disk (lib.sum256 login.rp_id)
          ≡ ok (cred ∷ []) =
        rw (here, same)
          (find_after_save s req m.registered.key cs disk' back readable loaded fresh saved) in
      subst
        (λ (r : Server S × Ending).
          AnswersFor lib (record { key_handle = cred.cred_id; stored = some cred }) r.1)
        (sym (
          get_decoded_valid s' q login sized uv
          ∙ ap (get_listed signer lib s' q login) none_allowed
          ∙ get_listed_nil s' q login
          ∙ ap (get_found signer lib s' q login) found))
        (get_found_sends s' q login cred enc given
          (rw same (Made-accepts signer lib laws sums s s' p req d m)))
