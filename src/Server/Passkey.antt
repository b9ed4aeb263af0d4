-- ===== src/Server/Passkey.antt =====
-- main.go: a second `handleMakeCredential` after one that succeeded.
use linux_id.Common.{
  ◌⊎◌, ◌≡◌, refl, ap, ◌∙◌, Bool, true, false, Option, none, some, List, [], ◌∷◌, Bytes, length,
  Bool-cases, inl, inr, arith,
}
use linux_id.Ctap2.Types.{MakeCredentialRequest, CredDescriptor, status_credential_excluded}
use linux_id.Verifier.{Prompt, Answer, could_not_start, answered, timed_out, verify_user}
use linux_id.Verifier.Laws.{IsOk}
use linux_id.Server.Types.{RegisteredKey, Signer, Services, Server}
use linux_id.Server.MakeCredential.{
  refuse, has_es256, wants_uv, id_bytes, make_saved, make_answered, make_excluded, make_verified,
  make_decoded,
}
use linux_id.Server.SignerLaws.{SignerLaws, Hashes, find_good, first_accepted-find_good}
use linux_id.Server.Made.{Made}

module _ {S : Type 0} (signer : Signer S) (lib : Services) (laws : SignerLaws signer)
    (sums : Hashes lib) where
  make_saved-keys :
      (s : Server S) (req : MakeCredentialRequest) (key : RegisteredKey)
      → (make_saved signer lib s req key).keys ≡ s.keys
  unfolding make_saved
  make_saved-keys s req key = ground arith

  -- The key of a successful MakeCredential is good for its relying party from then on.
  pub Made-accepts :
      (s s' : Server S) (p : Prompt) (req : MakeCredentialRequest) (d : Bytes)
      (m : Made signer lib s p req s' d)
      → laws.accepts s'.keys m.registered.key.key_handle (lib.sum256 req.rp.id) ≡ true
  Made-accepts s s' p req d m =
      let r = m.registered in
      ap (λ (t : Server S). laws.accepts t.keys r.key.key_handle (lib.sum256 req.rp.id))
        r.issued.after
      ∙ ap (λ (k : S). laws.accepts k r.key.key_handle (lib.sum256 req.rp.id))
          (make_saved-keys _ req r.key)
      ∙ laws.counter_keeps _ r.key.key_handle (lib.sum256 req.rp.id)
      ∙ (laws.register_good r.tried (lib.sum256 req.rp.id) r.key r.new_key).0

  -- A list holds a credential with this id.
  abbrev pub Holds : Bytes → List CredDescriptor → Type 0
  Holds h [] = ⊥
  Holds h (c ∷ cs) = (c.id ≡ some h) ⊎ Holds h cs

  find_good-Holds :
      (good : Bytes → Bool) (h : Bytes) (cs : List CredDescriptor)
      → good h ≡ true
      → Holds h cs
      → (c : CredDescriptor) × (find_good good cs ≡ some c)
  unfolding find_good
  find_good-Holds good h [] g i = absurd i
  find_good-Holds good h (c ∷ cs) g (inl e) =
      let hit : good (id_bytes c) ≡ true = rw e g in (c, rw hit)
  find_good-Holds good h (c ∷ cs) g (inr i) = elim (Bool-cases (good (id_bytes c))) [
    | inl hit ↦ (c, rw hit)
    | inr miss ↦ rw miss (find_good-Holds good h cs g i)
  ]

  make_excluded_hit :
      (s : Server S) (req : MakeCredentialRequest) (r : S × Option CredDescriptor)
      (c : CredDescriptor)
      → r.1 ≡ some c
      → (make_excluded signer lib s req r).1 ≡ refuse status_credential_excluded
  unfolding make_excluded
  make_excluded_hit s req (k, none) c e = cc
  make_excluded_hit s req (k, some x) c e = refl

  make_answered_hit :
      (s : Server S) (req : MakeCredentialRequest) (a : Answer) (h : Bytes)
      → IsOk a
      → laws.accepts s.keys h (lib.sum256 req.rp.id) ≡ true
      → Holds h req.exclude_list
      → (make_answered signer lib s req a).1 ≡ refuse status_credential_excluded
  unfolding make_answered
  make_answered_hit s req could_not_start h given g i = absurd given
  make_answered_hit s req timed_out h given g i = absurd given
  make_answered_hit s req (answered r) h given g i =
      let (c, found) =
        find_good-Holds (λ x. laws.accepts s.keys x (lib.sum256 req.rp.id)) h req.exclude_list g
          i in
      rw given (
        make_excluded_hit s req _ c (
          first_accepted-find_good signer lib laws sums s.keys (lib.sum256 req.rp.id)
            req.exclude_list
          ∙ found))

  -- For a signer with the laws and hashes of 32 bytes: after a successful MakeCredential a
  -- further one for the same relying party, with a client data hash of 32 bytes, ES256 among its
  -- algorithms, not asking for user verification and consented to, that excludes the new
  -- credential is refused with `status_credential_excluded`.
  pub make_excluded_after_make :
      (s s' : Server S) (p q : Prompt) (req again : MakeCredentialRequest) (d : Bytes)
      (m : Made signer lib s p req s' d)
      → again.rp.id ≡ req.rp.id
      → Holds m.registered.key.key_handle again.exclude_list
      → length again.client_data_hash ≡ 32
      → has_es256 again.pub_key_cred_params ≡ true
      → wants_uv again.options ≡ false
      → IsOk (verify_user s'.verifier q).1
      → (make_decoded signer lib s' q (some again)).1 ≡ refuse status_credential_excluded
  unfolding make_decoded make_verified
  make_excluded_after_make s s' p q req again d m same holds sized es256 uv consent =
      let good : laws.accepts s'.keys m.registered.key.key_handle (lib.sum256 again.rp.id) ≡ true =
        rw same (Made-accepts s s' p req d m) in
      rw (sized, es256, uv)
        (make_answered_hit _ again _ m.registered.key.key_handle consent good holds)
