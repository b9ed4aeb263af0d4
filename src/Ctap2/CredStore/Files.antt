-- ===== src/Ctap2/CredStore/Files.antt =====
-- ctap2/credstore.go: `Save` and `FindByRPID` on the file.
use linux_id.Common.{
  ◌≡◌, sym, ◌∙◌, true, false, Option, none, some, List, [], ◌∷◌, Bytes, ok, bytes_equal,
  bytes_equal→eq, bytes_equal_refl, Bool-cases, Option-cases, inl, inr, All, if_cases, arith,
}
use linux_id.Ctap2.CredStore.{
  StoredCredential, Disk, StoreError, matching, load, write_file, write_encoded, store, saved_list,
  save_loaded, save, find_by_rp_id,
}
use linux_id.Ctap2.CredStore.Laws.{lookup_id, lookup_id-saved_list}

-- Every entry that is found belongs to the relying party.
pub All-matching :
    (h : Bytes) (cs : List StoredCredential) → All (λ c. c.rp_id_hash ≡ h) (matching h cs)
unfolding matching
All-matching h [] = tt
All-matching h (c ∷ cs) =
    if_cases (All (λ c. c.rp_id_hash ≡ h)) (bytes_equal c.rp_id_hash h) (c ∷ matching h cs)
      (matching h cs) (λ e. (bytes_equal→eq _ _ e, All-matching h cs)) (λ _. All-matching h cs)

lookup_id-matching :
    (h i : Bytes) (c : StoredCredential) (cs : List StoredCredential)
    → lookup_id i cs ≡ some c
    → bytes_equal c.rp_id_hash h ≡ true
    → lookup_id i (matching h cs) ≡ some c
unfolding matching
lookup_id-matching h i c [] e m = cc
lookup_id-matching h i c (x ∷ xs) e m = elim (Bool-cases (bytes_equal x.cred_id i)) [
  | inl hit ↦
      let same : some x ≡ some c = rw hit at e in
      let mx : bytes_equal x.rp_id_hash h ≡ true = ground (arith, same, m) in rw (mx, hit) same
  | inr miss ↦ ground (arith, lookup_id-matching h i c xs)
]

module _ (marshal : List StoredCredential → Option Bytes)
    (unmarshal : Bytes → Option (List StoredCredential)) where
  -- A failed `Save` leaves the file of credentials as it was, at whichever call it fails.
  pub save_failed :
      (d d' : Disk) (c : StoredCredential) (e : StoreError)
      → save marshal unmarshal d c ≡ (d', some e)
      → d'.file ≡ d.file
  unfolding save save_loaded store write_encoded write_file
  save_failed d d' c e h = ground arith

  -- The JSON of a list is read back as it was, as for texts that are valid UTF-8.
  abbrev pub ReadsBack : List StoredCredential → Type 0
  ReadsBack cs = (b : Bytes) → marshal cs ≡ some b → unmarshal b ≡ some cs

  store_ok :
      (d d' : Disk) (cs : List StoredCredential)
      → store marshal unmarshal d cs ≡ (d', none)
      → (b : Bytes) × (marshal cs ≡ some b)
        × (d'.file ≡ some b)
        × (d'.tmp ≡ none)
        × (d'.read_denied ≡ d.read_denied)
  unfolding store write_encoded write_file
  store_ok d d' cs h = elim (Option-cases (marshal cs)) [
    | inl e ↦ absurd (ground arith)
    | inr (b, e) ↦ (b, e, ground arith, ground arith, ground arith)
  ]

  save_of_load :
      (d : Disk) (c : StoredCredential) (cs : List StoredCredential)
      → load marshal unmarshal d ≡ ok cs
      → save marshal unmarshal d c ≡ store marshal unmarshal d (saved_list c cs)
  unfolding save save_loaded
  save_of_load d c cs loaded = rw loaded

  -- If the JSON of the new list reads back as it was and the file can be read: after a `Save`
  -- that reports no error the file reads back as the old list with the credential in it, in place
  -- of the first entry with its id or behind all others, and no temporary file is left.
  pub load-save :
      (d d' : Disk) (c : StoredCredential) (cs : List StoredCredential)
      → ReadsBack (saved_list c cs)
      → d.read_denied ≡ false
      → load marshal unmarshal d ≡ ok cs
      → save marshal unmarshal d c ≡ (d', none)
      → (load marshal unmarshal d' ≡ ok (saved_list c cs)) × (d'.tmp ≡ none)
  load-save d d' c cs back readable loaded saved =
      let (b, wrote, now, clean, same) =
        store_ok d d' (saved_list c cs) (sym (save_of_load d c cs loaded) ∙ saved) in
      (unfold load in rw (now, same, readable, back b wrote), clean)

  -- If the JSON of the new list reads back as it was and the file can be read: after a `Save`
  -- that reports no error, `FindByRPID` for the relying party of the credential succeeds, has the
  -- credential under its id, and holds credentials of this relying party only.
  find_by_rp_id-save :
      (d d' : Disk) (c : StoredCredential) (cs : List StoredCredential)
      → ReadsBack (saved_list c cs)
      → d.read_denied ≡ false
      → load marshal unmarshal d ≡ ok cs
      → save marshal unmarshal d c ≡ (d', none)
      → (fs : List StoredCredential) × (find_by_rp_id marshal unmarshal d' c.rp_id_hash ≡ ok fs)
        × (lookup_id c.cred_id fs ≡ some c)
        × All (λ f. f.rp_id_hash ≡ c.rp_id_hash) fs
  unfolding find_by_rp_id
  find_by_rp_id-save d d' c cs back readable loaded saved = (
    matching c.rp_id_hash (saved_list c cs),
    rw ((load-save d d' c cs back readable loaded saved).0),
    lookup_id-matching c.rp_id_hash c.cred_id c (saved_list c cs)
        (rw (lookup_id-saved_list c.cred_id c cs, bytes_equal_refl c.cred_id))
        (bytes_equal_refl c.rp_id_hash),
    All-matching c.rp_id_hash (saved_list c cs),
  )
