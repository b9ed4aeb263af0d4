-- ===== src/Tpm/Laws.antt =====
-- tpm/tpm.go: the signer of the TPM by what the commands of a TPM promise.
use mathlib.Core.Path.{subst}
use linux_id.Common.{
  ℕ, ◌≤◌, ◌<◌, ◌^◌, ◌≡◌, ◌∙◌, refl, Bool, true, false, Option, none, some, Bytes, length, le→leb,
  from_be, sym, ◌++◌, codes, take-append-drop,
}
use linux_id.Server.Types.{RegisteredKey}
use linux_id.Server.SignerLaws.{SignerLaws}
use linux_id.Tpm.Handle.{HandleParts, encode_handle, decode_handle}
use linux_id.Tpm.HandleLaws.{fits, decode_handle-encode_handle}
use linux_id.Tpm.Device.{
  Device, Loaded, PublicTemplate, primary_key_template, child_template, seed_size_bytes,
}
use linux_id.Tpm.Signer.{
  public_area_read, public_key, created, tpm_register_key, signed, with_parts, tpm_sign_asn1,
  tpm_signer,
}
use linux_id.Tpm.Runs.{
  Each, Gives, none-Each, connected-Each, holding-Each, connected-Gives, holding-Gives,
  refused_with-none, holding-none, connected-none,
}

-- What the code relies on of a TPM that works: a primary key of a template is always made, and the
-- same template gives the same key, so that what it wraps loads below it and nothing else does;
-- the keys of templates that differ in their `Unique` are different, and load nothing in common.
-- `loads` tells which private and public areas load below the primary key of a template.
pub record TpmLaws {W : Type 0} (dev : Device W) : Type 1 where
  pub IsPrimary : W → Loaded → PublicTemplate → Type 0
  pub IsKey : W → Loaded → Type 0
  pub loads : PublicTemplate → Bytes → Bytes → Bool
  pub opens : (w : W) → (dev.open_device w).1 ≡ true
  pub random_length : (w : W) (n : ℕ) → length (dev.random w n).1 ≡ n
  pub primary_made :
      (w : W) (seed a : Bytes)
      → (v : W) × (o : Loaded) × (dev.create_primary w (primary_key_template dev seed a)
          ≡ (v, some o))
  pub primary_matches :
      (w v : W) (seed a : Bytes) (o : Loaded)
      → dev.create_primary w (primary_key_template dev seed a) ≡ (v, some o)
      → IsPrimary v o (primary_key_template dev seed a)
  pub created_loads :
      (w v : W) (o : Loaded) (t : PublicTemplate) (private_area public_area : Bytes)
      → IsPrimary w o t
      → dev.create w o child_template ≡ (v, some (private_area, public_area))
      → (loads t private_area public_area ≡ true)
        × (length private_area ≤ 255)
        × (length public_area ≤ 255)
  pub load_good :
      (w : W) (o : Loaded) (t : PublicTemplate) (private_area public_area : Bytes)
      → IsPrimary w o t
      → loads t private_area public_area ≡ true
      → (v : W) × (key : Loaded) × (dev.load w o private_area public_area ≡ (v, some key))
        × IsKey v key
  pub load_bad :
      (w : W) (o : Loaded) (t : PublicTemplate) (private_area public_area : Bytes)
      → IsPrimary w o t
      → loads t private_area public_area ≡ false
      → (dev.load w o private_area public_area).1 ≡ none
  pub loads_apart :
      (t u : PublicTemplate) (private_area public_area : Bytes)
      → loads t private_area public_area ≡ true
      → loads u private_area public_area ≡ true
      → t.x ++ t.y ≡ u.x ++ u.y
  pub signs :
      (w : W) (key : Loaded) (digest : Bytes)
      → IsKey w key
      → length digest ≡ 32
      → (sig r s d : Bytes) × ((dev.sign w key digest).1 ≡ some sig)
        × (dev.ecdsa sig ≡ some (r, s))
        × (dev.der (from_be 0 r) (from_be 0 s) ≡ some d)
  pub coordinates :
      (w v : W) (handle : ℕ) (area x y : Bytes)
      → dev.read_public w handle ≡ (v, some area)
      → dev.ecc_point area ≡ some (x, y)
      → (from_be 0 x < 2 ^ 256) × (from_be 0 y < 2 ^ 256)

module _ {W : Type 0} (dev : Device W) (laws : TpmLaws dev) where
  abbrev template_of : HandleParts → Bytes → PublicTemplate
  template_of parts a = primary_key_template dev parts.seed a

  -- The handle is valid, and its key loads below the primary key of its seed and the application.
  abbrev parts_accepted : Bytes → Option HandleParts → Bool
  parts_accepted a none = false
  parts_accepted a (some parts) =
      laws.loads (template_of parts a) parts.private_area parts.public_area

  abbrev tpm_accepts : W → Bytes → Bytes → Bool
  tpm_accepts w h a = parts_accepted a (decode_handle h)

  signed-Gives :
      (w : W) (key : Loaded) (digest : Bytes)
      → laws.IsKey w key
      → length digest ≡ 32
      → Gives dev (signed dev (dev.sign w key digest))
  signed-Gives w key digest k n =
      let (sig, r, s, d, made, parsed, encoded) = laws.signs w key digest k n in
      (d, answer (dev.sign w key digest) sig r s d made parsed encoded)
    where
      answer :
          (o : W × Option Bytes) (sig r s d : Bytes)
          → o.1 ≡ some sig
          → dev.ecdsa sig ≡ some (r, s)
          → dev.der (from_be 0 r) (from_be 0 s) ≡ some d
          → (signed dev o).1 ≡ some d
      answer (v, none) sig r s d made parsed encoded = cc
      answer (v, some x) sig r s d made parsed encoded =
          let same : x ≡ sig = cc in rw (same, parsed) encoded

  with_parts-Gives :
      (w : W) (a digest : Bytes) (o : Option HandleParts)
      → parts_accepted a o ≡ true
      → length digest ≡ 32
      → Gives dev (with_parts dev w a digest o)
  with_parts-Gives w a digest none e n = cc
  with_parts-Gives w a digest (some parts) e n =
      let (v, parent, made) = laws.primary_made w parts.seed a in
      let primary = laws.primary_matches w v parts.seed a parent made in
      let (u, key, loaded, ready) =
        laws.load_good v parent (template_of parts a) parts.private_area parts.public_area primary
          e in
      holding-Gives dev _ _ v parent made
        (holding-Gives dev _ _ u key loaded (signed-Gives u key digest ready n))

  with_parts-none :
      (w : W) (a digest : Bytes) (o : Option HandleParts)
      → parts_accepted a o ≡ false
      → (with_parts dev w a digest o).1 ≡ none
  with_parts-none w a digest none e = refl
  with_parts-none w a digest (some parts) e =
      let (v, parent, made) = laws.primary_made w parts.seed a in
      holding-none dev _ _ v parent made (
        refused_with-none dev (dev.load v parent parts.private_area parts.public_area) _ (
          laws.load_bad v parent (template_of parts a) parts.private_area parts.public_area
            (laws.primary_matches w v parts.seed a parent made) e))

  -- What a new key is good for.
  abbrev Registered : Bytes → RegisteredKey → Type 0
  Registered a key =
      (parts_accepted a (decode_handle key.key_handle) ≡ true)
      × (key.x < 2 ^ 256)
      × (key.y < 2 ^ 256)

  public_area_read-Registered :
      (a : Bytes) (parts : HandleParts) (w : W) (handle : ℕ)
      → parts_accepted a (some parts) ≡ true
      → fits parts ≡ true
      → Each dev (Registered a) (public_area_read dev parts (dev.read_public w handle))
  public_area_read-Registered a parts w handle good fit = read (dev.read_public w handle) refl
    where
      decoded : decode_handle (encode_handle parts) ≡ some parts
      decoded = decode_handle-encode_handle parts ∙ rw fit

      some_injective : {k l : RegisteredKey} → some k ≡ some l → k ≡ l
      some_injective z = cc

      no_key : (key : RegisteredKey) → none ≡ some key → Registered a key
      no_key key z = cc

      point :
          (v : W) (area : Bytes)
          → dev.read_public w handle ≡ (v, some area)
          → (o : Option (Bytes × Bytes)) → dev.ecc_point area ≡ o
          → (key : RegisteredKey) → public_key dev parts o ≡ some key
          → Registered a key
      point v area e none f key made = no_key key made
      point v area e (some (x, y)) f key made =
          let (x_ok, y_ok) = laws.coordinates w v handle area x y e f in
          subst (Registered a) (some_injective made) (rw decoded good, x_ok, y_ok)

      read :
          (r : W × Option Bytes)
          → dev.read_public w handle ≡ r
          → Each dev (Registered a) (public_area_read dev parts r)
      read (v, none) e = none-Each dev (Registered a) v
      read (v, some area) e = point v area e (dev.ecc_point area) refl

  created-Registered :
      (a : Bytes) (w : W) (parent : Loaded) (seed : Bytes)
      → laws.IsPrimary w parent (primary_key_template dev seed a)
      → length seed ≡ 20
      → Each dev (Registered a) (created dev parent seed (dev.create w parent child_template))
  created-Registered a w parent seed primary n = made (dev.create w parent child_template) refl
    where
      made :
          (r : W × Option (Bytes × Bytes))
          → dev.create w parent child_template ≡ r
          → Each dev (Registered a) (created dev parent seed r)
      made (v, none) e = none-Each dev (Registered a) v
      made (v, some (private_area, public_area)) e =
          let (good, p, q) =
            laws.created_loads w v parent (primary_key_template dev seed a) private_area public_area
              primary e in
          let parts : HandleParts = record {
            private_area = private_area;
            public_area = public_area;
            seed = seed;
          } in
          let fit : fits parts ≡ true =
            rw (le→leb (length private_area) 255 p, le→leb (length public_area) 255 q, n) refl in
          holding-Each dev (Registered a) _ _
            λ u key loaded. public_area_read-Registered a parts u key.handle good fit

  tpm_register_key-Registered :
      (w : W) (a : Bytes) → Each dev (Registered a) (tpm_register_key dev w a)
  unfolding tpm_register_key
  tpm_register_key-Registered w a = connected-Each dev (Registered a) (dev.open_device w) _ λ v.
      holding-Each dev (Registered a) _ _ λ u parent made.
        created-Registered a u parent (dev.random v seed_size_bytes).1
          (laws.primary_matches _ u _ a parent made) (laws.random_length v seed_size_bytes)

  kept_laws : SignerLaws (tpm_signer dev)
  unfolding tpm_sign_asn1
  kept_laws = record {
    accepts = tpm_accepts;
    sign_good = λ w h a d e n.
        connected-Gives dev (dev.open_device w) _ (laws.opens w)
          (λ v. with_parts-Gives v a d (decode_handle h) e n);
    sign_bad = λ w h a d e.
        connected-none dev (dev.open_device w) _ (λ v. with_parts-none v a d (decode_handle h) e);
    sign_keeps = λ w h a d g b. refl;
    counter_keeps = λ w g b. refl;
    register_keeps = λ w a g b e. e;
    register_good = λ w a key e. tpm_register_key-Registered w a key e;
  }

  -- Key handles are bound to their application: one that is accepted for two decodes, and what HKDF
  -- derives from its seed is the same for both.
  pub record IsBound (l : SignerLaws (tpm_signer dev)) : Type 0 where
    pub bound :
        (w v : W) (h a b : Bytes)
        → l.accepts w h a ≡ true
        → l.accepts v h b ≡ true
        → (parts : HandleParts) × (decode_handle h ≡ some parts)
          × (dev.hkdf parts.seed (codes "tpm-fido-application-key" ++ a) 64
              ≡ dev.hkdf parts.seed (codes "tpm-fido-application-key" ++ b) 64)
    pub lasting : (w v : W) (h a : Bytes) → l.accepts w h a ≡ l.accepts v h a

  parts-bound :
      (a b : Bytes) (o : Option HandleParts)
      → parts_accepted a o ≡ true
      → parts_accepted b o ≡ true
      → (parts : HandleParts) × (o ≡ some parts)
        × (dev.hkdf parts.seed (codes "tpm-fido-application-key" ++ a) 64
            ≡ dev.hkdf parts.seed (codes "tpm-fido-application-key" ++ b) 64)
  unfolding primary_key_template
  parts-bound a b none e f = absurd (clash e)
    where
      clash : false ≡ true → ⊥
      clash z = cc
  parts-bound a b (some parts) e f = (
    parts,
    refl,
    sym (take-append-drop 32 (dev.hkdf parts.seed (codes "tpm-fido-application-key" ++ a) 64))
        ∙ laws.loads_apart (template_of parts a) (template_of parts b) parts.private_area
            parts.public_area e f
        ∙ take-append-drop 32 (dev.hkdf parts.seed (codes "tpm-fido-application-key" ++ b) 64),
  )

  -- On a TPM that works the TPM signer keeps the laws that the handlers rely on. Whether it accepts a
  -- key handle for an application does not depend on the state of the TPM, and a handle that it accepts
  -- for two applications decodes to a seed from which HKDF derives the same bytes for both.
  pub tpm_signer-SignerLaws : (l : SignerLaws (tpm_signer dev)) × IsBound l
  unfolding decode_handle kept_laws
  tpm_signer-SignerLaws = (
    kept_laws,
    record {
      bound = λ w v h a b e f. parts-bound a b (decode_handle h) e f;
      lasting = λ w v h a. refl;
    },
  )
