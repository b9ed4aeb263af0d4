-- ===== src/Tests/Chip.antt =====
-- The theorems on the TPM signer, applied: a chip that counts what it makes, whose primary keys are
-- named by their template, and whose private areas hold the name of the key above them.
use mathlib.Core.Path.{subst}
use linux_id.Common.{
  ℕ, suc, ◌+◌, ◌≤◌, ◌<◌, ◌^◌, ◌≡◌, refl, sym, ◌∙◌, ap, Bool, true, false, Option, none, some, [],
  ◌∷◌, ◌++◌, Bytes, codes, take, length, length-take, length-replicate, replicate, from_be,
  bytes_equal, bytes_equal_refl, bytes_equal→eq, take-append-drop, if◌then◌else◌, arith,
}
use linux_id.Server.SignerLaws.{SignerLaws}
use linux_id.Tpm.Device.{primary_key_template, tpm_counter, Device, Loaded, PublicTemplate}
use linux_id.Tpm.Clock.{tpm_counter-bounds}
use linux_id.Tpm.Handle.{HandleParts, encode_handle, decode_handle}
use linux_id.Tpm.HandleLaws.{fits, decode_handle-encode_handle}
use linux_id.Tpm.Signer.{tpm_register_key, tpm_sign_asn1, tpm_signer}
use linux_id.Tpm.Sessions.{recording, replay, tpm-replay}
use linux_id.Tpm.Laws.{TpmLaws, IsBound, tpm_signer-SignerLaws}

abbrev wrap : Bytes → Bytes
wrap name = 7 ∷ name

abbrev key_name : Bytes
key_name = codes "key"

abbrev load_if : ℕ → Bool → ℕ × Option Loaded
load_if w true = (suc w, some (record { handle = w; name = key_name }))
load_if w false = (w, none)

abbrev chip : Device ℕ
chip = record {
  open_device = λ w. (w, true);
  close_device = λ w. w;
  random = λ w n. (w + 1, replicate n w);
  unix_time = λ w. (w, 1700000000 + w);
  create_primary = λ w t. (w + 1, some (record { handle = w; name = t.x ++ t.y }));
  create = λ w o t. (w, some (wrap o.name, 4 ∷ []));
  load = λ w o priv pub_. load_if w (bytes_equal priv (wrap o.name));
  read_public = λ w h. (w, some (4 ∷ []));
  sign = λ w o digest. (w, some digest);
  flush = λ w h. w;
  hkdf = λ seed info n. take n (info ++ seed);
  ecc_point = λ area. some (1 ∷ 2 ∷ [], 3 ∷ []);
  ecdsa = λ sig. some (sig, 5 ∷ []);
  der = λ r s. some (48 ∷ []);
}

made :
    (w v : ℕ) (t : PublicTemplate) (o : Loaded)
    → chip.create_primary w t ≡ (v, some o)
    → o ≡ record { handle = w; name = t.x ++ t.y }
made w v t o e = cc

created_by :
    (name x private_area public_area : Bytes)
    → wrap name ≡ private_area
    → (4 ∷ []) ≡ public_area
    → name ≡ x
    → length name ≤ 64
    → (bytes_equal private_area (wrap x) ≡ true)
      × (length private_area ≤ 255)
      × (length public_area ≤ 255)
created_by name x private_area public_area p q e n = (
  rw (sym p, e) (bytes_equal_refl (wrap x)),
  rw (sym p) (omega (arith, n)),
  rw (sym q) (omega arith),
)

loaded :
    (w : ℕ) (name x private_area : Bytes)
    → name ≡ x
    → bytes_equal private_area (wrap x) ≡ true
    → (v : ℕ) × (o : Loaded) × (load_if w (bytes_equal private_area (wrap name)) ≡ (v, some o))
      × (o.name ≡ key_name)
loaded w name x private_area e m = (
  suc w,
  record { handle = w; name = key_name },
  ap (load_if w) (ap (λ (n : Bytes). bytes_equal private_area (wrap n)) e ∙ m),
  refl,
)

small :
    (x y : Bytes)
    → (1 ∷ 2 ∷ []) ≡ x
    → (3 ∷ []) ≡ y
    → (from_be 0 x < 2 ^ 256) × (from_be 0 y < 2 ^ 256)
small x y p q = (rw (sym p) (omega arith), rw (sym q) (omega arith))

unique_length :
    (seed a : Bytes)
    → length ((primary_key_template chip seed a).x ++ (primary_key_template chip seed a).y) ≤ 64
unfolding primary_key_template
unique_length seed a =
    let r = take 64 ((codes "tpm-fido-application-key" ++ a) ++ seed) in
    subst (λ (b : Bytes). length b ≤ 64) (sym (take-append-drop 32 r))
      (omega (arith, length-take 64 ((codes "tpm-fido-application-key" ++ a) ++ seed)))

wrapped :
    (priv x y : Bytes) → bytes_equal priv (wrap x) ≡ true → bytes_equal priv (wrap y) ≡ true → x ≡ y
wrapped priv x y e f =
    let p : priv ≡ 7 ∷ x = bytes_equal→eq priv (wrap x) e in
    let q : priv ≡ 7 ∷ y = bytes_equal→eq priv (wrap y) f in cc

chip_laws : TpmLaws chip
chip_laws = record {
  IsPrimary = λ w o t. (o.name ≡ t.x ++ t.y) × (length (t.x ++ t.y) ≤ 64);
  IsKey = λ w o. o.name ≡ key_name;
  loads = λ t priv pub_. bytes_equal priv (wrap (t.x ++ t.y));
  opens = λ w. refl;
  random_length = λ w n. length-replicate n w;
  primary_made = λ w seed a. (_, _, refl);
  primary_matches = λ w v seed a o e. (
    ap (λ (x : Loaded). x.name) (made w v (primary_key_template chip seed a) o e),
    unique_length seed a,
  );
  loads_apart = λ t u priv pub_ e f. wrapped priv (t.x ++ t.y) (u.x ++ u.y) e f;
  created_loads =
      λ w v o t priv pub_ p e. created_by o.name (t.x ++ t.y) priv pub_ (cc) (cc) p.0 (rw p.0 p.1);
  load_good = λ w o t priv pub_ p e. loaded w o.name (t.x ++ t.y) priv p.0 e;
  load_bad = λ w o t priv pub_ p e.
      ap (λ (b : Bool). (load_if w b).1) (ap (λ (n : Bytes). bytes_equal priv (wrap n)) p.0 ∙ e);
  signs = λ w o d k n. (d, d, 5 ∷ [], 48 ∷ [], refl, refl, refl);
  coordinates = λ w v h area x y e f. small x y (cc) (cc);
}

abbrev parts : HandleParts
parts = record { private_area = 7 ∷ []; public_area = 4 ∷ []; seed = replicate 20 0 }

decode_handle-encode_handle_example :
    decode_handle (encode_handle parts) ≡ (if fits parts then some parts else none)
decode_handle-encode_handle_example = decode_handle-encode_handle parts

tpm-replay_example :
    (replay [] (tpm_register_key (recording chip) (5, []) (1 ∷ 2 ∷ [])).0.1 ≡ some [])
    × (replay []
          (tpm_sign_asn1
            (recording chip)
            (5, [])
            (encode_handle parts)
            (1 ∷ 2 ∷ [])
            (replicate 32 9)).0.1
        ≡ some [])
tpm-replay_example = tpm-replay chip 5 (encode_handle parts) (1 ∷ 2 ∷ []) (replicate 32 9)

tpm_signer-SignerLaws_example : (l : SignerLaws (tpm_signer chip)) × IsBound chip chip_laws l
tpm_signer-SignerLaws_example = tpm_signer-SignerLaws chip chip_laws

tpm_counter-bounds_example :
    ((tpm_counter chip 9).1 < 2 ^ 32) × ((tpm_counter chip 9).1 ≡ (tpm_counter chip 4).1 + 5)
tpm_counter-bounds_example = tpm_counter-bounds chip 4 9 (omega arith) (omega arith) (omega arith)
