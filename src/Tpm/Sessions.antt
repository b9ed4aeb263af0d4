-- ===== src/Tpm/Sessions.antt =====
-- tpm/tpm.go: what `RegisterKey` and `SignASN1` take from the TPM, and that it is given back.
use linux_id.Common.{
  ℕ, sym, append-nil, append_assoc, ◌≡◌, refl, ◌∙◌, Bool, true, false, Option, none, some, List, [],
  ◌∷◌, ◌++◌, Bytes, ◌==◌, ==_refl, if◌then◌else◌,
}
use linux_id.Server.Types.{RegisteredKey}
use linux_id.Tpm.Handle.{HandleParts, decode_handle}
use linux_id.Tpm.Device.{Device, Loaded, primary_key_template, child_template, seed_size_bytes}
use linux_id.Tpm.Signer.{
  Run, public_key, asn1, connected, holding, public_area_read, created, seeded, tpm_register_key,
  signed, with_parts, tpm_sign_asn1,
}

pub data Resource : Type 0 where
  connection : Resource
  object : ℕ → Resource

pub data Usage : Type 0 where
  taken freed : Resource → Usage

abbrev same_resource : Resource → Resource → Bool
same_resource connection connection = true
same_resource connection (object h) = false
same_resource (object h) connection = false
same_resource (object h) (object k) = h == k

-- Giving back what was taken last; `none` is a breach.
unfoldable pub give_back : Resource → List Resource → Option (List Resource)
give_back r [] = none
give_back r (s ∷ held) = if same_resource r s then some held else none

abbrev pub and_then :
    Option (List Resource) → (List Resource → Option (List Resource)) → Option (List Resource)
and_then none next = none
and_then (some held) next = next held

-- What is held after a log, newest first.
unfoldable pub replay : List Resource → List Usage → Option (List Resource)
replay held [] = some held
replay held (taken r ∷ us) = replay (r ∷ held) us
replay held (freed r ∷ us) = and_then (give_back r held) (λ held'. replay held' us)

-- Everything that the log takes is given back in it, newest first.
abbrev IsBalanced : List Usage → Type 0
IsBalanced us = (held : List Resource) → replay held us ≡ some held

and_then_assoc :
    (o : Option (List Resource)) (f g h : List Resource → Option (List Resource))
    → ((held : List Resource) → f held ≡ and_then (g held) h)
    → and_then o f ≡ and_then (and_then o g) h
and_then_assoc none f g h e = refl
and_then_assoc (some held) f g h e = e held

replay-append :
    (held : List Resource) (us vs : List Usage)
    → replay held (us ++ vs) ≡ and_then (replay held us) (λ held'. replay held' vs)
unfolding replay
replay-append held [] vs = refl
replay-append held (taken r ∷ us) vs = replay-append (r ∷ held) us vs
replay-append held (freed r ∷ us) vs =
    and_then_assoc (give_back r held) _ _ _ (λ held'. replay-append held' us vs)

same_resource_refl : (r : Resource) → same_resource r r ≡ true
same_resource_refl connection = refl
same_resource_refl (object h) = ==_refl h

bracket-IsBalanced :
    (r : Resource) (us : List Usage) → IsBalanced us → IsBalanced (taken r ∷ (us ++ (freed r ∷ [])))
unfolding replay give_back
bracket-IsBalanced r us b held =
    replay-append (r ∷ held) us (freed r ∷ []) ∙ rw (b (r ∷ held), same_resource_refl r)

empty-IsBalanced : IsBalanced []
unfolding replay
empty-IsBalanced held = refl

-- The log behind a command that may make an object.
abbrev logged : Option Loaded → List Usage → List Usage
logged none log = log
logged (some o) log = log ++ (taken (object o.handle) ∷ [])

abbrev logged_open : Bool → List Usage → List Usage
logged_open true log = log ++ (taken connection ∷ [])
logged_open false log = log

-- The device with a log of its commands: a connection that is opened or closed, and an object that
-- is made or flushed. It answers as the device does.
abbrev pub recording : {W : Type 0} → Device W → Device (W × List Usage)
recording dev = record {
  open_device = λ v.
      (((dev.open_device v.0).0, logged_open (dev.open_device v.0).1 v.1), (dev.open_device v.0).1);
  close_device = λ v. (dev.close_device v.0, v.1 ++ (freed connection ∷ []));
  random = λ v n. (((dev.random v.0 n).0, v.1), (dev.random v.0 n).1);
  unix_time = λ v. (((dev.unix_time v.0).0, v.1), (dev.unix_time v.0).1);
  create_primary = λ v t. (
    ((dev.create_primary v.0 t).0, logged (dev.create_primary v.0 t).1 v.1),
    (dev.create_primary v.0 t).1,
  );
  create = λ v o t. (((dev.create v.0 o t).0, v.1), (dev.create v.0 o t).1);
  load = λ v o priv area. (
    ((dev.load v.0 o priv area).0, logged (dev.load v.0 o priv area).1 v.1),
    (dev.load v.0 o priv area).1,
  );
  read_public = λ v h. (((dev.read_public v.0 h).0, v.1), (dev.read_public v.0 h).1);
  sign = λ v o digest. (((dev.sign v.0 o digest).0, v.1), (dev.sign v.0 o digest).1);
  flush = λ v h. (dev.flush v.0 h, v.1 ++ (freed (object h) ∷ []));
  hkdf = dev.hkdf;
  ecc_point = dev.ecc_point;
  ecdsa = dev.ecdsa;
  der = dev.der;
}

module _ {W : Type 0} (dev : Device W) where
  abbrev Logged : Type 0
  Logged = W × List Usage

  -- From the log on, a stretch of code adds a balanced log.
  abbrev Tidy : {A : Type 0} → List Usage → Run (recording dev) A → Type 0
  Tidy log r = (us : List Usage) × (r.0.1 ≡ log ++ us) × IsBalanced us

  nothing-Tidy : (A : Type 0) (log : List Usage) (w : W) (r : Option A) → Tidy log ((w, log), r)
  nothing-Tidy A log w r = ([], sym (append-nil log), empty-IsBalanced)

  -- Something is taken, and given back behind a tidy stretch.
  bracket-log :
      (log us after : List Usage) (r : Resource)
      → after ≡ (log ++ (taken r ∷ [])) ++ us
      → IsBalanced us
      → (vs : List Usage) × (after ++ (freed r ∷ []) ≡ log ++ vs) × IsBalanced vs
  bracket-log log us after r e b = (
    taken r ∷ (us ++ (freed r ∷ [])),
    rw
        (
          e,
          append_assoc (log ++ (taken r ∷ [])) us (freed r ∷ []),
          append_assoc log (taken r ∷ []) (us ++ (freed r ∷ [])),
        )
        refl,
    bracket-IsBalanced r us b,
  )

  connected-Tidy :
      {A : Type 0} (log : List Usage) (w : W) (opened : Bool)
      (body : Logged → Run (recording dev) A)
      → ((v : Logged) → Tidy v.1 (body v))
      → Tidy log (connected (recording dev) ((w, logged_open opened log), opened) body)
  connected-Tidy {A} log w false body t = nothing-Tidy A log w none
  connected-Tidy log w true body t =
      let (us, e, b) = t (w, log ++ (taken connection ∷ [])) in bracket-log log us _ connection e b

  holding-Tidy :
      {A : Type 0} (log : List Usage) (w : W) (made : Option Loaded)
      (body : Logged → Loaded → Run (recording dev) A)
      → ((v : Logged) (o : Loaded) → Tidy v.1 (body v o))
      → Tidy log (holding (recording dev) ((w, logged made log), made) body)
  holding-Tidy {A} log w none body t = nothing-Tidy A log w none
  holding-Tidy log w (some o) body t =
      let (us, e, b) = t (w, log ++ (taken (object o.handle) ∷ [])) o in
      bracket-log log us _ (object o.handle) e b

  public_area_read-Tidy :
      (log : List Usage) (parts : HandleParts) (w : W) (r : Option Bytes)
      → Tidy log (public_area_read (recording dev) parts ((w, log), r))
  public_area_read-Tidy log parts w none = nothing-Tidy RegisteredKey log w none
  public_area_read-Tidy log parts w (some area) =
      nothing-Tidy RegisteredKey log w (public_key (recording dev) parts (dev.ecc_point area))

  created-Tidy :
      (log : List Usage) (parent : Loaded) (seed : Bytes) (w : W) (r : Option (Bytes × Bytes))
      → Tidy log (created (recording dev) parent seed ((w, log), r))
  created-Tidy log parent seed w none = nothing-Tidy RegisteredKey log w none
  created-Tidy log parent seed w (some (priv, area)) =
      let parts : HandleParts = record { private_area = priv; public_area = area; seed = seed } in
      holding-Tidy {A = RegisteredKey} log (dev.load w parent priv area).0
        (dev.load w parent priv area).1
        (λ v key. public_area_read (recording dev) parts ((recording dev).read_public v key.handle))
        (λ v key.
          public_area_read-Tidy v.1 parts (dev.read_public v.0 key.handle).0
            (dev.read_public v.0 key.handle).1)

  signed-Tidy :
      (log : List Usage) (w : W) (r : Option Bytes)
      → Tidy log (signed (recording dev) ((w, log), r))
  signed-Tidy log w none = nothing-Tidy Bytes log w none
  signed-Tidy log w (some sig) = nothing-Tidy Bytes log w (asn1 (recording dev) (dev.ecdsa sig))

  -- The primary key, held by what follows.
  made-Tidy :
      {A : Type 0} (v : Logged) (seed a : Bytes) (body : Logged → Loaded → Run (recording dev) A)
      → ((u : Logged) (o : Loaded) → Tidy u.1 (body u o))
      → Tidy v.1 (
          holding
            (recording dev)
            ((recording dev).create_primary v (primary_key_template (recording dev) seed a))
            body)
  made-Tidy {A} v seed a body t =
      let template = primary_key_template (recording dev) seed a in
      holding-Tidy {A = A} v.1 (dev.create_primary v.0 template).0
        (dev.create_primary v.0 template).1 body t

  seeded-Tidy :
      (log : List Usage) (a : Bytes) (w : W) (seed : Bytes)
      → Tidy log (seeded (recording dev) a ((w, log), seed))
  seeded-Tidy log a w seed =
      made-Tidy {A = RegisteredKey} (w, log) seed a
        (λ u parent.
          created (recording dev) parent seed ((recording dev).create u parent child_template))
        (λ u parent.
          created-Tidy u.1 parent seed (dev.create u.0 parent child_template).0
            (dev.create u.0 parent child_template).1)

  with_parts-Tidy :
      (v : Logged) (a digest : Bytes) (o : Option HandleParts)
      → Tidy v.1 (with_parts (recording dev) v a digest o)
  with_parts-Tidy v a digest none = nothing-Tidy Bytes v.1 v.0 none
  with_parts-Tidy v a digest (some parts) =
      made-Tidy {A = Bytes} v parts.seed a
        (λ u parent.
          holding (recording dev)
            ((recording dev).load u parent parts.private_area parts.public_area)
            λ t key. signed (recording dev) ((recording dev).sign t key digest))
        (λ u parent.
          holding-Tidy {A = Bytes} u.1 (dev.load u.0 parent parts.private_area parts.public_area).0
            (dev.load u.0 parent parts.private_area parts.public_area).1
            (λ t key. signed (recording dev) ((recording dev).sign t key digest))
            (λ t key. signed-Tidy t.1 (dev.sign t.0 key digest).0 (dev.sign t.0 key digest).1))

  balanced_log : {A : Type 0} (r : Run (recording dev) A) → Tidy [] r → replay [] r.0.1 ≡ some []
  balanced_log r (us, e, b) = rw e (b [])

  -- Whatever the TPM answers, on success and on every error path: in the log of the commands that
  -- `RegisterKey` and `SignASN1` give to the TPM all that is made is given back, the newest first.
  -- Each object is flushed, the key before its primary key, and then the connection is closed.
  pub tpm-replay :
      (w : W) (key_handle application_param digest : Bytes)
      → (replay [] (tpm_register_key (recording dev) (w, []) application_param).0.1 ≡ some [])
        × (replay [] (tpm_sign_asn1 (recording dev) (w, []) key_handle application_param digest).0.1
            ≡ some [])
  unfolding tpm_register_key tpm_sign_asn1
  tpm-replay w h a digest = (
    balanced_log (tpm_register_key (recording dev) (w, []) a) (
        connected-Tidy {A = RegisteredKey} [] (dev.open_device w).0 (dev.open_device w).1
          (λ v. seeded (recording dev) a ((recording dev).random v seed_size_bytes))
          (λ v.
            seeded-Tidy v.1 a (dev.random v.0 seed_size_bytes).0
              (dev.random v.0 seed_size_bytes).1)),
    balanced_log (tpm_sign_asn1 (recording dev) (w, []) h a digest) (
        connected-Tidy {A = Bytes} [] (dev.open_device w).0 (dev.open_device w).1
          (λ v. with_parts (recording dev) v a digest (decode_handle h))
          (λ v. with_parts-Tidy v a digest (decode_handle h))),
  )
