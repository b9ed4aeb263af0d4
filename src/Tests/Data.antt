-- ===== src/Tests/Data.antt =====
-- Concrete surroundings: a device that records what it is sent, a key-value codec in place of JSON,
-- a signer of numbered keys, and a server with its requests.
use mathlib.Core.Path.{subst}
use linux_id.Common.{
  length-take, length-append, length-replicate, ap, ◌∙◌, ◌<◌, ◌^◌, ℕ, zero, suc, ◌+◌, ◌≡◌, refl,
  Bool, true, false, Option, none, some, List, [], ◌∷◌, ◌++◌, Bytes, codes, length, take, replicate,
  negsuc, bytes_equal, bytes_equal_refl, arith,
}
use linux_id.Hid.Write.{Input2Request}
use linux_id.Hid.Run.{Token, empty_assembly}
use linux_id.Ctap2.Types.{MakeCredentialRequest, GetAssertionRequest}
use linux_id.Ctap2.CredStore.{StoredCredential, Disk}
use linux_id.Ctap2.CredStore.Files.{ReadsBack}
use linux_id.Verifier.{VerifyResult, unspecified, no_match, Prompt, fprintd, new_caching_verifier}
use linux_id.Server.Types.{RegisteredKey, Signer, Services, Server}
use linux_id.Server.Login.{Encodes}
use linux_id.Server.SignerLaws.{SignerLaws, Hashes}

-- The reports that were written, newest first.
abbrev pub tape : List Bytes → Input2Request → List Bytes × Bool
tape d r = (r.report ∷ d, true)

abbrev pub token : Token (List Bytes)
token = record { device = []; channels = 1 ∷ []; assembly = empty_assembly }

-- A text ends with a zero; its own numbers are written one higher.
abbrev pub put : Bytes → Bytes → Bytes
put [] rest = 0 ∷ rest
put (b ∷ bs) rest = suc b ∷ put bs rest

abbrev pub got : ℕ → Bytes × Bytes → Bytes × Bytes
got b (bs, rest) = (b ∷ bs, rest)

abbrev pub get : Bytes → Bytes × Bytes
get [] = ([], [])
get (zero ∷ rest) = ([], rest)
get (suc b ∷ rest) = got b (get rest)

get-put : (b rest : Bytes) → get (put b rest) ≡ (b, rest)
get-put [] rest = refl
get-put (b ∷ bs) rest = rw (get-put bs rest)

abbrev pub put_credential : StoredCredential → Bytes → Bytes
put_credential c rest = put c.cred_id (
    put c.rp_id_hash
      (put c.rp_id (put c.rp_name (put c.user_id (put c.user_name (put c.display_name rest))))))

abbrev pub get_credential : Bytes → StoredCredential × Bytes
get_credential b₀ =
    let (cred_id, b₁) = get b₀ in
    let (rp_id_hash, b₂) = get b₁ in
    let (rp_id, b₃) = get b₂ in
    let (rp_name, b₄) = get b₃ in
    let (user_id, b₅) = get b₄ in
    let (user_name, b₆) = get b₅ in
    let (display_name, b₇) = get b₆ in
    (
      record {
        cred_id = cred_id;
        rp_id_hash = rp_id_hash;
        rp_id = rp_id;
        rp_name = rp_name;
        user_id = user_id;
        user_name = user_name;
        display_name = display_name;
      },
      b₇,
    )

get-put_credential :
    (c : StoredCredential) (rest : Bytes) → get_credential (put_credential c rest) ≡ (c, rest)
get-put_credential c rest = rw (
  get-put c.cred_id (
      put c.rp_id_hash
        (put c.rp_id (put c.rp_name (put c.user_id (put c.user_name (put c.display_name rest)))))),
  get-put c.rp_id_hash
      (put c.rp_id (put c.rp_name (put c.user_id (put c.user_name (put c.display_name rest))))),
  get-put c.rp_id (put c.rp_name (put c.user_id (put c.user_name (put c.display_name rest)))),
  get-put c.rp_name (put c.user_id (put c.user_name (put c.display_name rest))),
  get-put c.user_id (put c.user_name (put c.display_name rest)),
  get-put c.user_name (put c.display_name rest),
  get-put c.display_name rest,
)

abbrev pub put_all : List StoredCredential → Bytes
put_all [] = []
put_all (c ∷ cs) = put_credential c (put_all cs)

abbrev pub got_credential :
    StoredCredential × Bytes → (Bytes → List StoredCredential) → List StoredCredential
got_credential (c, rest) next = c ∷ next rest

abbrev pub get_all : ℕ → Bytes → List StoredCredential
get_all zero b = []
get_all (suc n) b = got_credential (get_credential b) (λ rest. get_all n rest)

got_put :
    (c : StoredCredential) (rest : Bytes) (next : Bytes → List StoredCredential)
    → got_credential (get_credential (put_credential c rest)) next ≡ c ∷ next rest
got_put c rest next =
    ap (λ (r : StoredCredential × Bytes). got_credential r next) (get-put_credential c rest)

get-put_all : (cs : List StoredCredential) → get_all (length cs) (put_all cs) ≡ cs
get-put_all [] = refl
get-put_all (c ∷ cs) =
    got_put c (put_all cs) (λ rest. get_all (length cs) rest) ∙ ap (◌∷◌ c) (get-put_all cs)

-- The number of credentials goes in front.
abbrev pub marshal : List StoredCredential → Option Bytes
marshal cs = some (length cs ∷ put_all cs)

abbrev pub unmarshal : Bytes → Option (List StoredCredential)
unmarshal [] = none
unmarshal (n ∷ b) = some (get_all n b)

pub reads_back : (cs : List StoredCredential) → ReadsBack marshal unmarshal cs
reads_back cs b e =
    let wrote : length cs ∷ put_all cs ≡ b = cc in
    subst (λ (x : Bytes). unmarshal x ≡ some cs) wrote (ap some (get-put_all cs))

-- A good key handle is a 7 in front of the application; the state counts the calls.
abbrev pub sign_if : Bool → Bytes → Option Bytes
sign_if true digest = some digest
sign_if false digest = none

abbrev pub signer : Signer ℕ
signer = record {
  register_key = λ k a. (k + 1, some (record { key_handle = 7 ∷ a; x = 1; y = 2 }));
  sign_asn1 = λ k h a digest. (k, sign_if (bytes_equal h (7 ∷ a)) digest);
  counter = λ k. (k + 1, k);
}

pub registered_good :
    (a : Bytes) (key : RegisteredKey)
    → some (record { key_handle = 7 ∷ a; x = 1; y = 2 }) ≡ some key
    → (bytes_equal key.key_handle (7 ∷ a) ≡ true) × (key.x < 2 ^ 256) × (key.y < 2 ^ 256)
registered_good a key e =
    let made : record { key_handle = 7 ∷ a; x = 1; y = 2 } ≡ key = cc in
    subst
      (λ (k : RegisteredKey).
        (bytes_equal k.key_handle (7 ∷ a) ≡ true) × (k.x < 2 ^ 256) × (k.y < 2 ^ 256))
      made (bytes_equal_refl (7 ∷ a), omega arith, omega arith)

abbrev pub laws : SignerLaws signer
laws = record {
  accepts = λ k h a. bytes_equal h (7 ∷ a);
  sign_good = λ k h a d e n. (d, ap (λ (b : Bool). sign_if b d) e);
  sign_bad = λ k h a d e. ap (λ (b : Bool). sign_if b d) e;
  sign_keeps = λ k h a d g b. refl;
  counter_keeps = λ k g b. refl;
  register_keeps = λ k a g b e. e;
  register_good = λ k a key e. registered_good a key e;
}

abbrev pub request : MakeCredentialRequest
request = record {
  client_data_hash = replicate 32 9;
  rp = record { id = codes "example.org"; name = codes "Example" };
  user = record { id = 4 ∷ 2 ∷ []; name = codes "ada"; display_name = codes "Ada" };
  pub_key_cred_params = record { type_name = codes "public-key"; alg = negsuc 6 } ∷ [];
  exclude_list = [];
  options = some (record { rk = true; uv = false });
}

abbrev pub login : GetAssertionRequest
login = record {
  rp_id = codes "example.org";
  client_data_hash = replicate 32 8;
  allow_list = [];
  options = none;
}

-- Hashing fills a text up to 32 bytes, every value is encoded as one byte, and every payload stands
-- for the same two requests.
abbrev pub services : Services
services = record {
  sum256 = λ b. take 32 (b ++ replicate 32 0);
  cbor_marshal = λ v. some (1 ∷ []);
  unmarshal_make_credential = λ b. some request;
  unmarshal_get_assertion = λ b. some login;
  json_marshal = marshal;
  json_unmarshal = unmarshal;
  marshal_point = λ x y. some (4 ∷ x ∷ y ∷ []);
  attest = λ digest. some digest;
  cert_der = 48 ∷ [];
}

pub sums : Hashes services
sums b =
    rw
      (
        length-take 32 (b ++ replicate 32 0),
        length-append b (replicate 32 0),
        length-replicate {A = ℕ} 32 0,
      )
      (omega arith)

abbrev pub encodes : Encodes services
encodes v = (1 ∷ [], refl)

abbrev pub hash : Bytes
hash = services.sum256 (codes "example.org")

abbrev pub empty_disk : Disk
empty_disk = record {
  file = none;
  tmp = none;
  read_denied = false;
  mkdir_denied = false;
  write_denied = none;
  rename_denied = false;
}

abbrev pub server : Server ℕ
server = record { keys = 0; verifier = new_caching_verifier fprintd; disk = empty_disk }

abbrev pub success : VerifyResult
success = record { ok = true; reason = unspecified; error = false }

-- The user confirms, or the finger is of someone else.
abbrev pub confirmed : Prompt
confirmed = record { now = 10; starts = true; result = some (20, success) }

abbrev pub mismatched : Prompt
mismatched = record {
  now = 10;
  starts = true;
  result = some (20, record { ok = false; reason = no_match; error = true });
}
