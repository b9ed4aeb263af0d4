-- ===== src/SiteSignatures.antt =====
-- sitesignatures/sitesignatures.go: the names of known sites by the hash of their application, and the
-- text for any other hash. SHA-256 is a parameter.
use linux_id.Common.{
  ℕ, ◌+◌, ◌/◌, ◌%◌, ◌<◌, ◌≡◌, refl, ap, List, [], ◌∷◌, ◌++◌, Bytes, IsByte, codes, bytes_equal, ltb,
  drop, ◌-◌, ◌*◌, if◌then◌else◌, arith,
}

-- The byte as `0x%02x` prints it.
abbrev hex_digit : ℕ → ℕ
hex_digit d = if ltb d 10 then 48 + d else 87 + d

unfoldable byte_text : ℕ → Bytes
byte_text b = codes "0x" ++ (hex_digit (b / 16) ∷ hex_digit (b % 16) ∷ [])

-- The bytes from the second on, each behind a comma, and what stands behind them.
unfoldable more_text : Bytes → Bytes → Bytes
more_text [] end = end
more_text (b ∷ bs) end = codes ", " ++ (byte_text b ++ more_text bs end)

abbrev bytes_text : Bytes → Bytes → Bytes
bytes_text [] end = end
bytes_text (b ∷ bs) end = byte_text b ++ more_text bs end

abbrev unknown_text : Bytes → Bytes
unknown_text sig = codes "<unknown> {" ++ bytes_text sig (codes "}")

-- The name, unless it is empty.
abbrev name_or : Bytes → Bytes → Bytes
name_or [] text = text
name_or (b ∷ bs) text = b ∷ bs

-- `reverseSignatures[sig]`, which is empty for a missing key; a later entry of the literal replaces
-- an earlier one.
unfoldable site_of : List (Bytes × Bytes) → Bytes → Bytes
site_of [] sig = []
site_of ((key, name) ∷ sites) sig =
    name_or (site_of sites sig) (if bytes_equal key sig then name else [])

module _ (sum256 : Bytes → Bytes) where
  abbrev hash_url : Bytes → Bytes
  hash_url url = sum256 url

  -- Hashes that were seen in the logs.
  abbrev seen_hashes : List (Bytes × Bytes)
  seen_hashes =
      (
        0xb7 ∷ 0xd9 ∷ 0xed ∷ 0xf4 ∷ 0xa4 ∷ 0xb6 ∷ 0xa6 ∷ 0x3e ∷ 0xb6 ∷ 0x23 ∷ 0x14 ∷ 0x50 ∷ 0x38
            ∷ 0xe7 ∷ 0x84 ∷ 0x4f ∷ 0x25 ∷ 0xb0 ∷ 0x81 ∷ 0x2b ∷ 0xfb ∷ 0xa9 ∷ 0xa7 ∷ 0xab ∷ 0x24
            ∷ 0x50 ∷ 0x20 ∷ 0x20 ∷ 0x78 ∷ 0xca ∷ 0x80 ∷ 0x7b ∷ [],
        codes "okta.com",
      )
      ∷ (
        0xae ∷ 0xb4 ∷ 0x66 ∷ 0x06 ∷ 0x94 ∷ 0x44 ∷ 0xc0 ∷ 0xd5 ∷ 0xf7 ∷ 0x30 ∷ 0xf2 ∷ 0xdc ∷ 0xe0
            ∷ 0x23 ∷ 0xcf ∷ 0x2a ∷ 0x7a ∷ 0x3c ∷ 0x04 ∷ 0x54 ∷ 0x00 ∷ 0x00 ∷ 0x00 ∷ 0x00 ∷ 0x00
            ∷ 0x00 ∷ 0x00 ∷ 0x00 ∷ 0x00 ∷ 0x00 ∷ 0x00 ∷ 0x00 ∷ [],
        codes "okta.com",
      )
      ∷ (
        0xdd ∷ 0x4a ∷ 0x83 ∷ 0x91 ∷ 0x42 ∷ 0x63 ∷ 0x6b ∷ 0x9a ∷ 0xc7 ∷ 0xfb ∷ 0xaa ∷ 0xa5 ∷ 0xe8
            ∷ 0xa9 ∷ 0x87 ∷ 0x01 ∷ 0xd0 ∷ 0x2c ∷ 0xf8 ∷ 0xd9 ∷ 0x08 ∷ 0x39 ∷ 0x8f ∷ 0x30 ∷ 0xc4
            ∷ 0xa5 ∷ 0x7a ∷ 0x98 ∷ 0xe7 ∷ 0x52 ∷ 0xb1 ∷ 0x65 ∷ [],
        codes "okta.sso",
      )
      ∷ (
        0xdf ∷ 0xab ∷ 0x33 ∷ 0xf2 ∷ 0xad ∷ 0xb1 ∷ 0xd2 ∷ 0x2f ∷ 0x22 ∷ 0x81 ∷ 0x9c ∷ 0x3b ∷ 0x3f
            ∷ 0xfd ∷ 0x0c ∷ 0x91 ∷ 0x8e ∷ 0xd2 ∷ 0x31 ∷ 0x48 ∷ 0x35 ∷ 0x7a ∷ 0x9f ∷ 0xee ∷ 0x6a
            ∷ 0xba ∷ 0x12 ∷ 0x93 ∷ 0x75 ∷ 0xe6 ∷ 0x22 ∷ 0x15 ∷ [],
        codes "okta.com",
      )
      ∷ (
        0xe8 ∷ 0x45 ∷ 0x41 ∷ 0xea ∷ 0xf2 ∷ 0x07 ∷ 0xf7 ∷ 0xd7 ∷ 0x5a ∷ 0xd0 ∷ 0x51 ∷ 0x43 ∷ 0x47
            ∷ 0x70 ∷ 0xf6 ∷ 0xd1 ∷ 0xa9 ∷ 0xbf ∷ 0x62 ∷ 0xf7 ∷ 0xea ∷ 0x9b ∷ 0xe5 ∷ 0x14 ∷ 0xfd
            ∷ 0x4e ∷ 0x0c ∷ 0xa8 ∷ 0x27 ∷ 0x2b ∷ 0x1d ∷ 0xeb ∷ [],
        codes "github.com",
      )
      ∷ (
        0x38 ∷ 0xab ∷ 0x1c ∷ 0xad ∷ 0xb8 ∷ 0x19 ∷ 0xa7 ∷ 0x7d ∷ 0x35 ∷ 0xc5 ∷ 0x0c ∷ 0x30 ∷ 0x4b
            ∷ 0x9e ∷ 0xc9 ∷ 0xdf ∷ 0x3c ∷ 0x1d ∷ 0x5c ∷ 0x48 ∷ 0x00 ∷ 0x00 ∷ 0x00 ∷ 0x00 ∷ 0x00
            ∷ 0x00 ∷ 0x00 ∷ 0x00 ∷ 0x00 ∷ 0x00 ∷ 0x00 ∷ 0x00 ∷ [],
        codes "github.com",
      )
      ∷ (
        0xd4 ∷ 0xc9 ∷ 0xd9 ∷ 0x02 ∷ 0x73 ∷ 0x26 ∷ 0x27 ∷ 0x1a ∷ 0x89 ∷ 0xce ∷ 0x51 ∷ 0xfc ∷ 0xaf
            ∷ 0x32 ∷ 0x8e ∷ 0xd6 ∷ 0x73 ∷ 0xf1 ∷ 0x7b ∷ 0xe3 ∷ 0x34 ∷ 0x69 ∷ 0xff ∷ 0x97 ∷ 0x9e
            ∷ 0x8a ∷ 0xb8 ∷ 0xdd ∷ 0x50 ∷ 0x1e ∷ 0x66 ∷ 0x4f ∷ [],
        codes "google.com",
      )
      ∷ []

  abbrev known_origins : List (Bytes × Bytes)
  known_origins =
      (hash_url (codes "https://api-9dcf9b83.duosecurity.com"), codes "duosecurity.com")
      ∷ (hash_url (codes "https://dashboard.stripe.com"), codes "dashboard.stripe.com")
      ∷ (hash_url (codes "https://demo.yubico.com"), codes "demo.yubico.com")
      ∷ (hash_url (codes "https://github.com/u2f/trusted_facets"), codes "github.com")
      ∷ (hash_url (codes "https://gitlab.com"), codes "gitlab.com")
      ∷ (
        hash_url (codes "https://id.fedoraproject.org/u2f-origins.json"),
        codes "id.fedoraproject.org",
      )
      ∷ (hash_url (codes "https://keepersecurity.com"), codes "keepersecurity.com")
      ∷ (hash_url (codes "https://lastpass.com"), codes "lastpass.com")
      ∷ (hash_url (codes "https://mdp.github.io"), codes "mdp.github.io")
      ∷ (hash_url (codes "https://personal.vanguard.com"), codes "vanguard.com")
      ∷ (hash_url (codes "https://u2f.aws.amazon.com/app-id.json"), codes "aws.amazon.com")
      ∷ (hash_url (codes "https://u2f.bin.coffee"), codes "u2f.bin.coffee")
      ∷ (hash_url (codes "https://vault.bitwarden.com/app-id.json"), codes "vault.bitwarden.com")
      ∷ (hash_url (codes "https://www.dropbox.com/u2f-app-id.json"), codes "dropbox.com")
      ∷ (hash_url (codes "https://www.fastmail.com"), codes "www.fastmail.com")
      ∷ (hash_url (codes "https://www.gstatic.com/securitykey/origins.json"), codes "google.com")
      ∷ (hash_url (codes "https://okta.com"), codes "okta.com")
      ∷ (hash_url (codes "https://login.okta.com"), codes "okta.com")
      ∷ (hash_url (codes "https://dev-12345.okta.com"), codes "okta.com")
      ∷ (hash_url (codes "https://pura.okta.com"), codes "okta.com")
      ∷ (hash_url (codes "pura.okta.com"), codes "okta.com")
      ∷ []

  abbrev known_names : List (Bytes × Bytes)
  known_names =
      (hash_url (codes "bin.coffee"), codes "bin.coffee")
      ∷ (hash_url (codes "coinbase.com"), codes "coinbase.com")
      ∷ (hash_url (codes "demo.yubico.com"), codes "demo.yubico.com")
      ∷ (hash_url (codes "github.com"), codes "github.com")
      ∷ (hash_url (codes "webauthn.bin.coffee"), codes "webauthn.bin.coffee")
      ∷ (hash_url (codes "webauthn.io"), codes "webauthn.io")
      ∷ []

  -- The keys of the map, in the order of the source.
  abbrev reverse_signatures : List (Bytes × Bytes)
  reverse_signatures = known_origins ++ (seen_hashes ++ known_names)

  unfoldable from_app_param : Bytes → Bytes
  from_app_param sig = name_or (site_of reverse_signatures sig) (unknown_text sig)

-- The bytes read back.
abbrev hex_value : ℕ → ℕ
hex_value c = if ltb c 58 then c - 48 else c - 87

abbrev read_bytes : Bytes → Bytes
read_bytes (z ∷ x ∷ h ∷ l ∷ comma ∷ space ∷ rest) =
    (hex_value h * 16 + hex_value l) ∷ read_bytes rest
read_bytes (z ∷ x ∷ h ∷ l ∷ []) = (hex_value h * 16 + hex_value l) ∷ []
read_bytes (z ∷ x ∷ h ∷ l ∷ brace ∷ []) = (hex_value h * 16 + hex_value l) ∷ []
read_bytes (z ∷ x ∷ h ∷ []) = []
read_bytes (z ∷ x ∷ []) = []
read_bytes (z ∷ []) = []
read_bytes [] = []

hex_value-hex_digit : (d : ℕ) → d < 16 → hex_value (hex_digit d) ≡ d
hex_value-hex_digit d h = ground (arith)

abbrev AllBytes : Bytes → Type 0
AllBytes [] = Unit {0}
AllBytes (b ∷ bs) = IsByte b × AllBytes bs

both_digits :
    (b : ℕ) → IsByte b → hex_value (hex_digit (b / 16)) * 16 + hex_value (hex_digit (b % 16)) ≡ b
both_digits b h =
    rw (hex_value-hex_digit (b / 16) (omega arith), hex_value-hex_digit (b % 16) (omega arith))
      (omega arith)

read_bytes-bytes_text :
    (b : ℕ) (bs : Bytes)
    → IsByte b
    → AllBytes bs
    → read_bytes (bytes_text (b ∷ bs) (codes "}")) ≡ b ∷ bs
unfolding byte_text more_text
read_bytes-bytes_text b [] h a = rw (both_digits b h) refl
read_bytes-bytes_text b (c ∷ cs) h a =
    rw (both_digits b h) (ap (λ (xs : Bytes). b ∷ xs) (read_bytes-bytes_text c cs a.0 a.1))

-- The text for a hash without a name tells the hash.
from_app_param-unknown_text :
    (sum256 : Bytes → Bytes) (b : ℕ) (bs : Bytes)
    → IsByte b
    → AllBytes bs
    → site_of (reverse_signatures sum256) (b ∷ bs) ≡ []
    → read_bytes (drop 11 (from_app_param sum256 (b ∷ bs))) ≡ b ∷ bs
unfolding from_app_param
from_app_param-unknown_text sum256 b bs h a e = rw e (read_bytes-bytes_text b bs h a)
