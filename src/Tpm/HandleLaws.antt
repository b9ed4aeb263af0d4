-- ===== src/Tpm/HandleLaws.antt =====
-- tpm/tpm.go: a key handle that was encoded, and what decoding it gives.
use linux_id.Common.{
  ap, append-nil, ◌≡◌, refl, ◌∙◌, Bool, true, false, none, some, [], ◌++◌, append_assoc, Bytes,
  length, lt→ltb, ◌&&◌, if◌then◌else◌, leb, Bool-cases, inl, inr, arith,
}
use linux_id.Lencode.Encoder.{Encoder, message_too_long, new_encoder, encode, buffer_write}
use linux_id.Lencode.Decoder.{new_decoder, decode, filled}
use linux_id.Lencode.RoundTrip.{message, clean, encode-message, decode-message, decode-end}
use linux_id.Tpm.Handle.{HandleParts, separator, encode_handle, decode_handle}

-- Each part has its length in one byte.
abbrev pub fits : HandleParts → Bool
fits h =
    leb (length h.private_area) 255 && (leb (length h.public_area) 255 && leb (length h.seed) 255)

abbrev open_encoder : Bytes → Encoder Bytes
open_encoder w = record { w = w; separator = some separator; error = none }

abbrev broken_encoder : Bytes → Encoder Bytes
broken_encoder w = record { w = w; separator = some separator; error = some message_too_long }

encode_fitting :
    (w msg : Bytes)
    → leb (length msg) 255 ≡ true
    → (encode buffer_write (open_encoder w) msg).0 ≡ open_encoder (w ++ message separator msg)
encode_fitting w msg h = rw (encode-message w separator msg (ground arith))

encode_long :
    (w msg : Bytes)
    → leb (length msg) 255 ≡ false
    → (encode buffer_write (open_encoder w) msg).0 ≡ broken_encoder w
unfolding encode
encode_long w msg h = rw (lt→ltb 255 (length msg) (ground arith))

encode_broken : (w msg : Bytes) → (encode buffer_write (broken_encoder w) msg).0 ≡ broken_encoder w
unfolding encode
encode_broken w msg = refl

-- The three calls of `Encode`, by what the first ones leave.
encode_handle-steps :
    (h : HandleParts) (e₁ e₂ e₃ : Encoder Bytes)
    → (encode buffer_write (open_encoder []) h.private_area).0 ≡ e₁
    → (encode buffer_write e₁ h.public_area).0 ≡ e₂
    → (encode buffer_write e₂ h.seed).0 ≡ e₃
    → encode_handle h ≡ e₃.w
unfolding encode_handle new_encoder
encode_handle-steps h e₁ e₂ e₃ p q r =
    ap
      (λ (e : Encoder Bytes).
        (encode buffer_write (encode buffer_write e h.public_area).0 h.seed).0.w)
      p
    ∙ ap (λ (e : Encoder Bytes). (encode buffer_write e h.seed).0.w) q
    ∙ ap (λ (e : Encoder Bytes). e.w) r

abbrev one : HandleParts → Bytes
one h = message separator h.private_area

abbrev two : HandleParts → Bytes
two h = one h ++ message separator h.public_area

encode_handle-fitting :
    (h : HandleParts)
    → leb (length h.private_area) 255 ≡ true
    → leb (length h.public_area) 255 ≡ true
    → leb (length h.seed) 255 ≡ true
    → encode_handle h ≡ two h ++ message separator h.seed
encode_handle-fitting h p q r =
    encode_handle-steps h _ _ _ (encode_fitting [] h.private_area p)
      (encode_fitting (one h) h.public_area q) (encode_fitting (two h) h.seed r)

encode_handle-long_seed :
    (h : HandleParts)
    → leb (length h.private_area) 255 ≡ true
    → leb (length h.public_area) 255 ≡ true
    → leb (length h.seed) 255 ≡ false
    → encode_handle h ≡ two h
encode_handle-long_seed h p q r =
    encode_handle-steps h _ _ _ (encode_fitting [] h.private_area p)
      (encode_fitting (one h) h.public_area q) (encode_long (two h) h.seed r)

encode_handle-long_public :
    (h : HandleParts)
    → leb (length h.private_area) 255 ≡ true
    → leb (length h.public_area) 255 ≡ false
    → encode_handle h ≡ one h
encode_handle-long_public h p q =
    encode_handle-steps h _ _ _ (encode_fitting [] h.private_area p)
      (encode_long (one h) h.public_area q) (encode_broken (one h) h.seed)

encode_handle-long_private :
    (h : HandleParts) → leb (length h.private_area) 255 ≡ false → encode_handle h ≡ []
encode_handle-long_private h p =
    encode_handle-steps h _ _ _ (encode_long [] h.private_area p) (encode_broken [] h.public_area)
      (encode_broken [] h.seed)

decode-last :
    (msg : Bytes)
    → decode (clean separator (message separator msg)) ≡ (clean separator [], filled msg)
decode-last msg = rw (append-nil (message separator msg)) at (decode-message separator msg [])

decode_handle-nothing : decode_handle [] ≡ none
unfolding decode_handle new_decoder
decode_handle-nothing = rw (decode-end separator)

decode_handle-one : (h : HandleParts) → decode_handle (one h) ≡ none
unfolding decode_handle new_decoder
decode_handle-one h = rw (decode-last h.private_area, decode-end separator)

decode_handle-two : (h : HandleParts) → decode_handle (two h) ≡ none
unfolding decode_handle new_decoder
decode_handle-two h = rw (
  decode-message separator h.private_area (message separator h.public_area),
  decode-last h.public_area,
  decode-end separator,
)

decode_handle-three : (h : HandleParts) → decode_handle (two h ++ message separator h.seed) ≡ some h
unfolding decode_handle new_decoder
decode_handle-three h = rw (
  append_assoc (one h) (message separator h.public_area) (message separator h.seed),
  decode-message separator h.private_area
      (message separator h.public_area ++ message separator h.seed),
  decode-message separator h.public_area (message separator h.seed),
  decode-last h.seed,
  decode-end separator,
)

-- Decoding an encoded key handle gives back its three parts, if each of them has at most 255 bytes;
-- otherwise the encoded handle is not a valid one, since the encoder stops at a longer part.
pub decode_handle-encode_handle :
    (h : HandleParts) → decode_handle (encode_handle h) ≡ (if fits h then some h else none)
decode_handle-encode_handle h = elim (Bool-cases (leb (length h.private_area) 255)) [
  | inr p ↦ rw (encode_handle-long_private h p, p) decode_handle-nothing
  | inl p ↦ elim (Bool-cases (leb (length h.public_area) 255)) [
    | inr q ↦ rw (encode_handle-long_public h p q, p, q) (decode_handle-one h)
    | inl q ↦ elim (Bool-cases (leb (length h.seed) 255)) [
      | inr r ↦ rw (encode_handle-long_seed h p q r, p, q, r) (decode_handle-two h)
      | inl r ↦ rw (encode_handle-fitting h p q r, p, q, r) (decode_handle-three h)
    ]
  ]
]
