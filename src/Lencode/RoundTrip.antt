-- ===== src/Lencode/RoundTrip.antt =====
-- internal/lencode/lencode.go: what the encoder writes to a buffer, and the decoder on it.
use linux_id.Common.{
  ℕ, ◌+◌, ◌≤◌, ◌≡◌, refl, true, false, none, some, [], ◌∷◌, ◌++◌, Bytes, eof, ok, read_full,
  read_full-append, length, length-append, take, get_or, take-length-append, le→ltb_false,
  lt→leb_false, ltb, not, ◌&&◌, bytes_equal, bytes_equal_refl, append_assoc, arith,
}
use linux_id.Lencode.Encoder.{
  read_failed, encoder_write, write_separator, encode_body, encode, buffer_write,
}
use linux_id.Lencode.Decoder.{
  Decoder, read_prefix, check_prefix, read_body, fill, decode_into, decode, filled, refused,
}

abbrev pub message : Bytes → Bytes → Bytes
message s msg = s ++ (length msg ∷ msg)

-- Into a buffer, an encoder without an error adds the separator, the length and the message, if the
-- message has at most 255 bytes, and reports no error.
pub encode-message :
    (w s msg : Bytes)
    → length msg ≤ 255
    → encode buffer_write (record { w = w; separator = some s; error = none }) msg
      ≡ (record { w = w ++ message s msg; separator = some s; error = none }, none)
unfolding encode encode_body encoder_write write_separator
encode-message w s msg h = rw (le→ltb_false 255 (length msg) h) (simp append_assoc)

-- A decoder between two messages, and one that has read a prefix.
abbrev pub clean : Bytes → Bytes → Decoder
clean s r = record { r = r; separator = s; error = none; pending_prefix = false; pending_len = 0 }

abbrev pub at_body : Bytes → ℕ → Bytes → Decoder
at_body s n r = record {
  r = r;
  separator = s;
  error = none;
  pending_prefix = true;
  pending_len = n;
}

get_or-append : (s : Bytes) (n : ℕ) → get_or (s ++ (n ∷ [])) (length s) 0 ≡ n
get_or-append [] n = refl
get_or-append (x ∷ s) n = get_or-append s n

separator_matches :
    (s : Bytes) (n : ℕ)
    → (ltb 0 (length s) && not (bytes_equal (take (length s) (s ++ (n ∷ []))) s)) ≡ false
separator_matches s n = rw (take-length-append s (n ∷ []), bytes_equal_refl s) (ground arith)

read_prefix_bytes :
    (s : Bytes) (n : ℕ) (r : Bytes)
    → read_full (s ++ (n ∷ r)) (length s + 1) ≡ (r, ok (s ++ (n ∷ [])))
read_prefix_bytes s n r =
    rw (append_assoc, length-append s (n ∷ [])) at (read_full-append (s ++ (n ∷ [])) r)

pub read_prefix-clean :
    (s : Bytes) (n : ℕ) (r : Bytes) → read_prefix (clean s (s ++ (n ∷ r))) ≡ (at_body s n r, ok tt)
unfolding read_prefix check_prefix
read_prefix-clean s n r = rw (read_prefix_bytes s n r, separator_matches s n, get_or-append s n)

read_prefix-pending :
    (s : Bytes) (n : ℕ) (r : Bytes) → read_prefix (at_body s n r) ≡ (at_body s n r, ok tt)
unfolding read_prefix
read_prefix-pending s n r = refl

-- A decoder between two messages decodes an encoded message in front of its input to the bytes of
-- the message, and then stands behind it, whatever follows.
pub decode-message :
    (s msg rest : Bytes) → decode (clean s (message s msg ++ rest)) ≡ (clean s rest, filled msg)
unfolding decode decode_into fill read_body
decode-message s msg rest = rw (
  append_assoc,
  read_prefix-clean s (length msg) (msg ++ rest),
  read_prefix-pending s (length msg) (msg ++ rest),
  le→ltb_false (length msg) (length msg) (omega arith),
  read_full-append msg rest,
)

-- At the end of the input the decoder answers with a plain end of file.
pub decode-end :
    (s : Bytes)
    → decode (clean s [])
      ≡ (record (clean s []) { error = some (read_failed eof) }, refused (read_failed eof))
unfolding decode read_prefix check_prefix read_full
decode-end s = rw (lt→leb_false (length s + 1) 0 (omega arith))
