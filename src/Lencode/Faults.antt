-- ===== src/Lencode/Faults.antt =====
-- internal/lencode/lencode.go: the errors of the decoder, and the length test of `DecodeInto`.
use linux_id.Lencode.RoundTrip.{clean, at_body, message, read_prefix-clean}
use linux_id.Common.{
  refl, ap, ◌++◌, append_assoc, Bytes, ok, length, ℕ, ◌≤◌, ◌<◌, ◌≡◌, true, none, some, err, lt→ltb,
  le→ltb_false, arith,
}
use linux_id.Lencode.Encoder.{LencodeError, buffer_not_large_enough}
use linux_id.Lencode.Decoder.{
  Decoder, Filled, read_prefix, fill, decode_into, decode, next_len, refused, panicked,
}

-- After an error every further call of the decoder answers with it and changes nothing.
decoder_error_kept :
    (d : Decoder) (e : LencodeError)
    → d.error ≡ some e
    → (decode d ≡ (d, refused e))
      × ((len cap : ℕ) → decode_into d len cap ≡ (d, refused e))
      × (next_len d ≡ (d, err e))
unfolding decode decode_into next_len read_prefix
decoder_error_kept d e h = (rw (h), λ len cap. rw h, rw h)

-- A pending message and a longer buffer.
decode_into_larger :
    (d : Decoder) (len cap : ℕ)
    → d.error ≡ none
    → d.pending_prefix ≡ true
    → d.pending_len < len
    → decode_into d len cap
      ≡ (record d { error = some buffer_not_large_enough }, refused buffer_not_large_enough)
unfolding decode_into read_prefix fill
decode_into_larger d len cap h p l = rw (h, p, lt→ltb d.pending_len len l)

-- A pending message and a buffer that cannot hold it.
decode_into_smaller :
    (d : Decoder) (len cap : ℕ)
    → d.error ≡ none
    → d.pending_prefix ≡ true
    → len ≤ cap
    → cap < d.pending_len
    → decode_into d len cap ≡ (d, panicked)
unfolding decode_into read_prefix fill
decode_into_smaller d len cap h p l c =
    rw (h, p, le→ltb_false d.pending_len len (omega arith), lt→ltb cap d.pending_len c)

next_len-message :
    (s msg rest : Bytes)
    → next_len (clean s (message s msg ++ rest))
      ≡ (at_body s (length msg) (msg ++ rest), ok (length msg))
unfolding next_len
next_len-message s msg rest = rw (append_assoc, read_prefix-clean s (length msg) (msg ++ rest))

-- Once `NextLen` has announced an encoded message, `DecodeInto` refuses every buffer that is longer
-- than the message, although its bytes are there to be read, and the decoder keeps the error.
decode_into_larger_buffer :
    (s msg rest : Bytes) (len cap : ℕ)
    → length msg < len
    → decode_into (next_len (clean s (message s msg ++ rest))).0 len cap ≡ (
      record (at_body s (length msg) (msg ++ rest)) { error = some buffer_not_large_enough },
      refused buffer_not_large_enough,
    )
decode_into_larger_buffer s msg rest len cap l =
    rw (next_len-message s msg rest)
      (decode_into_larger (at_body s (length msg) (msg ++ rest)) len cap refl refl l)

-- Once `NextLen` has announced an encoded message, `DecodeInto` panics on every buffer whose capacity
-- is below the length of the message.
decode_into_smaller_buffer :
    (s msg rest : Bytes) (len cap : ℕ)
    → len ≤ cap
    → cap < length msg
    → (decode_into (next_len (clean s (message s msg ++ rest))).0 len cap).1 ≡ panicked
decode_into_smaller_buffer s msg rest len cap l c = rw (next_len-message s msg rest) (
    ap (λ (r : Decoder × Filled). r.1)
      (decode_into_smaller (at_body s (length msg) (msg ++ rest)) len cap refl refl l c))
