-- ===== src/Lencode/Decoder.antt =====
-- internal/lencode/lencode.go: the decoder, over a reader of bytes.
use linux_id.Common.{
  ℕ, ◌+◌, Bool, true, false, Option, none, some, Bytes, IoError, eof, unexpected_eof, Result, ok,
  err, read_full, length, take, get_or, ltb, not, ◌&&◌, bytes_equal, if◌then◌else◌,
}
use linux_id.Lencode.Encoder.{
  LencodeError, separator_mismatch, buffer_not_large_enough, read_failed, default_separator,
}

-- `prefixBuf` is written before each read of it, so it is no state.
pub record Decoder : Type 0 where
  pub r : Bytes
  pub separator : Bytes  -- the nil slice is empty
  pub error : Option LencodeError
  pub pending_prefix : Bool
  pub pending_len : ℕ

-- `NewDecoder` with at most one `SeparatorOpt`; `none` is no option.
unfoldable pub new_decoder : Bytes → Option Bytes → Decoder
new_decoder r none = record {
  r = r;
  separator = default_separator;
  error = none;
  pending_prefix = false;
  pending_len = 0;
}
new_decoder r (some s) = record {
  r = r;
  separator = s;
  error = none;
  pending_prefix = false;
  pending_len = 0;
}

-- The prefix that was read: the separator, if one is used, and the length.
unfoldable pub check_prefix :
    Decoder → Bytes × Result IoError Bytes → Decoder × Result LencodeError (Unit {0})
check_prefix d (r, err e) = (record d { r = r; error = some (read_failed e) }, err (read_failed e))
check_prefix d (r, ok prefix) =
    if ltb 0 (length d.separator)
      && not (bytes_equal (take (length d.separator) prefix) d.separator)
    then (record d { r = r; error = some separator_mismatch }, err separator_mismatch)
    else (
      record d { r = r; pending_prefix = true; pending_len = get_or prefix (length d.separator) 0 },
      ok tt,
    )

unfoldable pub read_prefix : Decoder → Decoder × Result LencodeError (Unit {0})
read_prefix d = elim d.error [
  | some e ↦ (d, err e)
  | none ↦
      if d.pending_prefix
      then (d, ok tt)
      else check_prefix d (read_full d.r (length d.separator + 1))
]

-- What `DecodeInto` does to its buffer: the bytes that it now begins with, an error, or a panic of
-- the slice expression.
pub data Filled : Type 0 where
  filled : Bytes → Filled
  refused : LencodeError → Filled
  panicked : Filled

-- At the end of the input a missing body is an unexpected end.
abbrev pub body_error : IoError → IoError
body_error eof = unexpected_eof
body_error unexpected_eof = unexpected_eof

unfoldable pub read_body : Decoder → Bytes × Result IoError Bytes → Decoder × Filled
read_body d (r, ok b) = (record d { r = r; pending_prefix = false; pending_len = 0 }, filled b)
read_body d (r, err e) = (
  record d { r = r; error = some (read_failed (body_error e)) },
  refused (read_failed (body_error e)),
)

unfoldable pub fill : Decoder → ℕ → ℕ → Decoder × Filled
fill d len cap =
    if ltb d.pending_len len
    then (record d { error = some buffer_not_large_enough }, refused buffer_not_large_enough)
    else if ltb cap d.pending_len
    then (d, panicked)
    else read_body d (read_full d.r d.pending_len)

abbrev pub into_prefix : ℕ → ℕ → Decoder × Result LencodeError (Unit {0}) → Decoder × Filled
into_prefix len cap (d, err e) = (d, refused e)
into_prefix len cap (d, ok u) = fill d len cap

-- `DecodeInto` of a buffer, of which the length and the capacity matter.
unfoldable pub decode_into : Decoder → ℕ → ℕ → Decoder × Filled
decode_into d len cap = into_prefix len cap (read_prefix d)

-- `Decode` makes a buffer of the pending length.
abbrev pub decode_prefix : Decoder × Result LencodeError (Unit {0}) → Decoder × Filled
decode_prefix (d, err e) = (d, refused e)
decode_prefix (d, ok u) = decode_into d d.pending_len d.pending_len

unfoldable pub decode : Decoder → Decoder × Filled
decode d = decode_prefix (read_prefix d)

abbrev pub length_of : Decoder × Result LencodeError (Unit {0}) → Decoder × Result LencodeError ℕ
length_of (d, err e) = (d, err e)
length_of (d, ok u) = (d, ok d.pending_len)

unfoldable pub next_len : Decoder → Decoder × Result LencodeError ℕ
next_len d = elim d.error [
  | some e ↦ (d, err e)
  | none ↦ if d.pending_prefix then (d, ok d.pending_len) else length_of (read_prefix d)
]
