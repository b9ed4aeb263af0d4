-- ===== src/Lencode/Encoder.antt =====
-- internal/lencode/lencode.go: the encoder. The writer is a parameter: a state and what one `Write`
-- does to it, with whether it succeeded.
use linux_id.Common.{
  Bool, true, false, Option, none, some, [], ◌∷◌, ◌++◌, Bytes, IoError, length, ltb, if◌then◌else◌,
}

-- The errors of the package, and those of the reader and the writer below it.
pub data LencodeError : Type 0 where
  message_too_long write_failed separator_mismatch buffer_not_large_enough : LencodeError
  read_failed : IoError → LencodeError

abbrev pub default_separator : Bytes
default_separator = b'l' ∷ b'e' ∷ b'n' ∷ b'c' ∷ []

pub record Encoder (W : Type 0) : Type 0 where
  pub w : W
  pub separator : Option Bytes  -- `none` is the nil slice
  pub error : Option LencodeError

-- `NewEncoder` with at most one `SeparatorOpt`; `none` is no option.
unfoldable pub new_encoder : {W : Type 0} → W → Option (Option Bytes) → Encoder W
new_encoder w none = record { w = w; separator = some default_separator; error = none }
new_encoder w (some s) = record { w = w; separator = s; error = none }

module _ {W : Type 0} (write : W → Bytes → W × Bool) where
  -- The first error of the writer is kept.
  abbrev pub after_write : Encoder W → W × Bool → Encoder W
  after_write e (w, true) = record e { w = w }
  after_write e (w, false) = record e { w = w; error = some write_failed }

  -- `write`; nothing is written after an error.
  unfoldable pub encoder_write : Encoder W → Bytes → Encoder W
  encoder_write e b = elim e.error [ some x ↦ e | none ↦ after_write e (write e.w b) ]

  unfoldable pub write_separator : Encoder W → Encoder W
  write_separator e = elim e.separator [ none ↦ e | some s ↦ encoder_write e s ]

  unfoldable pub encode_body : Encoder W → Bytes → Encoder W
  encode_body e msg = encoder_write (encoder_write (write_separator e) (length msg ∷ [])) msg

  -- The error that `Encode` returns is the one that the encoder keeps.
  unfoldable pub encode : Encoder W → Bytes → Encoder W × Option LencodeError
  encode e msg = elim e.error [
    | some x ↦ (e, some x)
    | none ↦
        if ltb 0xff (length msg)
        then (record e { error = some message_too_long }, some message_too_long)
        else (encode_body e msg, (encode_body e msg).error)
  ]

-- A `bytes.Buffer` takes every write.
abbrev pub buffer_write : Bytes → Bytes → Bytes × Bool
buffer_write w b = (w ++ b, true)
