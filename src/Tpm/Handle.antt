-- ===== src/Tpm/Handle.antt =====
-- tpm/tpm.go: the key handle, which holds the private and public part of the key and the seed of its
-- primary key, as three length-prefixed messages.
use linux_id.Common.{Option, none, some, [], Bytes, eof, unexpected_eof, codes}
use linux_id.Lencode.Encoder.{
  message_too_long, write_failed, separator_mismatch, buffer_not_large_enough, read_failed,
  new_encoder, encode, buffer_write,
}
use linux_id.Lencode.Decoder.{Decoder, new_decoder, Filled, filled, refused, panicked, decode}

abbrev pub separator : Bytes
separator = codes "TPM"

pub record HandleParts : Type 0 where
  pub private_area : Bytes
  pub public_area : Bytes
  pub seed : Bytes

-- The errors of `Encode` are dropped.
unfoldable pub encode_handle : HandleParts → Bytes
encode_handle h =
    let e₁ = (encode buffer_write (new_encoder [] (some (some separator))) h.private_area).0 in
    let e₂ = (encode buffer_write e₁ h.public_area).0 in (encode buffer_write e₂ h.seed).0.w

-- The next message, or an invalid key handle.
abbrev pub then_part : {A : Type 0} → Decoder × Filled → (Decoder → Bytes → Option A) → Option A
then_part (d, filled b) next = next d b
then_part (d, refused e) next = none
then_part (d, panicked) next = none

-- `err != io.EOF` behind the last message.
abbrev pub at_end : HandleParts → Decoder × Filled → Option HandleParts
at_end h (d, filled b) = none
at_end h (d, panicked) = none
at_end h (d, refused (read_failed eof)) = some h
at_end h (d, refused (read_failed unexpected_eof)) = none
at_end h (d, refused message_too_long) = none
at_end h (d, refused write_failed) = none
at_end h (d, refused separator_mismatch) = none
at_end h (d, refused buffer_not_large_enough) = none

unfoldable pub decode_handle : Bytes → Option HandleParts
decode_handle key_handle =
    then_part (decode (new_decoder key_handle (some separator))) λ d₁ private_area.
      then_part (decode d₁) λ d₂ public_area. then_part (decode d₂) λ d₃ seed.
        at_end (record { private_area = private_area; public_area = public_area; seed = seed })
          (decode d₃)
