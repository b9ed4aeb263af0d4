-- ===== src/Hid/FrameList.antt =====
-- fidohid/fidohid.go: the frames of a message, written down frame by frame beside the loop of
-- `writeRespose`.
use linux_id.Common.{
  ℕ, zero, suc, ◌+◌, ◌/◌, ◌%◌, ◌≤◌, ◌<◌, ◌≡◌, refl, Bool, true, false, List, [], ◌∷◌, ◌++◌, Bytes,
  be16, bit_or, length, take, drop, length-drop, ltb, if◌then◌else◌, arith,
}
use linux_id.Hid.Types.{frame_type_init}
use linux_id.Hid.Frames.{frame_init_marshal, frame_cont_marshal}
use linux_id.Hid.Write.{
  Input2Request, request_of, Written, sent, after_write, write_loop, write_respose,
}

-- How many frames of 59 bytes the data needs.
abbrev pub cont_count : Bytes → ℕ
cont_count b = (length b + 58) / 59

abbrev pub cont_frame : ℕ → ℕ → Bytes → Bytes
cont_frame chan_id seq_no b =
    frame_cont_marshal (record { channel_id = chan_id; seq_no = seq_no; payload = b })

-- `n` frames that continue a message, the first with the sequence number `i`.
abbrev pub cont_frames : ℕ → ℕ → ℕ → Bytes → List Bytes
cont_frames zero chan_id i b = []
cont_frames (suc n) chan_id i b =
    cont_frame chan_id (i % 256) (take 59 b) ∷ cont_frames n chan_id (i + 1) (drop 59 b)

abbrev pub init_frame : ℕ → ℕ → ℕ → Bytes → Bytes
init_frame chan_id cmd total_size b = frame_init_marshal (record {
  channel_id = chan_id;
  command = bit_or cmd frame_type_init;
  payload = b;
  total_payload_len = total_size;
})

-- The frames of a message that is not empty.
abbrev pub frames : ℕ → ℕ → Bytes → List Bytes
frames chan_id cmd body =
    init_frame chan_id cmd (length body % 65536) (take 57 body)
    ∷ cont_frames (cont_count (drop 57 body)) chan_id 0 (drop 57 body)

-- What the function appends to the data for a status word.
abbrev pub with_status : Bytes → ℕ → Bytes
with_status payload status = if ltb 0 status then payload ++ be16 status else payload

module _ {Dev : Type 0} (write_event : Dev → Input2Request → Dev × Bool) where
  -- Reports are written one after the other, up to the first that fails.
  unfoldable pub write_all : Dev → List Bytes → Dev × Written
  write_all d [] = (d, sent)
  write_all d (f ∷ fs) =
      after_write write_event (write_event d (request_of f)) (λ d'. write_all d' fs)

  after_write-ext :
      (r : Dev × Bool) (f g : Dev → Dev × Written)
      → ((d : Dev) → f d ≡ g d)
      → after_write write_event r f ≡ after_write write_event r g
  after_write-ext (d, true) f g h = h d
  after_write-ext (d, false) f g h = refl

  write_loop-cont_frames :
      (fuel n : ℕ) (d : Dev) (chan_id cmd total_size i s : ℕ) (b : Bytes)
      → length b ≤ fuel
      → n ≡ cont_count b
      → s ≡ i % 256
      → write_loop write_event fuel d chan_id cmd total_size false 59 s b
        ≡ write_all d (cont_frames n chan_id i b)
  unfolding write_loop write_all
  write_loop-cont_frames fuel zero d chan_id cmd total_size i s [] h e k = refl
  write_loop-cont_frames fuel (suc n) d chan_id cmd total_size i s [] h e k = absurd (omega arith)
  write_loop-cont_frames zero n d chan_id cmd total_size i s (x ∷ b) h e k = absurd (omega arith)
  write_loop-cont_frames (suc fuel) zero d chan_id cmd total_size i s (x ∷ b) h e k =
      absurd (omega arith)
  write_loop-cont_frames (suc fuel) (suc n) d chan_id cmd total_size i s (x ∷ b) h e k = rw k (
      after_write-ext (write_event d (request_of (cont_frame chan_id (i % 256) (take 59 (x ∷ b)))))
        _ _
        (λ d'.
          write_loop-cont_frames fuel n d' chan_id cmd total_size (i + 1) ((i % 256 + 1) % 256)
            (drop 59 (x ∷ b)) (omega (arith, length-drop {0} 59 (x ∷ b)))
            (omega (arith, length-drop {0} 59 (x ∷ b))) (omega arith)))

  write_loop-frames :
      (fuel : ℕ) (d : Dev) (chan_id cmd : ℕ) (b : Bytes)
      → length b ≤ fuel
      → 0 < length b
      → write_loop write_event fuel d chan_id cmd (length b % 65536) true 57 0 b
        ≡ write_all d (frames chan_id cmd b)
  unfolding write_loop write_all
  write_loop-frames fuel d chan_id cmd [] h p = absurd (omega arith)
  write_loop-frames zero d chan_id cmd (x ∷ b) h p = absurd (omega arith)
  write_loop-frames (suc fuel) d chan_id cmd (x ∷ b) h p =
      after_write-ext
        (write_event d
          (request_of (init_frame chan_id cmd (length (x ∷ b) % 65536) (take 57 (x ∷ b)))))
        _ _
        (λ d'.
          write_loop-cont_frames fuel (cont_count (drop 57 (x ∷ b))) d' chan_id cmd
            (length (x ∷ b) % 65536) 0 0 (drop 57 (x ∷ b))
            (omega (arith, length-drop {0} 57 (x ∷ b))) refl refl)

  -- A response that has data or a status word is written as the frames of its body, in order, up to
  -- the first report that the device refuses; the bound on the rounds is never reached.
  pub write_respose-frames :
      (d : Dev) (chan_id cmd : ℕ) (payload : Bytes) (status : ℕ)
      → 0 < length (with_status payload status)
      → write_respose write_event d chan_id cmd payload status
        ≡ write_all d (frames chan_id cmd (with_status payload status))
  unfolding write_respose
  write_respose-frames d chan_id cmd payload status h =
      write_loop-frames _ d chan_id cmd (with_status payload status) (omega arith) h
