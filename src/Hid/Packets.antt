-- ===== src/Hid/Packets.antt =====
-- fidohid/fidohid.go: what `Run` and `parsePackets` do with packets that a careful host would not send.
use linux_id.Common.{
  ap, ◌^◌, ◌+◌, le→ltb_false, append-nil, ℕ, ◌*◌, ◌<◌, ◌≤◌, ◌≡◌, refl, ◌∙◌, Bool, true, false, some,
  [], ◌∷◌, ◌++◌, Bytes, length, top_bit, bit_and, bit_xor, arith,
}
use linux_id.Hid.Types.{Packet}
use linux_id.Hid.Reader.{parse_initial, initial_packet, parse_report, parse_body}
use linux_id.Hid.Frames.{frame_cont_marshal}
use linux_id.Hid.Write.{Input2Request}
use linux_id.Hid.Run.{Token, absorb, run_packet}
use linux_id.Hid.ParseFrames.{
  padded, good, parse_report-header, packet_read-append, packet_read_full_all,
}

full_frame : (x y : ℕ) (b : Bytes) → length b ≡ 57 → padded 59 (x ∷ y ∷ b) ≡ (x ∷ y ∷ []) ++ b
full_frame x y b h =
    rw (le→ltb_false (length (x ∷ y ∷ b)) 59 (omega arith)) (append-nil (x ∷ y ∷ b))

-- The first packet that such a frame is taken for.
abbrev pub misread : ℕ → ℕ → ℕ → ℕ → Bytes → Packet
misread chan_id seq_no x y b = record {
  channel_id = chan_id;
  is_initial = true;
  command = bit_xor seq_no 0x80;
  seq_no = 0;
  total_size = x * 256 + y;
  payload = b;
}

high_test : (seq_no : ℕ) → 128 ≤ seq_no → seq_no < 256 → bit_and seq_no 0x80 ≡ 128
high_test seq_no lo hi = top_bit seq_no hi ∙ omega arith

parse_body-high_seq_no :
    (chan_id seq_no x y : ℕ) (b : Bytes)
    → 128 ≤ seq_no
    → seq_no < 256
    → length b ≡ 57
    → parse_body (good ((x ∷ y ∷ []) ++ b)) chan_id seq_no ≡ some (misread chan_id seq_no x y b)
unfolding parse_body parse_initial initial_packet
parse_body-high_seq_no chan_id seq_no x y b lo hi hb = rw (
  high_test seq_no lo hi,
  packet_read-append (x ∷ y ∷ []) b 2 (x * 256 + y) refl (omega arith),
  packet_read_full_all b 57 hb,
)

-- A full frame that continues a message on a channel of 32 bits, with a sequence number from 128
-- to 255, is read as a first frame: its first two bytes of data become the size of a message, and
-- the number without bit 7 its command.
parse_report-high_seq_no :
    (id chan_id seq_no x y : ℕ) (b : Bytes)
    → chan_id < 2 ^ 32
    → 128 ≤ seq_no
    → seq_no < 256
    → length b ≡ 57
    → parse_report (
        id
        ∷ frame_cont_marshal
            (record { channel_id = chan_id; seq_no = seq_no; payload = x ∷ y ∷ b }))
      ≡ some (misread chan_id seq_no x y b)
unfolding frame_cont_marshal
parse_report-high_seq_no id chan_id seq_no x y b hc lo hi hb =
    parse_report-header id chan_id seq_no (padded 59 (x ∷ y ∷ b)) hc
    ∙ ap (λ (r : Bytes). parse_body (good r) chan_id seq_no) (full_frame x y b hb)
    ∙ parse_body-high_seq_no chan_id seq_no x y b lo hi hb

module _ {Dev : Type 0} (write_event : Dev → Input2Request → Dev × Bool) where
  -- A packet that continues a message is taken the same way whatever channel and sequence number
  -- it carries.
  run_packet-foreign :
      (t : Token Dev) (pkt : Packet) (chan_id seq_no : ℕ)
      → pkt.is_initial ≡ false
      → run_packet write_event t (record pkt { channel_id = chan_id; seq_no = seq_no })
        ≡ run_packet write_event t pkt
  unfolding run_packet absorb
  run_packet-foreign t pkt chan_id seq_no h = rw h
