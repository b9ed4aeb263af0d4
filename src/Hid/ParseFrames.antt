-- ===== src/Hid/ParseFrames.antt =====
-- fidohid/fidohid.go: `parsePackets` on a report that holds one frame of `writeRespose`.
use linux_id.Common.{
  ℕ, ◌+◌, ◌-◌, ◌^◌, ◌≤◌, ◌<◌, ◌≡◌, refl, ◌∙◌, true, false, none, some, [], ◌∷◌, ◌++◌, Bytes, be16,
  be32, from_be, from_be-be16, from_be-be32, bit_and, bit_or, append-nil, set_top, toggle_top,
  top_bit, length, length-append, length-replicate, ok, read_full-append, arith,
}
use linux_id.Hid.Types.{Packet, frame_type_init}
use linux_id.Hid.Reader.{
  PacketReader, packet_read_full, packet_read, keep_result, parse_type, parse_body, parse_initial,
  initial_packet, cont_packet, new_packet_reader, parse_report,
}
use linux_id.Hid.Frames.{pad_to, frame_init_marshal, frame_cont_marshal}

-- Frame data with the zero bytes behind it.
abbrev pub padded : ℕ → Bytes → Bytes
padded len b = b ++ pad_to len b

pub length-padded : (len : ℕ) (b : Bytes) → length b ≤ len → length (padded len b) ≡ len
length-padded len b h = ground (
  arith,
  length-append b (pad_to len b),
  length-replicate {A = ℕ} (len - length b) 0,
  length-append b [],
)

abbrev pub good : Bytes → PacketReader
good r = record { r = r; error = none }

packet_read_full-append :
    (xs ys : Bytes) (n : ℕ)
    → length xs ≡ n
    → packet_read_full (good (xs ++ ys)) n ≡ (good ys, ok xs)
unfolding packet_read_full keep_result
packet_read_full-append xs ys n e = rw (← e, read_full-append xs ys)

pub packet_read_full_all :
    (xs : Bytes) (n : ℕ) → length xs ≡ n → packet_read_full (good xs) n ≡ (good [], ok xs)
packet_read_full_all xs n e = rw append-nil at (packet_read_full-append xs [] n e)

pub packet_read-append :
    (xs ys : Bytes) (n v : ℕ)
    → length xs ≡ n
    → from_be 0 xs ≡ v
    → packet_read (good (xs ++ ys)) n ≡ (good ys, v)
unfolding packet_read
packet_read-append xs ys n v e f = rw (packet_read_full-append xs ys n e, f)

-- The header that both kinds of frame share: the report id, the channel and the type byte.
pub parse_report-header :
    (id chan_id typ : ℕ) (rest : Bytes)
    → chan_id < 2 ^ 32
    → parse_report (id ∷ (be32 chan_id ++ (typ ∷ rest))) ≡ parse_body (good rest) chan_id typ
unfolding parse_report new_packet_reader parse_type
parse_report-header id chan_id typ rest h = rw (
  packet_read_full-append (id ∷ []) (be32 chan_id ++ (typ ∷ rest)) 1 refl,
  packet_read-append (be32 chan_id) (typ ∷ rest) 4 chan_id refl (from_be-be32 chan_id h),
  packet_read_full-append (typ ∷ []) rest 1 refl,
)

abbrev pub init_packet : ℕ → ℕ → ℕ → Bytes → Packet
init_packet chan_id cmd total_size b = record {
  channel_id = chan_id;
  is_initial = true;
  command = cmd;
  seq_no = 0;
  total_size = total_size;
  payload = padded 57 b;
}

abbrev pub next_packet : ℕ → ℕ → Bytes → Packet
next_packet chan_id seq_no b = record {
  channel_id = chan_id;
  is_initial = false;
  command = 0;
  seq_no = seq_no;
  total_size = 0;
  payload = padded 59 b;
}

init_test : (cmd : ℕ) → cmd < 128 → bit_and (cmd + 128) 0x80 ≡ 128
init_test cmd h = top_bit (cmd + 128) (omega arith) ∙ omega arith

cont_test : (seq_no : ℕ) → seq_no < 128 → bit_and seq_no 0x80 ≡ 0
cont_test seq_no h = top_bit seq_no (omega arith) ∙ omega arith

parse_body-init :
    (chan_id cmd total_size : ℕ) (b : Bytes)
    → cmd < 128
    → total_size < 2 ^ 16
    → length b ≤ 57
    → parse_body (good (be16 total_size ++ padded 57 b)) chan_id (bit_or cmd 0x80)
      ≡ some (init_packet chan_id cmd total_size b)
unfolding parse_body parse_initial initial_packet
parse_body-init chan_id cmd total_size b hm ht hb = rw (
  set_top cmd hm,
  init_test cmd hm,
  packet_read-append (be16 total_size) (padded 57 b) 2 total_size refl (from_be-be16 total_size ht),
  packet_read_full_all (padded 57 b) 57 (length-padded 57 b hb),
  toggle_top cmd hm,
)

parse_body-cont :
    (chan_id seq_no : ℕ) (b : Bytes)
    → seq_no < 128
    → length b ≤ 59
    → parse_body (good (padded 59 b)) chan_id seq_no ≡ some (next_packet chan_id seq_no b)
unfolding parse_body cont_packet
parse_body-cont chan_id seq_no b hs hb =
    rw (cont_test seq_no hs, packet_read_full_all (padded 59 b) 59 (length-padded 59 b hb))

-- A first frame is read back with its channel, command, size and data, for a channel of 32 bits,
-- a command below 128, a size of 16 bits and at most 57 bytes of data, which come back filled up
-- with zeros.
pub parse_report-init :
    (id chan_id cmd total_size : ℕ) (b : Bytes)
    → chan_id < 2 ^ 32
    → cmd < 128
    → total_size < 2 ^ 16
    → length b ≤ 57
    → parse_report (
        id
        ∷ frame_init_marshal (record {
          channel_id = chan_id;
          command = bit_or cmd frame_type_init;
          payload = b;
          total_payload_len = total_size;
        }))
      ≡ some (init_packet chan_id cmd total_size b)
unfolding frame_init_marshal
parse_report-init id chan_id cmd total_size b hc hm ht hb =
    parse_report-header id chan_id (bit_or cmd frame_type_init) (be16 total_size ++ padded 57 b) hc
    ∙ parse_body-init chan_id cmd total_size b hm ht hb

-- A frame that continues a message is read back with its channel, sequence number and data, for a
-- channel of 32 bits, a sequence number below 128 and at most 59 bytes of data, which come back
-- filled up with zeros.
pub parse_report-cont :
    (id chan_id seq_no : ℕ) (b : Bytes)
    → chan_id < 2 ^ 32
    → seq_no < 128
    → length b ≤ 59
    → parse_report
        (id ∷ frame_cont_marshal (record { channel_id = chan_id; seq_no = seq_no; payload = b }))
      ≡ some (next_packet chan_id seq_no b)
unfolding frame_cont_marshal
parse_report-cont id chan_id seq_no b hc hs hb =
    parse_report-header id chan_id seq_no (padded 59 b) hc ∙ parse_body-cont chan_id seq_no b hs hb
