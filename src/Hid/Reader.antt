-- ===== src/Hid/Reader.antt =====
-- fidohid/fidohid.go: `packetReader` and `parsePackets`, from kernel reports to packets.
use linux_id.Common.{
  ℕ, true, false, Option, none, some, List, [], ◌∷◌, Bytes, from_be, get_or, IoError, Result, ok,
  err, read_full, ◌==◌, bit_and, bit_xor, if◌then◌else◌,
}
use linux_id.Hid.Types.{
  Packet, UhidEvent, failed, output, other, frame_type_init, initial_packet_data_len,
  cont_packet_data_len,
}

-- A reader that keeps its first error.
pub record PacketReader : Type 0 where
  pub r : Bytes
  pub error : Option IoError

unfoldable pub new_packet_reader : Bytes → PacketReader
new_packet_reader r = record { r = r; error = none }

unfoldable pub keep_result :
    PacketReader → Bytes × Result IoError Bytes → PacketReader × Result IoError Bytes
keep_result pr (rest, ok b) = (record pr { r = rest }, ok b)
keep_result pr (rest, err e) = (record { r = rest; error = some e }, err e)

-- `ReadFull` into a buffer of `n` bytes.
unfoldable pub packet_read_full : PacketReader → ℕ → PacketReader × Result IoError Bytes
packet_read_full pr n = elim pr.error [
  | some e ↦ (pr, err e)
  | none ↦ keep_result pr (read_full pr.r n)
]

-- A number that could not be read keeps its zero value; callers drop the error of `Read`.
abbrev number_or_zero : PacketReader × Result IoError Bytes → PacketReader × ℕ
number_or_zero (pr, ok b) = (pr, from_be 0 b)
number_or_zero (pr, err e) = (pr, 0)

-- `Read(binary.BigEndian, &v)` for a `v` of `n` bytes.
unfoldable pub packet_read : PacketReader → ℕ → PacketReader × ℕ
packet_read pr n = number_or_zero (packet_read_full pr n)

unfoldable pub initial_packet : ℕ → ℕ → ℕ → Result IoError Bytes → Option Packet
initial_packet channel_id typ total_size (err e) = none
initial_packet channel_id typ total_size (ok b) = some (record {
  channel_id = channel_id;
  is_initial = true;
  command = bit_xor typ frame_type_init;
  seq_no = 0;
  total_size = total_size;
  payload = b;
})

unfoldable pub cont_packet : ℕ → ℕ → Result IoError Bytes → Option Packet
cont_packet channel_id seq_no (err e) = none
cont_packet channel_id seq_no (ok b) = some (record {
  channel_id = channel_id;
  is_initial = false;
  command = 0;
  seq_no = seq_no;
  total_size = 0;
  payload = b;
})

unfoldable pub parse_initial : ℕ → ℕ → PacketReader × ℕ → Option Packet
parse_initial channel_id typ (pr, total_size) =
    initial_packet channel_id typ total_size (packet_read_full pr initial_packet_data_len).1

-- Behind the type byte: a sized first packet, or one that continues.
unfoldable pub parse_body : PacketReader → ℕ → ℕ → Option Packet
parse_body pr channel_id type_or_seq_no =
    if bit_and type_or_seq_no frame_type_init == frame_type_init
    then parse_initial channel_id type_or_seq_no (packet_read pr 2)
    else cont_packet channel_id type_or_seq_no (packet_read_full pr cont_packet_data_len).1

unfoldable pub parse_type : ℕ → PacketReader × Result IoError Bytes → Option Packet
parse_type channel_id (pr, err e) = none
parse_type channel_id (pr, ok b) = parse_body pr channel_id (get_or b 0 0)

-- One report of the kernel; `none` is a protocol read error, which is logged and skipped. The first
-- byte (the report id) and the errors of reading it and the channel id are ignored.
unfoldable pub parse_report : Bytes → Option Packet
parse_report evt =
    let pr₁ = (packet_read_full (new_packet_reader evt) 1).0 in
    let (pr₂, channel_id) = packet_read pr₁ 4 in parse_type channel_id (packet_read_full pr₂ 1)

-- How the loop of `parsePackets` ends: it has used up its events, or an event error is fatal.
pub data Ending : Type 0 where
  drained fatal : Ending

abbrev pub add_packet : Option Packet → List Packet → List Packet
add_packet none ps = ps
add_packet (some p) ps = p ∷ ps

-- The packets that `parsePackets` sends for a sequence of events.
unfoldable pub parse_packets : List UhidEvent → List Packet × Ending
parse_packets [] = ([], drained)
parse_packets (failed ∷ es) = ([], fatal)
parse_packets (other ∷ es) = parse_packets es
parse_packets (output evt ∷ es) =
    let (ps, end) = parse_packets es in (add_packet (parse_report evt) ps, end)
