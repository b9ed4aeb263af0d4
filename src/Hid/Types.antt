-- ===== src/Hid/Types.antt =====
-- fidohid/fidohid.go: the constants, the packet, and what comes from the uhid device.
use linux_id.Common.{ℕ, ◌-◌, Bool, Bytes, leb, ◌&&◌}

abbrev pub frame_type_init : ℕ
frame_type_init = 0x80

-- The commands of the transport; any other byte is an unsupported command.
abbrev pub cmd_ping : ℕ
cmd_ping = 0x01

abbrev pub cmd_msg : ℕ
cmd_msg = 0x03

abbrev pub cmd_lock : ℕ
cmd_lock = 0x04

abbrev pub cmd_init : ℕ
cmd_init = 0x06

abbrev pub cmd_wink : ℕ
cmd_wink = 0x08

abbrev pub cmd_cbor : ℕ
cmd_cbor = 0x10

abbrev pub cmd_sync : ℕ
cmd_sync = 0x3c

abbrev pub cmd_error : ℕ
cmd_error = 0x3f

abbrev pub report_len : ℕ
report_len = 64

abbrev pub initial_packet_data_len : ℕ
initial_packet_data_len = report_len - 7

abbrev pub cont_packet_data_len : ℕ
cont_packet_data_len = report_len - 5

abbrev pub sw_ins_not_supported : ℕ
sw_ins_not_supported = 0x6D00

unfoldable pub is_vendor_specific : ℕ → Bool
is_vendor_specific c = leb 0x40 c && leb c 0x7f

-- The field `Data` is `payload` here.
pub record Packet : Type 0 where
  pub channel_id : ℕ  -- uint32
  pub is_initial : Bool
  pub command : ℕ  -- uint8
  pub seq_no : ℕ  -- byte
  pub total_size : ℕ  -- uint16
  pub payload : Bytes

-- What `evtChan` delivers: an error, a report that the kernel sent us, or an event of another type.
pub data UhidEvent : Type 0 where
  failed : UhidEvent
  output : Bytes → UhidEvent
  other : UhidEvent
