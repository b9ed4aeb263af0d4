-- ===== src/Tests/Messages.antt =====
-- Two messages of a host, and what the program makes of them on its own.
use linux_id.Common.{
  ◌≡◌, ◌++◌, refl, true, none, some, List, [], ◌∷◌, Bytes, replicate, read_full, ℕ,
}
use linux_id.Hid.Types.{Packet, cmd_init, cmd_cbor}
use linux_id.Hid.Reader.{
  parse_report, parse_type, parse_body, parse_initial, initial_packet, packet_read_full,
  packet_read, new_packet_reader, keep_result,
}
use linux_id.Hid.Write.{Input2Request, request_of, write_respose, write_loop}
use linux_id.Hid.Frames.{
  new_init_response, init_response_marshal, frame_init_marshal, frame_cont_marshal,
}
use linux_id.Hid.Channels.{allocate_chan, first_free, scan_channels}
use linux_id.Hid.Run.{
  AuthEvent, Token, Served, quiet, event, run_packet, absorb, serve, serve_init, empty_assembly,
}
use linux_id.Parallel.Recorder.{record_write}
use linux_id.Parallel.Same.{bare}
use linux_id.Parallel.System.{reading, answering, System}
use linux_id.Tests.Data.{token}

-- GetInfo on channel 5, and an initialization, as the kernel sends them.
abbrev pub get_info : Bytes
get_info = 0 ∷ 0 ∷ 0 ∷ 0 ∷ 5 ∷ 0x90 ∷ 0 ∷ 1 ∷ 4 ∷ replicate 56 0

abbrev pub initialize : Bytes
initialize = 0 ∷ 255 ∷ 255 ∷ 255 ∷ 255 ∷ 0x86 ∷ 0 ∷ 8 ∷ (replicate 8 7 ++ replicate 49 0)

abbrev pub get_info_packet : Packet
get_info_packet = record {
  channel_id = 5;
  is_initial = true;
  command = cmd_cbor;
  seq_no = 0;
  total_size = 1;
  payload = 4 ∷ replicate 56 0;
}

abbrev pub initialize_packet : Packet
initialize_packet = record {
  channel_id = 0xffffffff;
  is_initial = true;
  command = cmd_init;
  seq_no = 0;
  total_size = 8;
  payload = replicate 8 7 ++ replicate 49 0;
}

pub get_info_parsed : parse_report get_info ≡ some get_info_packet
unfolding parse_report new_packet_reader parse_type parse_body parse_initial initial_packet
    packet_read packet_read_full keep_result read_full
get_info_parsed = refl

pub initialize_parsed : parse_report initialize ≡ some initialize_packet
unfolding parse_report new_packet_reader parse_type parse_body parse_initial initial_packet
    packet_read packet_read_full keep_result read_full
initialize_parsed = refl

abbrev pub get_info_event : AuthEvent
get_info_event = record {
  chan_id = 5;
  cmd = cmd_cbor;
  req = none;
  raw_cbor = some (4 ∷ []);
  error = none;
}

-- What the transport does with the two packets.
abbrev pub taken : Packet → Token (List Input2Request) → Token (List Input2Request) × Served
taken p t = run_packet record_write (bare t) p

pub get_info_taken : taken get_info_packet (bare token) ≡ (bare token, event get_info_event)
unfolding run_packet absorb serve
get_info_taken = refl

abbrev pub sequel : {S Dev : Type 0} → System S Dev → Packet → System S Dev
sequel s p = record s {
  reader = reading;
  transport = (taken p s.transport).0;
  transport_phase = answering (taken p s.transport).0.device (taken p s.transport).1;
}

abbrev pub System₀ : Type 0
System₀ = System ℕ (List Bytes)

abbrev pub init_reply : Input2Request
init_reply = request_of (
    255
    ∷ 255
    ∷ 255
    ∷ 255
    ∷ 0x86
    ∷ 0
    ∷ 17
    ∷ (replicate 8 7 ++ (0 ∷ 0 ∷ 0 ∷ 2 ∷ 2 ∷ 1 ∷ 0 ∷ 0 ∷ 4 ∷ replicate 40 0)))

pub initialize_taken :
    taken initialize_packet (bare token)
    ≡ (record { device = init_reply ∷ []; channels = 2 ∷ 1 ∷ []; assembly = empty_assembly }, quiet)
unfolding run_packet absorb serve serve_init first_free scan_channels allocate_chan
    new_init_response init_response_marshal write_respose write_loop frame_init_marshal
    frame_cont_marshal
initialize_taken = refl
