-- ===== src/Tests/Wire.antt =====
-- The theorems on requests, on frames and on length-prefixed messages, applied.
use linux_id.Common.{◌≡◌, ◌++◌, refl, false, none, some, [], ◌∷◌, Bytes, ok, replicate, arith}
use linux_id.Hid.Types.{cmd_msg}
use linux_id.Hid.Reader.{parse_packets}
use linux_id.Hid.Write.{write_respose}
use linux_id.Hid.Channels.{allocate_chan}
use linux_id.Hid.Run.{run_packets, serve, after_packet, empty_assembly}
use linux_id.Hid.FrameList.{frames, write_all, write_respose-frames}
use linux_id.Hid.Transport.{reports, run_packets-frames}
use linux_id.Hid.Allocation.{Allocated, allocate_chan-Allocated, Granted, run_packets-Granted}
use linux_id.Hid.ParseFrames.{init_packet, next_packet}
use linux_id.U2f.Decode.{
  AuthenticatorAuthReq, AuthenticatorRegisterReq, AuthenticatorRequest,
  decode_authenticator_request, decode_authenticate, decode_key_handle, cmd_authenticate,
}
use linux_id.U2f.Laws.{IsDecoded, decode-IsDecoded}
use linux_id.U2f.RoundTrip.{request}
use linux_id.Lencode.Encoder.{separator_mismatch, Encoder}
use linux_id.Lencode.Decoder.{Decoder}
use linux_id.Hid.Types.{Packet}
use linux_id.Tests.Data.{tape, token}

abbrev answer : Bytes
answer = replicate 100 7

write_respose-frames_example :
    write_respose tape [] 5 cmd_msg answer 0x9000
    ≡ write_all tape [] (frames 5 cmd_msg (answer ++ (0x90 ∷ 0 ∷ [])))
write_respose-frames_example = write_respose-frames tape [] 5 cmd_msg answer 0x9000 (omega arith)

run_packets-frames_example :
    run_packets tape token (parse_packets (reports 0 (frames 5 cmd_msg answer))).0
    ≡ after_packet tape
        (serve tape (record token { assembly = empty_assembly }) 5 cmd_msg answer)
        (λ t. (t, []))
run_packets-frames_example =
    run_packets-frames tape token 0 5 cmd_msg answer (omega arith) (omega arith) (omega arith)

allocate_chan-Allocated_example : Allocated (2 ∷ 1 ∷ []) (allocate_chan (2 ∷ 1 ∷ []))
allocate_chan-Allocated_example = allocate_chan-Allocated (2 ∷ 1 ∷ [])

run_packets-Granted_example :
    Granted tape token.device token.channels
      (run_packets tape token (init_packet 0xffffffff 6 8 answer ∷ [])).0
run_packets-Granted_example =
    run_packets-Granted tape token (init_packet 0xffffffff 6 8 answer ∷ [])
      (refl, omega arith, omega arith, tt)

abbrev registration : AuthenticatorRegisterReq
registration = record { challenge_param = replicate 32 1; application_param = replicate 32 2 }

abbrev authentication : AuthenticatorAuthReq
authentication = record {
  ctrl = 3;
  challenge_param = replicate 32 1;
  application_param = replicate 32 2;
  key_handle = 7 ∷ 8 ∷ [];
}

abbrev register_payload : Bytes
register_payload = replicate 32 1 ++ (replicate 32 2 ++ (0 ∷ []))

abbrev authenticate_payload : Bytes
authenticate_payload = replicate 32 1 ++ (replicate 32 2 ++ (2 ∷ 7 ∷ 8 ∷ 0 ∷ []))

abbrev authenticate_request : AuthenticatorRequest
authenticate_request = record {
  command = cmd_authenticate;
  param1 = 3;
  payload = authenticate_payload;
  register = none;
  authenticate = some authentication;
}

authenticate_decoded :
    decode_authenticator_request (request cmd_authenticate 3 authenticate_payload)
    ≡ ok authenticate_request
unfolding decode_authenticator_request decode_authenticate decode_key_handle
authenticate_decoded = refl

decode-IsDecoded_example :
    IsDecoded (request cmd_authenticate 3 authenticate_payload) authenticate_request
decode-IsDecoded_example =
    decode-IsDecoded (request cmd_authenticate 3 authenticate_payload) authenticate_request
      authenticate_decoded

abbrev encoder : Encoder Bytes
encoder = record { w = 9 ∷ []; separator = some (1 ∷ 2 ∷ []); error = none }

abbrev reading : Bytes → Decoder
reading r = record {
  r = r;
  separator = 1 ∷ 2 ∷ [];
  error = none;
  pending_prefix = false;
  pending_len = 0;
}

abbrev broken : Decoder
broken = record (reading (1 ∷ [])) { error = some separator_mismatch }

-- A message of two bytes is announced, and then read into three bytes, or one.
abbrev two_bytes : Bytes
two_bytes = 1 ∷ 2 ∷ 2 ∷ 5 ∷ 6 ∷ 9 ∷ []

abbrev foreign : Packet
foreign = next_packet 9 77 (1 ∷ 2 ∷ [])
