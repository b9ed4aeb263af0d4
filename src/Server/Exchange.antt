-- ===== src/Server/Exchange.antt =====
-- fidohid/fidohid.go and main.go together: a CTAP2 command from the host's frames to the frames of the answer.
use linux_id.Common.{
  ℕ, ◌^◌, ◌<◌, ◌≤◌, ◌≡◌, refl, ap, ◌∙◌, Bool, none, some, [], ◌∷◌, Bytes, length, arith,
}
use linux_id.Hid.Types.{cmd_cbor}
use linux_id.Hid.Reader.{parse_packets}
use linux_id.Hid.Write.{Written, Input2Request, write_ctap2_response}
use linux_id.Hid.Run.{Token, AuthEvent, Served, empty_assembly, serve, run_packets}
use linux_id.Hid.FrameList.{frames, write_all, write_respose-frames}
use linux_id.Hid.Transport.{reports, max_message, run_packets-frames}
use linux_id.Verifier.{Prompt}
use linux_id.Server.Types.{Signer, Services, Server, Ending, replied, ctap2}
use linux_id.Server.U2f.{Presence}
use linux_id.Server.Dispatch.{handle_ctap2}
use linux_id.Server.Run.{run_event, run_round, go_on}
use linux_id.Server.Replies.{Fits, handle_ctap2-AnswersCtap2}

-- The event that the transport makes of a CTAP2 message.
abbrev pub ctap2_event : ℕ → Bytes → AuthEvent
ctap2_event chan_id msg = record {
  chan_id = chan_id;
  cmd = cmd_cbor;
  req = none;
  raw_cbor = some msg;
  error = none;
}

module _ {Dev : Type 0} (write_event : Dev → Input2Request → Dev × Bool) where
  serve_cbor :
      (t : Token Dev) (chan_id : ℕ) (msg : Bytes)
      → serve write_event t chan_id cmd_cbor msg ≡ (t, Served.event (ctap2_event chan_id msg))
  unfolding serve
  serve_cbor t chan_id msg = refl

  received :
      (t : Token Dev) (id chan_id : ℕ) (msg : Bytes)
      → chan_id < 2 ^ 32
      → length msg ≤ max_message
      → run_packets write_event t (parse_packets (reports id (frames chan_id cmd_cbor msg))).0
        ≡ (record t { assembly = empty_assembly }, ctap2_event chan_id msg ∷ [])
  received t id chan_id msg hc hm =
      run_packets-frames write_event t id chan_id cmd_cbor msg hc (omega arith) hm
      ∙ rw (serve_cbor (record t { assembly = empty_assembly }) chan_id msg)

  written :
      (d : Dev) (chan_id status : ℕ) (payload : Bytes)
      → write_ctap2_response write_event d chan_id status payload
        ≡ write_all write_event d (frames chan_id cmd_cbor (status ∷ payload))
  unfolding write_ctap2_response
  written d chan_id status payload =
      write_respose-frames write_event d chan_id cmd_cbor (status ∷ payload) 0 (omega arith)

module _ {S Dev : Type 0} (signer : Signer S) (lib : Services)
    (write_event : Dev → Input2Request → Dev × Bool) where
  go_on_ctap2 :
      (evt : AuthEvent) (d : Dev) (r : Server S × Ending) (status : ℕ) (payload : Bytes)
      → r.1 ≡ replied (ctap2 status payload)
      → go_on signer lib write_event evt d r
        ≡ some (r.0, (write_ctap2_response write_event d evt.chan_id status payload).0)
  go_on_ctap2 evt d (s, end) status payload e = rw e

  -- If the coordinates of every key that the signer makes fit 32 bytes: a CTAP2 message of at
  -- most 7609 bytes that the host sends as frames on a channel of 32 bits, whatever message was
  -- pending, becomes one event, and the server's round for it writes the frames of exactly one
  -- response, with a status byte in front, on the channel and with the command of the message, up
  -- to the first report that the device refuses. The server goes on with the state that the
  -- handler leaves.
  pub run_packets-run_round :
      (t : Token Dev) (s : Server S) (id chan_id : ℕ) (msg : Bytes) (p : Prompt) (q : Presence)
      → chan_id < 2 ^ 32
      → length msg ≤ max_message
      → ((k : S) (a : Bytes) → Fits signer lib (signer.register_key k a).1)
      → (evt : AuthEvent) × (status : ℕ) × (payload : Bytes) × (run_packets write_event t
            (parse_packets (reports id (frames chan_id cmd_cbor msg))).0
          ≡ (record t { assembly = empty_assembly }, evt ∷ []))
        × (run_round signer lib write_event s t.device evt p q
            ≡ some (
              (handle_ctap2 signer lib s p msg).0,
              (write_all write_event t.device (frames chan_id cmd_cbor (status ∷ payload))).0,
            ))
  unfolding run_round run_event
  run_packets-run_round t s id chan_id msg p q hc hm fits =
      let (status, payload, e) = handle_ctap2-AnswersCtap2 signer lib s p msg fits in
      (
        ctap2_event chan_id msg,
        status,
        payload,
        received write_event t id chan_id msg hc hm,
        go_on_ctap2 (ctap2_event chan_id msg) t.device (handle_ctap2 signer lib s p msg) status
              payload e
            ∙ ap (λ (w : Dev × Written). some ((handle_ctap2 signer lib s p msg).0, w.0))
                (written write_event t.device chan_id status payload),
      )
