-- ===== src/Hid/Run.antt =====
-- fidohid/fidohid.go: `SoftToken.Run`. A message is put together from packets and then served. The
-- context of the program is never cancelled, so its branches are left out.
use linux_id.Common.{
  ℕ, ◌-◌, ◌++◌, Bool, Option, none, some, List, [], ◌∷◌, Bytes, Result, ok, err, length, take,
  replicate, ltb, leb, ◌==◌, if◌then◌else◌,
}
use linux_id.Hid.Types.{Packet, cmd_init, cmd_msg, cmd_cbor, sw_ins_not_supported}
use linux_id.Hid.Frames.{new_init_response, init_response_marshal}
use linux_id.Hid.Write.{Input2Request, write_respose}
use linux_id.Hid.Channels.{allocate_chan}
use linux_id.U2f.Decode.{AuthenticatorRequest, DecodeError, decode_authenticator_request}

-- The variables that `Run` declares afresh for each message.
pub record Assembly : Type 0 where
  pub inner_msg : Bytes
  pub need_size : ℕ
  pub req_chan_id : ℕ
  pub cmd : ℕ

abbrev pub empty_assembly : Assembly
empty_assembly = record { inner_msg = []; need_size = 0; req_chan_id = 0; cmd = 0 }

-- The body of `for pkt := range pktChan`, up to its `break`.
unfoldable pub absorb : Assembly → Packet → Assembly
absorb a pkt =
    let inner = if ltb 0 (length a.inner_msg) then [] else a.inner_msg in
    if pkt.is_initial
    then record {
      inner_msg = inner ++ pkt.payload;
      need_size = pkt.total_size;
      req_chan_id = pkt.channel_id;
      cmd = pkt.command;
    }
    else record a { inner_msg = a.inner_msg ++ pkt.payload }

-- The condition of the `break`.
abbrev pub is_complete : Assembly → Bool
is_complete a = leb a.need_size (length a.inner_msg)

pub record AuthEvent : Type 0 where
  pub chan_id : ℕ
  pub cmd : ℕ
  pub req : Option AuthenticatorRequest
  pub raw_cbor : Option Bytes
  pub error : Option DecodeError

-- What a message leads to besides the writes: no event, an event for the server, or the exit of the
-- program.
pub data Served : Type 0 where
  quiet : Served
  event : AuthEvent → Served
  exhausted : Served

-- `copy(nonce[:], innerMsg)` into eight zero bytes.
abbrev pub nonce_of : Bytes → Bytes
nonce_of msg = take 8 msg ++ replicate (8 - length (take 8 msg)) 0

unfoldable pub msg_event : ℕ → Result DecodeError AuthenticatorRequest → AuthEvent
msg_event chan_id (ok r) = record {
  chan_id = chan_id;
  cmd = cmd_msg;
  req = some r;
  raw_cbor = none;
  error = none;
}
msg_event chan_id (err e) = record {
  chan_id = chan_id;
  cmd = cmd_msg;
  req = none;
  raw_cbor = none;
  error = some e;
}

pub record Token (Dev : Type 0) : Type 0 where
  pub device : Dev
  pub channels : List ℕ
  pub assembly : Assembly

module _ {Dev : Type 0} (write_event : Dev → Input2Request → Dev × Bool) where
  -- `case CmdInit`; an error of the write is logged only.
  unfoldable pub serve_init : Token Dev → ℕ → Bytes → List ℕ × Option ℕ → Token Dev × Served
  serve_init t req_chan_id msg (cs, none) = (record t { channels = cs }, exhausted)
  serve_init t req_chan_id msg (cs, some chan_id) = (
    record t {
      channels = cs;
      device =
          (write_respose write_event t.device req_chan_id cmd_init
            (init_response_marshal (new_init_response chan_id (nonce_of msg))) 0).0;
    },
    quiet,
  )

  -- The `switch cmd` on a whole message.
  unfoldable pub serve : Token Dev → ℕ → ℕ → Bytes → Token Dev × Served
  serve t req_chan_id cmd msg =
      if cmd == cmd_init
      then serve_init t req_chan_id msg (allocate_chan t.channels)
      else if cmd == cmd_msg
      then (t, event (msg_event req_chan_id (decode_authenticator_request msg)))
      else if cmd == cmd_cbor
      then (
        t,
        event (record {
          chan_id = req_chan_id;
          cmd = cmd;
          req = none;
          raw_cbor = some msg;
          error = none;
        }),
      )
      else (
        record t {
          device = (write_respose write_event t.device req_chan_id cmd [] sw_ins_not_supported).0;
        },
        quiet,
      )

  -- One packet: it is absorbed, and a message that is whole is cut to its size and served with fresh
  -- variables for the next.
  unfoldable pub run_packet : Token Dev → Packet → Token Dev × Served
  run_packet t pkt =
      let a = absorb t.assembly pkt in
      if is_complete a
      then serve (record t { assembly = empty_assembly }) a.req_chan_id a.cmd
          (take a.need_size a.inner_msg)
      else (record t { assembly = a }, quiet)

  abbrev pub add_event : AuthEvent → Token Dev × List AuthEvent → Token Dev × List AuthEvent
  add_event e (t, es) = (t, e ∷ es)

  -- The loop of `Run` goes on unless the program has exited.
  abbrev pub after_packet :
      Token Dev × Served → (Token Dev → Token Dev × List AuthEvent) → Token Dev × List AuthEvent
  after_packet (t, quiet) next = next t
  after_packet (t, event e) next = add_event e (next t)
  after_packet (t, exhausted) next = (t, [])

  -- The events that a sequence of packets leads to.
  unfoldable pub run_packets : Token Dev → List Packet → Token Dev × List AuthEvent
  run_packets t [] = (t, [])
  run_packets t (p ∷ ps) = after_packet (run_packet t p) (λ t'. run_packets t' ps)
