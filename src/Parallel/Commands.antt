-- ===== src/Parallel/Commands.antt =====
-- fidohid/fidohid.go: messages that a host sends one after the other, and the events of the
-- transport for them.
use linux_id.Common.{
  ℕ, ◌^◌, ◌≤◌, ◌<◌, ◌≡◌, refl, ap, ◌∙◌, Bool, List, [], ◌∷◌, ◌++◌, append_assoc, Bytes, length, map,
  arith,
}
use linux_id.Common.{ok}
use linux_id.U2f.Decode.{AuthenticatorRequest, decode_authenticator_request}
use linux_id.Hid.Run.{msg_event}
use linux_id.Hid.Types.{cmd_msg, UhidEvent, Packet, cmd_cbor}
use linux_id.Hid.Reader.{parse_packets, drained}
use linux_id.Hid.Write.{Input2Request}
use linux_id.Hid.FrameList.{frames}
use linux_id.Hid.Run.{AuthEvent, Token, empty_assembly, serve, add_event, after_packet, run_packets}
use linux_id.Hid.Transport.{max_message, run_packets-append}
use linux_id.Hid.Transport
use linux_id.Server.Exchange.{ctap2_event}
use linux_id.Parallel.Heard.{parse_packets-append}

-- A CTAP2 message or a U2F message, on a channel.
pub data Command : Type 0 where
  ctap2_command u2f_command : ℕ → Bytes → Command

abbrev pub chan_of : Command → ℕ
chan_of (ctap2_command chan_id msg) = chan_id
chan_of (u2f_command chan_id msg) = chan_id

abbrev pub cmd_of : Command → ℕ
cmd_of (ctap2_command chan_id msg) = cmd_cbor
cmd_of (u2f_command chan_id msg) = cmd_msg

abbrev pub msg_of : Command → Bytes
msg_of (ctap2_command chan_id msg) = msg
msg_of (u2f_command chan_id msg) = msg

-- A U2F message that decodes.
abbrev pub IsRequest : Command → Type 0
IsRequest (ctap2_command chan_id msg) = Unit {0}
IsRequest (u2f_command chan_id msg) =
    (req : AuthenticatorRequest) × (decode_authenticator_request msg ≡ ok req)

abbrev pub IsSendable : Command → Type 0
IsSendable c = (chan_of c < 2 ^ 32) × (length (msg_of c) ≤ max_message) × IsRequest c

abbrev pub AllSendable : List Command → Type 0
AllSendable [] = Unit {0}
AllSendable (c ∷ cs) = IsSendable c × AllSendable cs

-- The reports of a command, and those of all.
abbrev pub sent_one : ℕ → Command → List UhidEvent
sent_one id c = Transport.reports id (frames (chan_of c) (cmd_of c) (msg_of c))

abbrev pub sent : ℕ → List Command → List UhidEvent
sent id [] = []
sent id (c ∷ cs) = sent_one id c ++ sent id cs

abbrev pub event_of : Command → AuthEvent
event_of (ctap2_command chan_id msg) = ctap2_event chan_id msg
event_of (u2f_command chan_id msg) = msg_event chan_id (decode_authenticator_request msg)

cmd_of-small : (c : Command) → cmd_of c < 128
cmd_of-small (ctap2_command chan_id msg) = omega arith
cmd_of-small (u2f_command chan_id msg) = omega arith

sent_one-drained :
    (id : ℕ) (c : Command) → IsSendable c → (parse_packets (sent_one id c)).1 ≡ drained
sent_one-drained id c (hc, hm, d) =
    Transport.parse_packets-drained id (chan_of c) (cmd_of c) (msg_of c) hc (cmd_of-small c) hm

sent-packets :
    (id : ℕ) (c : Command) (cs : List Command)
    → IsSendable c
    → (parse_packets (sent id (c ∷ cs))).0
      ≡ (parse_packets (sent_one id c)).0 ++ (parse_packets (sent id cs)).0
sent-packets id c cs h = parse_packets-append (sent_one id c) (sent id cs) (sent_one-drained id c h)

module _ {Dev : Type 0} (write_event : Dev → Input2Request → Dev × Bool) where
  abbrev events_of : Token Dev → List Packet → List AuthEvent
  events_of t ps = (run_packets write_event t ps).1

  add_event-events :
      (e : AuthEvent) (r : Token Dev × List AuthEvent) → (add_event write_event e r).1 ≡ e ∷ r.1
  add_event-events e (t, es) = refl

  serve_command :
      (t : Token Dev) (c : Command) (qs : List Packet)
      → (after_packet write_event
          (serve write_event t (chan_of c) (cmd_of c) (msg_of c))
          (λ t'. run_packets write_event t' qs)).1
        ≡ event_of c ∷ events_of t qs
  unfolding serve
  serve_command t (ctap2_command chan_id msg) qs =
      add_event-events (event_of (ctap2_command chan_id msg)) (run_packets write_event t qs)
  serve_command t (u2f_command chan_id msg) qs =
      add_event-events (event_of (u2f_command chan_id msg)) (run_packets write_event t qs)

  pub sent_one-events :
      (t : Token Dev) (id : ℕ) (c : Command) (qs : List Packet)
      → IsSendable c
      → events_of t ((parse_packets (sent_one id c)).0 ++ qs)
        ≡ event_of c ∷ events_of (record t { assembly = empty_assembly }) qs
  sent_one-events t id c qs (hc, hm, d) =
      ap (λ (r : Token Dev × List AuthEvent). r.1)
        (run_packets-append write_event t id (chan_of c) (cmd_of c) (msg_of c) qs hc
          (cmd_of-small c) hm)
      ∙ serve_command (record t { assembly = empty_assembly }) c qs

  -- The transport makes one event of each command, and goes on with what follows.
  pub sent-events :
      (id : ℕ) (cs : List Command) (t : Token Dev) (qs : List Packet)
      → AllSendable cs
      → (u : Token Dev) × (events_of t ((parse_packets (sent id cs)).0 ++ qs)
          ≡ map event_of cs ++ events_of u qs)
  unfolding parse_packets
  sent-events id [] t qs a = (t, refl)
  sent-events id (c ∷ cs) t qs (h, a) =
      let (u, e) = sent-events id cs (record t { assembly = empty_assembly }) qs a in
      (
        u,
        ap (λ (ps : List Packet). events_of t (ps ++ qs)) (sent-packets id c cs h)
            ∙ ap (events_of t)
                (append_assoc (parse_packets (sent_one id c)).0 (parse_packets (sent id cs)).0 qs)
            ∙ sent_one-events t id c _ h
            ∙ ap (λ (es : List AuthEvent). event_of c ∷ es) e,
      )
