-- ===== src/Server/Run.antt =====
-- main.go: one round of the loop of `run`, from an event of the transport to the report that answers
-- it. An error of a write is logged only.
use linux_id.Common.{Bool, Option, none, some}
use linux_id.Hid.Write.{Input2Request, write_response, write_ctap2_response}
use linux_id.Hid.Run.{AuthEvent}
use linux_id.U2f.Decode.{AuthenticatorRequest, DecodeError}
use linux_id.Verifier.{Prompt}
use linux_id.Server.Types.{
  Signer, Services, Server, u2f, ctap2, Ending, replied, silent, fatal, panicked,
}
use linux_id.Server.U2f.{Presence, run_u2f}
use linux_id.Server.Dispatch.{handle_ctap2}

module _ {S : Type 0} (signer : Signer S) (lib : Services) where
  -- Behind the test for an error; a nil request would be a panic.
  unfoldable pub run_request :
      Server S → Option DecodeError → Option AuthenticatorRequest → Presence → Server S × Ending
  run_request s (some e) req q = (s, silent)
  run_request s none none q = (s, panicked)
  run_request s none (some req) q = run_u2f signer lib s req q

  -- An event with CBOR is a CTAP2 one.
  unfoldable pub run_event : Server S → AuthEvent → Prompt → Presence → Server S × Ending
  run_event s evt p q = elim evt.raw_cbor [
    | some msg ↦ handle_ctap2 signer lib s p msg
    | none ↦ run_request s evt.error evt.req q
  ]

  module _ {Dev : Type 0} (write_event : Dev → Input2Request → Dev × Bool) where
    abbrev pub deliver : Dev → AuthEvent → Ending → Dev
    deliver d evt (replied (u2f payload status)) =
        (write_response write_event d evt.chan_id evt.cmd payload status).0
    deliver d evt (replied (ctap2 status payload)) =
        (write_ctap2_response write_event d evt.chan_id status payload).0
    deliver d evt silent = d
    deliver d evt fatal = d
    deliver d evt panicked = d

    -- The server and the device after the event; `none` is the end of the program.
    abbrev pub go_on : AuthEvent → Dev → Server S × Ending → Option (Server S × Dev)
    go_on evt d (s, replied r) = some (s, deliver d evt (replied r))
    go_on evt d (s, silent) = some (s, d)
    go_on evt d (s, fatal) = none
    go_on evt d (s, panicked) = none

    unfoldable pub run_round :
        Server S → Dev → AuthEvent → Prompt → Presence → Option (Server S × Dev)
    run_round s d evt p q = go_on evt d (run_event s evt p q)
