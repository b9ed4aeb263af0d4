-- ===== src/Parallel/Written.antt =====
-- fidohid/fidohid.go and main.go: what the goroutines write while the device takes every report.
use linux_id.Common.{
  ◌≡◌, sym, ap, Bool, true, false, Option, none, some, List, [], ◌∷◌, ◌++◌, append-nil,
  append_assoc,
}
use linux_id.Hid.Write.{Input2Request}
use linux_id.Hid.Run.{AuthEvent, Served, quiet, event, exhausted}
use linux_id.Hid.Types.{cmd_cbor}
use linux_id.Hid.Write.{write_response, write_ctap2_response}
use linux_id.Verifier.{Prompt}
use linux_id.Server.U2f.{Presence}
use linux_id.Server.Types.{
  Signer, Services, Server, Ending, replied, silent, fatal, panicked, u2f, ctap2,
}
use linux_id.Server.Run.{run_event, run_round, go_on, deliver}
use linux_id.Parallel.Recorder.{record_write, response_reports, write_respose-record_write}
use linux_id.Parallel.System.{
  TransportPhase, taking, answering, offering, ServerPhase, waiting, replying, by_transport,
  by_server, Happening, heard, passed, wrote, hidden, after_answer, goes_on, reply_reports,
}
use linux_id.Parallel.Reports.{to_write}

abbrev pub all_accepted : List Happening → Bool
all_accepted [] = true
all_accepted (wrote w r false ∷ hs) = false
all_accepted (wrote w r true ∷ hs) = all_accepted hs
all_accepted (heard u ∷ hs) = all_accepted hs
all_accepted (passed e p q ∷ hs) = all_accepted hs
all_accepted (hidden ∷ hs) = all_accepted hs

-- What each of the two has written, oldest first.
abbrev pub transport_wrote : List Happening → List Input2Request
transport_wrote [] = []
transport_wrote (wrote by_transport r ok ∷ hs) = transport_wrote hs ++ (r ∷ [])
transport_wrote (wrote by_server r ok ∷ hs) = transport_wrote hs
transport_wrote (heard u ∷ hs) = transport_wrote hs
transport_wrote (passed e p q ∷ hs) = transport_wrote hs
transport_wrote (hidden ∷ hs) = transport_wrote hs

abbrev pub server_wrote : List Happening → List Input2Request
server_wrote [] = []
server_wrote (wrote by_transport r ok ∷ hs) = server_wrote hs
server_wrote (wrote by_server r ok ∷ hs) = server_wrote hs ++ (r ∷ [])
server_wrote (heard u ∷ hs) = server_wrote hs
server_wrote (passed e p q ∷ hs) = server_wrote hs
server_wrote (hidden ∷ hs) = server_wrote hs

abbrev pub to_reply : ServerPhase → List Input2Request
to_reply waiting = []
to_reply (replying rs) = rs

pub to_write-accepted :
    (r : Input2Request) (rs : List Input2Request) (served : Served) (xs ws : List Input2Request)
    → ws ++ to_write (answering (r ∷ rs) served) xs
      ≡ (ws ++ (r ∷ [])) ++ to_write (answering rs served) xs
to_write-accepted r rs quiet xs ws = sym (append_assoc ws (r ∷ []) _)
to_write-accepted r rs (event e) xs ws = sym (append_assoc ws (r ∷ []) _)
to_write-accepted r rs exhausted xs ws = sym (append_assoc ws (r ∷ []) _)

pub to_write-after_answer :
    (served : Served) (next : TransportPhase) (xs : List Input2Request)
    → after_answer served ≡ some next
    → to_write (answering [] served) xs ≡ to_write next xs
to_write-after_answer quiet next xs e =
    let same : taking ≡ next = cc in ap (λ (p : TransportPhase). to_write p xs) same
to_write-after_answer (event x) next xs e =
    let same : offering x ≡ next = cc in ap (λ (p : TransportPhase). to_write p xs) same
to_write-after_answer exhausted next xs e = cc

abbrev pub then_round :
    {S : Type 0}
    → Option (Server S × List Input2Request)
    → (Server S → List Input2Request → Option (Server S × List Input2Request))
    → Option (Server S × List Input2Request)
then_round none f = none
then_round (some (s, d)) f = f s d

module _ {S : Type 0} (signer : Signer S) (lib : Services) where
  -- The server on its own: one round after the other, on a recorder.
  abbrev pub rounds_in : Server S → List Happening → Option (Server S × List Input2Request)
  rounds_in s₀ [] = some (s₀, [])
  rounds_in s₀ (passed e p q ∷ hs) =
      then_round (rounds_in s₀ hs) (λ s d. run_round signer lib record_write s d e p q)
  rounds_in s₀ (heard u ∷ hs) = rounds_in s₀ hs
  rounds_in s₀ (wrote w r ok ∷ hs) = rounds_in s₀ hs
  rounds_in s₀ (hidden ∷ hs) = rounds_in s₀ hs

  deliver-record_write :
      (d : List Input2Request) (evt : AuthEvent) (end : Ending)
      → deliver signer lib record_write d evt end ≡ d ++ reply_reports signer lib evt end
  unfolding write_response write_ctap2_response response_reports
  deliver-record_write d evt silent = sym (append-nil d)
  deliver-record_write d evt fatal = sym (append-nil d)
  deliver-record_write d evt panicked = sym (append-nil d)
  deliver-record_write d evt (replied (u2f payload status)) =
      write_respose-record_write d evt.chan_id evt.cmd status payload
  deliver-record_write d evt (replied (ctap2 status payload)) =
      write_respose-record_write d evt.chan_id cmd_cbor 0 (status ∷ payload)

  go_on-record_write :
      (d : List Input2Request) (evt : AuthEvent) (r : Server S × Ending)
      → goes_on r.1 ≡ true
      → go_on signer lib record_write evt d r ≡ some (r.0, d ++ reply_reports signer lib evt r.1)
  go_on-record_write d evt (s, replied r) e =
      ap (λ (x : List Input2Request). some (s, x)) (deliver-record_write d evt (replied r))
  go_on-record_write d evt (s, silent) e =
      ap (λ (x : List Input2Request). some (s, x)) (deliver-record_write d evt silent)
  go_on-record_write d evt (s, fatal) e = cc
  go_on-record_write d evt (s, panicked) e = cc

  pub run_round-record_write :
      (s : Server S) (d : List Input2Request) (evt : AuthEvent) (p : Prompt) (q : Presence)
      → goes_on (run_event signer lib s evt p q).1 ≡ true
      → run_round signer lib record_write s d evt p q
        ≡ some (
          (run_event signer lib s evt p q).0,
          d ++ reply_reports signer lib evt (run_event signer lib s evt p q).1,
        )
  unfolding run_round
  run_round-record_write s d evt p q e = go_on-record_write d evt (run_event signer lib s evt p q) e
