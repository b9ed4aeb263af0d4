-- ===== src/Parallel/Sizes.antt =====
-- fidohid/fidohid.go: the size of what `writeRespose` gives to the device, which the report descriptor
-- sets to `REPORT_COUNT (64)`.
use linux_id.Common.{◌≡◌, Bool, true, false, some, List, [], ◌∷◌}
use mathlib.Core.Path.{subst}
use linux_id.Hid.Write.{Input2Request}
use linux_id.Hid.Run.{Token, Served}
use linux_id.Server.Types.{Signer, Services, Server}
use linux_id.Server.Run.{run_event}
use linux_id.Hid.Run.{quiet, event, exhausted}
use linux_id.Parallel.System.{
  TransportPhase, taking, answering, offering, ServerPhase, waiting, replying, System, start_of,
  Happening, heard, passed, wrote, hidden, after_answer, remaining, Step, ignores, hears, takes,
  answers, has_answered, handles, replies, has_replied, Reached, started, stepped,
}
use linux_id.Parallel.FrameSize.{AllReports, run_packet-AllReports, reply_reports-AllReports}

-- The reports that were written, newest first.
abbrev pub wrote_in : List Happening → List Input2Request
wrote_in [] = []
wrote_in (wrote w r ok ∷ hs) = r ∷ wrote_in hs
wrote_in (heard u ∷ hs) = wrote_in hs
wrote_in (passed e p q ∷ hs) = wrote_in hs
wrote_in (hidden ∷ hs) = wrote_in hs

-- The reports that are about to be written.
abbrev at_transport : TransportPhase → List Input2Request
at_transport taking = []
at_transport (offering e) = []
at_transport (answering rs served) = rs

abbrev at_server : ServerPhase → List Input2Request
at_server waiting = []
at_server (replying rs) = rs

remaining-AllReports :
    (ok : Bool) (rs : List Input2Request) → AllReports rs → AllReports (remaining ok rs)
remaining-AllReports true rs a = a
remaining-AllReports false rs a = tt

after_answer-AllReports :
    (served : Served) (next : TransportPhase)
    → after_answer served ≡ some next
    → AllReports (at_transport next)
after_answer-AllReports quiet next e =
    let same : taking ≡ next = cc in
    subst (λ (p : TransportPhase). AllReports (at_transport p)) same tt
after_answer-AllReports (event x) next e =
    let same : offering x ≡ next = cc in
    subst (λ (p : TransportPhase). AllReports (at_transport p)) same tt
after_answer-AllReports exhausted next e = cc

module _ {S Dev : Type 0} (signer : Signer S) (lib : Services)
    (write_event : Dev → Input2Request → Dev × Bool) (t₀ : Token Dev) (s₀ : Server S) where
  record IsSized (hs : List Happening) (s : System S Dev) : Type 0 where
    written : AllReports (wrote_in hs)
    transport : AllReports (at_transport s.transport_phase)
    server : AllReports (at_server s.server_phase)

  Step-IsSized :
      {s t : System S Dev} {h : Happening} (hs : List Happening)
      → Step signer lib write_event s h t
      → IsSized hs s
      → IsSized (h ∷ hs) t
  Step-IsSized hs (ignores r) i = record {
    written = i.written;
    transport = i.transport;
    server = i.server;
  }
  Step-IsSized hs (hears b r) i = record {
    written = i.written;
    transport = i.transport;
    server = i.server;
  }
  Step-IsSized {s} hs (takes p r k) i = record {
    written = i.written;
    transport = run_packet-AllReports s.transport p;
    server = i.server;
  }
  Step-IsSized {s} hs (answers r rs served k) i =
      let (first, others) =
        subst (λ (p : TransportPhase). AllReports (at_transport p)) k i.transport in
      record {
        written = (first, i.written);
        transport = remaining-AllReports (write_event s.device r).1 rs others;
        server = i.server;
      }
  Step-IsSized hs (has_answered served next k e) i = record {
    written = i.written;
    transport = after_answer-AllReports served next e;
    server = i.server;
  }
  Step-IsSized {s} hs (handles evt p q k m g) i = record {
    written = i.written;
    transport = tt;
    server = reply_reports-AllReports signer lib evt (run_event signer lib s.server evt p q).1;
  }
  Step-IsSized {s} hs (replies r rs k) i =
      let (first, others) = subst (λ (p : ServerPhase). AllReports (at_server p)) k i.server in
      record {
        written = (first, i.written);
        transport = i.transport;
        server = remaining-AllReports (write_event s.device r).1 rs others;
      }
  Step-IsSized hs (has_replied k) i = record {
    written = i.written;
    transport = i.transport;
    server = tt;
  }

  Reached-IsSized :
      {hs : List Happening} {s : System S Dev}
      → Reached signer lib write_event (start_of t₀ s₀) hs s
      → IsSized hs s
  Reached-IsSized started = record { written = tt; transport = tt; server = tt }
  Reached-IsSized (stepped hs s h t before st) = Step-IsSized hs st (Reached-IsSized before)

  -- Every report that the transport or the server gives to the device, at whatever time, has 64 bytes,
  -- and its size field says so: the size that the report descriptor announces.
  pub Reached-AllReports :
      (hs : List Happening) (s : System S Dev)
      → Reached signer lib write_event (start_of t₀ s₀) hs s
      → AllReports (wrote_in hs)
  Reached-AllReports hs s h = (Reached-IsSized h).written
