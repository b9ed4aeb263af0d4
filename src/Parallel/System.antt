-- ===== src/Parallel/System.antt =====
-- fidohid/fidohid.go and main.go: the goroutines `parsePackets`, `Run` and the server's `run`, in any
-- order. The channels between them are unbuffered, so a send and its receive are one step. They share
-- the device, on which one `WriteEvent` is a step. The context is never cancelled,
-- and once `evtChan` is closed the reader hears nothing more.
use linux_id.Common.{◌≡◌, Bool, true, false, Option, none, some, List, [], ◌∷◌, Bytes}
use linux_id.Hid.Types.{Packet, UhidEvent, output, other}
use linux_id.Hid.Reader.{parse_report}
use linux_id.Hid.Write.{Input2Request}
use linux_id.Hid.Run.{AuthEvent, Served, quiet, event, exhausted, Token, run_packet}
use linux_id.Verifier.{Prompt}
use linux_id.Server.Types.{Signer, Services, Server, Ending, replied, silent, fatal, panicked}
use linux_id.Server.U2f.{Presence}
use linux_id.Server.Run.{run_event, deliver}
use linux_id.Parallel.Recorder.{record_write}
use linux_id.Parallel.Same.{bare}

-- `parsePackets` waits for an event of the device, or to hand a packet over.
pub data ReaderPhase : Type 0 where
  reading : ReaderPhase
  holding : Packet → ReaderPhase

-- `Run` waits for a packet, has reports to write before it goes on, or waits to hand an event over.
pub data TransportPhase : Type 0 where
  taking : TransportPhase
  answering : List Input2Request → Served → TransportPhase
  offering : AuthEvent → TransportPhase

-- The server waits for an event, or has reports to write.
pub data ServerPhase : Type 0 where
  waiting : ServerPhase
  replying : List Input2Request → ServerPhase

-- `transport` has the local variables of `Run`; its device is a recorder of the last packet's reports.
pub record System (S Dev : Type 0) : Type 0 where
  pub device : Dev
  pub reader : ReaderPhase
  pub transport : Token (List Input2Request)
  pub transport_phase : TransportPhase
  pub server : Server S
  pub server_phase : ServerPhase

-- Every goroutine waits; `server` and the token are as they are found.
abbrev pub start_of : {S Dev : Type 0} → Token Dev → Server S → System S Dev
start_of t s = record {
  device = t.device;
  reader = reading;
  transport = bare t;
  transport_phase = taking;
  server = s;
  server_phase = waiting;
}

pub data Writer : Type 0 where
  by_transport by_server : Writer

-- What is seen of a step: an event of the device, an event that the server takes with what its
-- surroundings then do, a report that is written and whether the device takes it, or nothing.
pub data Happening : Type 0 where
  heard : UhidEvent → Happening
  passed : AuthEvent → Prompt → Presence → Happening
  wrote : Writer → Input2Request → Bool → Happening
  hidden : Happening

-- Behind a report: the next, or none if the device refused it.
abbrev pub remaining : Bool → List Input2Request → List Input2Request
remaining true rs = rs
remaining false rs = []

-- Behind a report of the kernel. A failed event ends the program, so there is no step for it.
abbrev pub after_report : Option Packet → ReaderPhase
after_report none = reading
after_report (some p) = holding p

-- Behind the writes of a message; `none` is the exit of the program.
abbrev pub after_answer : Served → Option TransportPhase
after_answer quiet = some taking
after_answer (event e) = some (offering e)
after_answer exhausted = none

-- A handler that ends the program has no phase behind it.
abbrev pub goes_on : Ending → Bool
goes_on (replied r) = true
goes_on silent = true
goes_on fatal = false
goes_on panicked = false

-- The reports that the server writes for an event.
abbrev pub reply_reports :
    {S : Type 0} → Signer S → Services → AuthEvent → Ending → List Input2Request
reply_reports signer lib evt end = deliver signer lib record_write [] evt end

module _ {S Dev : Type 0} (signer : Signer S) (lib : Services)
    (write_event : Dev → Input2Request → Dev × Bool) where
  pub data Step (s : System S Dev) : Happening → System S Dev → Type 0 where
    ignores : s.reader ≡ reading → Step s (heard other) s
    hears :
        (b : Bytes)
        → s.reader ≡ reading
        → Step s (heard (output b)) (record s { reader = after_report (parse_report b) })
    takes :
        (p : Packet)
        → s.reader ≡ holding p
        → s.transport_phase ≡ taking
        → Step s hidden (record s {
          reader = reading;
          transport = (run_packet record_write (bare s.transport) p).0;
          transport_phase =
              answering
                (run_packet record_write (bare s.transport) p).0.device
                (run_packet record_write (bare s.transport) p).1;
        })
    answers :
        (r : Input2Request) (rs : List Input2Request) (served : Served)
        → s.transport_phase ≡ answering (r ∷ rs) served
        → Step s (wrote by_transport r (write_event s.device r).1) (record s {
          device = (write_event s.device r).0;
          transport_phase = answering (remaining (write_event s.device r).1 rs) served;
        })
    has_answered :
        (served : Served) (next : TransportPhase)
        → s.transport_phase ≡ answering [] served
        → after_answer served ≡ some next
        → Step s hidden (record s { transport_phase = next })
    handles :
        (evt : AuthEvent) (p : Prompt) (q : Presence)
        → s.transport_phase ≡ offering evt
        → s.server_phase ≡ waiting
        → goes_on (run_event signer lib s.server evt p q).1 ≡ true
        → Step s (passed evt p q) (record s {
          transport_phase = taking;
          server = (run_event signer lib s.server evt p q).0;
          server_phase =
              replying (reply_reports signer lib evt (run_event signer lib s.server evt p q).1);
        })
    replies :
        (r : Input2Request) (rs : List Input2Request)
        → s.server_phase ≡ replying (r ∷ rs)
        → Step s (wrote by_server r (write_event s.device r).1) (record s {
          device = (write_event s.device r).0;
          server_phase = replying (remaining (write_event s.device r).1 rs);
        })
    has_replied : s.server_phase ≡ replying [] → Step s hidden (record s { server_phase = waiting })

  -- The states that are reached while the program runs, with what happened, the newest first.
  pub data Reached (s₀ : System S Dev) : List Happening → System S Dev → Type 0 where
    started : Reached s₀ [] s₀
    stepped :
        (hs : List Happening) (s : System S Dev) (h : Happening) (t : System S Dev)
        → Reached s₀ hs s
        → Step s h t
        → Reached s₀ (h ∷ hs) t
