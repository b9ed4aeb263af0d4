-- ===== src/Parallel/Events.antt =====
-- fidohid/fidohid.go: the events of `Run`, without the device.
use linux_id.Common.{◌≡◌, refl, sym, ap, ◌∙◌, Bool, some, List, [], ◌∷◌, ◌++◌}
use linux_id.Hid.Types.{Packet}
use linux_id.Hid.Write.{Input2Request}
use linux_id.Hid.Run.{
  AuthEvent, Served, quiet, event, exhausted, Token, add_event, after_packet, run_packet,
  run_packets,
}
use linux_id.Parallel.Recorder.{record_write}
use linux_id.Parallel.Same.{bare, on_device, run_packet-on_device}
use linux_id.Parallel.System.{
  ReaderPhase, reading, holding, TransportPhase, taking, answering, offering, after_answer,
}

-- The events that the packets lead to.
abbrev pub events : Token (List Input2Request) → List Packet → List AuthEvent
events t ps = (run_packets record_write t ps).1

-- The same from what the first packet leads to.
abbrev events_after : Token (List Input2Request) × Served → List Packet → List AuthEvent
events_after (t, quiet) ps = events t ps
events_after (t, event e) ps = e ∷ events t ps
events_after (t, exhausted) ps = []

module _ {Dev : Type 0} (write_event : Dev → Input2Request → Dev × Bool) where
  add_event-events :
      (e : AuthEvent) (r : Token Dev × List AuthEvent) → (add_event write_event e r).1 ≡ e ∷ r.1
  add_event-events e (t, es) = refl

  on_device-events :
      (d : Dev) (q : Token (List Input2Request) × Served) (ps : List Packet)
      → ((t : Token Dev) → (run_packets write_event t ps).1 ≡ events (bare t) ps)
      → ((t : Token (List Input2Request)) → events t ps ≡ events (bare t) ps)
      → (after_packet write_event (on_device write_event d q) (λ t. run_packets write_event t ps)).1
        ≡ events_after q ps
  on_device-events d (t, quiet) ps ih jh = ih _ ∙ sym (jh t)
  on_device-events d (t, event e) ps ih jh =
      add_event-events e (run_packets write_event (on_device write_event d (t, quiet)).0 ps)
      ∙ ap (λ (es : List AuthEvent). e ∷ es) (ih _ ∙ sym (jh t))
  on_device-events d (t, exhausted) ps ih jh = refl

  first_packet-events :
      (t : Token Dev) (p : Packet) (ps : List Packet)
      → ((u : Token Dev) → (run_packets write_event u ps).1 ≡ events (bare u) ps)
      → ((u : Token (List Input2Request)) → events u ps ≡ events (bare u) ps)
      → (run_packets write_event t (p ∷ ps)).1
        ≡ events_after (run_packet record_write (bare t) p) ps
  unfolding run_packets
  first_packet-events t p ps ih jh =
      ap
        (λ (r : Token Dev × Served).
          (after_packet write_event r (λ u. run_packets write_event u ps)).1)
        (run_packet-on_device write_event t p)
      ∙ on_device-events t.device (run_packet record_write (bare t) p) ps ih jh

-- What the recorder kept before makes no difference.
pub events-bare :
    (ps : List Packet) (t : Token (List Input2Request)) → events t ps ≡ events (bare t) ps
events-bare [] t = unfold run_packets in refl
events-bare (p ∷ ps) t =
    first_packet-events record_write t p ps (events-bare ps) (events-bare ps)
    ∙ sym (first_packet-events record_write (bare t) p ps (events-bare ps) (events-bare ps))

pub events-cons :
    (t : Token (List Input2Request)) (p : Packet) (ps : List Packet)
    → events t (p ∷ ps) ≡ events_after (run_packet record_write (bare t) p) ps
events-cons t p ps = first_packet-events record_write t p ps (events-bare ps) (events-bare ps)

-- The events do not depend on the device.
pub run_packets-events :
    {Dev : Type 0} (write_event : Dev → Input2Request → Dev × Bool) (ps : List Packet)
    (t : Token Dev)
    → (run_packets write_event t ps).1 ≡ events (bare t) ps
run_packets-events write_event [] t = unfold run_packets in refl
run_packets-events write_event (p ∷ ps) t =
    first_packet-events write_event t p ps (run_packets-events write_event ps) (events-bare ps)
    ∙ sym (events-cons (bare t) p ps)

-- The packet that the reader has not handed over.
abbrev pub held : ReaderPhase → List Packet
held reading = []
held (holding p) = p ∷ []

-- The events that are still to come: of the phase of the transport, and of further packets.
abbrev pub to_come : TransportPhase → List AuthEvent → List AuthEvent
to_come taking es = es
to_come (offering e) es = e ∷ es
to_come (answering rs quiet) es = es
to_come (answering rs (event e)) es = e ∷ es
to_come (answering rs exhausted) es = []

abbrev to_come_after : TransportPhase → Token (List Input2Request) → List Packet → List AuthEvent
to_come_after p t ps = to_come p (events t ps)

pub events_after-to_come :
    (q : Token (List Input2Request) × Served) (ps : List Packet)
    → events_after q ps ≡ to_come (answering q.0.device q.1) (events q.0 ps)
events_after-to_come (t, quiet) ps = refl
events_after-to_come (t, event e) ps = refl
events_after-to_come (t, exhausted) ps = refl

pub to_come-answering :
    (rs rs' : List Input2Request) (served : Served) (es : List AuthEvent)
    → to_come (answering rs served) es ≡ to_come (answering rs' served) es
to_come-answering rs rs' quiet es = refl
to_come-answering rs rs' (event e) es = refl
to_come-answering rs rs' exhausted es = refl

pub to_come-after_answer :
    (rs : List Input2Request) (served : Served) (next : TransportPhase) (es : List AuthEvent)
    → after_answer served ≡ some next
    → to_come (answering rs served) es ≡ to_come next es
to_come-after_answer rs quiet next es e =
    let same : taking ≡ next = cc in ap (λ (p : TransportPhase). to_come p es) same
to_come-after_answer rs (event x) next es e =
    let same : offering x ≡ next = cc in ap (λ (p : TransportPhase). to_come p es) same
to_come-after_answer rs exhausted next es e = cc

-- The events that are under way when the server has taken all that it could.
abbrev pub under_way :
    ReaderPhase → TransportPhase → Token (List Input2Request) → List Packet → List AuthEvent
under_way r p t qs = to_come p (events t (held r ++ qs))

pub under_way-eq :
    (r r' : ReaderPhase) (p p' : TransportPhase) (t : Token (List Input2Request)) (qs : List Packet)
    → r ≡ r'
    → p ≡ p'
    → under_way r p t qs ≡ under_way r' p' t qs
under_way-eq r r' p p' t qs e f = rw (e, f) refl
