-- ===== src/Parallel/Reports.antt =====
-- fidohid/fidohid.go: the reports of `Run`, without the device.
use linux_id.Common.{◌≡◌, refl, sym, ap, ◌∙◌, List, [], ◌∷◌, ◌++◌, append-nil, append_assoc}
use linux_id.Hid.Types.{Packet}
use linux_id.Hid.Write.{Input2Request}
use linux_id.Hid.Run.{
  AuthEvent, Served, quiet, event, exhausted, Token, add_event, after_packet, run_packet,
  run_packets,
}
use linux_id.Parallel.Recorder.{record_write, write_until}
use linux_id.Parallel.Same.{bare, on_device, run_packet-on_device}
use linux_id.Parallel.System.{TransportPhase, taking, answering, offering}

-- The reports that the packets lead to, behind those that the recorder has.
abbrev pub reports : Token (List Input2Request) → List Packet → List Input2Request
reports t ps = (run_packets record_write t ps).0.device

-- The reports that are still to be written: of the phase of the transport, and of further packets.
abbrev pub to_write : TransportPhase → List Input2Request → List Input2Request
to_write taking xs = xs
to_write (offering e) xs = xs
to_write (answering rs quiet) xs = rs ++ xs
to_write (answering rs (event e)) xs = rs ++ xs
to_write (answering rs exhausted) xs = rs

write_until-record_write : (d rs : List Input2Request) → write_until record_write d rs ≡ d ++ rs
unfolding write_until
write_until-record_write d [] = sym (append-nil d)
write_until-record_write d (r ∷ rs) =
    write_until-record_write (d ++ (r ∷ [])) rs ∙ append_assoc d (r ∷ []) rs

add_event-reports :
    (e : AuthEvent) (r : Token (List Input2Request) × List AuthEvent)
    → (add_event record_write e r).0.device ≡ r.0.device
add_event-reports e (t, es) = refl

further-reports :
    (d rs : List Input2Request) (t : Token (List Input2Request)) (ps : List Packet)
    → t.device ≡ write_until record_write d rs
    → reports t ps ≡ t.device ++ reports (bare t) ps
    → reports t ps ≡ d ++ (rs ++ reports (bare t) ps)
further-reports d rs t ps e ih =
    ih
    ∙ ap (λ (x : List Input2Request). x ++ reports (bare t) ps) (e ∙ write_until-record_write d rs)
    ∙ append_assoc d rs _

after_packet-reports :
    (d : List Input2Request) (q : Token (List Input2Request) × Served) (ps : List Packet)
    → ((t : Token (List Input2Request)) → reports t ps ≡ t.device ++ reports (bare t) ps)
    → (after_packet record_write
        (on_device record_write d q)
        (λ t. run_packets record_write t ps)).0.device
      ≡ d ++ to_write (answering q.0.device q.1) (reports (bare q.0) ps)
after_packet-reports d (t, quiet) ps ih =
    further-reports d t.device (on_device record_write d (t, quiet)).0 ps refl (ih _)
after_packet-reports d (t, event e) ps ih =
    add_event-reports e (run_packets record_write (on_device record_write d (t, quiet)).0 ps)
    ∙ further-reports d t.device (on_device record_write d (t, quiet)).0 ps refl (ih _)
after_packet-reports d (t, exhausted) ps ih = write_until-record_write d t.device

reports_after_packet :
    (t : Token (List Input2Request)) (p : Packet) (ps : List Packet)
    → ((u : Token (List Input2Request)) → reports u ps ≡ u.device ++ reports (bare u) ps)
    → reports t (p ∷ ps)
      ≡ t.device
        ++ to_write
            (answering
              (run_packet record_write (bare t) p).0.device
              (run_packet record_write (bare t) p).1)
            (reports (bare (run_packet record_write (bare t) p).0) ps)
unfolding run_packets
reports_after_packet t p ps ih =
    ap
      (λ (r : Token (List Input2Request) × Served).
        (after_packet record_write r (λ u. run_packets record_write u ps)).0.device)
      (run_packet-on_device record_write t p)
    ∙ after_packet-reports t.device (run_packet record_write (bare t) p) ps ih

-- The recorder keeps what it has in front.
pub reports-bare :
    (ps : List Packet) (t : Token (List Input2Request))
    → reports t ps ≡ t.device ++ reports (bare t) ps
reports-bare [] t = unfold run_packets in sym (append-nil t.device)
reports-bare (p ∷ ps) t =
    reports_after_packet t p ps (reports-bare ps)
    ∙ ap (λ (xs : List Input2Request). t.device ++ xs)
        (sym (reports_after_packet (bare t) p ps (reports-bare ps)))

pub reports-cons :
    (t : Token (List Input2Request)) (p : Packet) (ps : List Packet)
    → reports (bare t) (p ∷ ps)
      ≡ to_write
          (answering
            (run_packet record_write (bare t) p).0.device
            (run_packet record_write (bare t) p).1)
          (reports (bare (run_packet record_write (bare t) p).0) ps)
reports-cons t p ps = reports_after_packet (bare t) p ps (reports-bare ps)
