-- ===== src/Parallel/Rounds.antt =====
-- fidohid/fidohid.go and main.go: the reports of the goroutines against those of the transport and the
-- server on their own.
use linux_id.Common.{
  ◌≡◌, refl, sym, ap, ◌∙◌, Bool, true, false, Option, some, List, [], ◌∷◌, ◌++◌, append-nil,
  append_assoc,
}
use linux_id.Hid.Types.{Packet, output, other}
use linux_id.Hid.Reader.{parse_report, parse_packets, drained, add_packet}
use linux_id.Hid.Write.{Input2Request}
use linux_id.Hid.Run.{Served, Token}
use linux_id.Server.Types.{Signer, Services, Server}
use linux_id.Server.Run.{run_round}
use linux_id.Parallel.Recorder.{record_write}
use linux_id.Parallel.Same.{bare}
use linux_id.Parallel.System.{
  ReaderPhase, reading, holding, TransportPhase, taking, answering, offering, ServerPhase, waiting,
  replying, System, start_of, by_transport, by_server, Happening, heard, passed, wrote, hidden,
  remaining, Step, ignores, hears, takes, answers, has_answered, handles, replies, has_replied,
  Reached, started, stepped,
}
use linux_id.Parallel.Events.{held}
use linux_id.Parallel.Heard.{heard_in, heard_more, held-after_report}
use linux_id.Parallel.Order.{Reached-drained}
use linux_id.Parallel.Reports.{reports, to_write, reports-cons}
use linux_id.Parallel.Written.{
  all_accepted, transport_wrote, server_wrote, to_reply, to_write-accepted, to_write-after_answer,
  then_round, rounds_in, run_round-record_write,
}

module _ {S Dev : Type 0} (signer : Signer S) (lib : Services)
    (write_event : Dev → Input2Request → Dev × Bool) (t₀ : Token Dev) where
  -- What is still to be written, if the reader goes on with `qs`.
  abbrev pub unwritten : System S Dev → List Packet → List Input2Request
  unwritten s qs = to_write s.transport_phase (reports (bare s.transport) (held s.reader ++ qs))

  abbrev reported : List Happening → List Packet → List Input2Request
  reported hs qs = reports (bare t₀) ((parse_packets (heard_in hs)).0 ++ qs)

  record IsWritten (s₀ : Server S) (hs : List Happening) (s : System S Dev) : Type 0 where
    transport : (qs : List Packet) → reported hs qs ≡ transport_wrote hs ++ unwritten s qs
    server :
        rounds_in signer lib s₀ hs ≡ some (s.server, server_wrote hs ++ to_reply s.server_phase)

  unwritten-eq :
      (s : System S Dev) (r : ReaderPhase) (p : TransportPhase) (qs : List Packet)
      → s.reader ≡ r
      → s.transport_phase ≡ p
      → unwritten s qs ≡ to_write p (reports (bare s.transport) (held r ++ qs))
  unwritten-eq s r p qs e f = rw (e, f) refl

  still_written :
      (hs : List Happening) (qs : List Packet) (xs ys : List Input2Request)
      → reported hs qs ≡ transport_wrote hs ++ xs
      → xs ≡ ys
      → reported hs qs ≡ transport_wrote hs ++ ys
  still_written hs qs xs ys e f = e ∙ ap (λ (zs : List Input2Request). transport_wrote hs ++ zs) f

  answers-IsWritten :
      (s₀ : Server S) (hs : List Happening) (s : System S Dev) (r : Input2Request)
      (rs : List Input2Request) (served : Served) (d : Dev) (ok : Bool)
      → s.transport_phase ≡ answering (r ∷ rs) served
      → all_accepted (wrote by_transport r ok ∷ hs) ≡ true
      → IsWritten s₀ hs s
      → IsWritten s₀
          (wrote by_transport r ok ∷ hs)
          (record s { device = d; transport_phase = answering (remaining ok rs) served })
  answers-IsWritten s₀ hs s r rs served d true k a w = record {
    transport = λ qs.
        still_written hs qs _ _ (w.transport qs)
          (unwritten-eq s s.reader (answering (r ∷ rs) served) qs refl k)
        ∙ to_write-accepted r rs served _ (transport_wrote hs);
    server = w.server;
  }
  answers-IsWritten s₀ hs s r rs served d false k a w = cc

  replies-IsWritten :
      (s₀ : Server S) (hs : List Happening) (s : System S Dev) (r : Input2Request)
      (rs : List Input2Request) (d : Dev) (ok : Bool)
      → s.server_phase ≡ replying (r ∷ rs)
      → all_accepted (wrote by_server r ok ∷ hs) ≡ true
      → IsWritten s₀ hs s
      → IsWritten s₀
          (wrote by_server r ok ∷ hs)
          (record s { device = d; server_phase = replying (remaining ok rs) })
  replies-IsWritten s₀ hs s r rs d true k a w = record {
    transport = w.transport;
    server =
        w.server
        ∙ ap (λ (x : List Input2Request). some (s.server, x))
            (ap (λ (p : ServerPhase). server_wrote hs ++ to_reply p) k
              ∙ sym (append_assoc (server_wrote hs) (r ∷ []) rs));
  }
  replies-IsWritten s₀ hs s r rs d false k a w = cc

  handles-IsWritten :
      (s₀ : Server S) (hs : List Happening) (s : System S Dev)
      → s.server_phase ≡ waiting
      → IsWritten s₀ hs s
      → rounds_in signer lib s₀ hs ≡ some (s.server, server_wrote hs)
  handles-IsWritten s₀ hs s k w =
      w.server
      ∙ ap (λ (x : List Input2Request). some (s.server, x))
          (ap (λ (p : ServerPhase). server_wrote hs ++ to_reply p) k ∙ append-nil (server_wrote hs))

  Step-IsWritten :
      {s t : System S Dev} {h : Happening} (s₀ : Server S) (hs : List Happening)
      → Step signer lib write_event s h t
      → (parse_packets (heard_in hs)).1 ≡ drained
      → all_accepted (h ∷ hs) ≡ true
      → IsWritten s₀ hs s
      → IsWritten s₀ (h ∷ hs) t
  unfolding parse_packets
  Step-IsWritten s₀ hs (ignores r) n a w = record {
    transport = λ qs. ap (reports (bare t₀)) (heard_more hs other qs n) ∙ w.transport qs;
    server = w.server;
  }
  Step-IsWritten {s} s₀ hs (hears b r) n a w = record {
    transport = λ qs.
        ap (reports (bare t₀)) (heard_more hs (output b) qs n)
        ∙ still_written hs (add_packet (parse_report b) [] ++ qs) _ _ (w.transport _) (
            unwritten-eq s reading s.transport_phase _ r refl
            ∙ ap
                (λ (ps : List Packet).
                  to_write s.transport_phase (reports (bare s.transport) (ps ++ qs)))
                (held-after_report (parse_report b)));
    server = w.server;
  }
  Step-IsWritten {s} s₀ hs (takes p r k) n a w = record {
    transport = λ qs.
        still_written hs qs _ _ (w.transport qs)
          (unwritten-eq s (holding p) taking qs r k ∙ reports-cons s.transport p qs);
    server = w.server;
  }
  Step-IsWritten {s} s₀ hs (answers r rs served k) n a w =
      answers-IsWritten s₀ hs s r rs served (write_event s.device r).0 (write_event s.device r).1 k
        a w
  Step-IsWritten {s} s₀ hs (has_answered served next k e) n a w = record {
    transport = λ qs. still_written hs qs _ _ (w.transport qs) (
        unwritten-eq s s.reader (answering [] served) qs refl k
        ∙ to_write-after_answer served next _ e);
    server = w.server;
  }
  Step-IsWritten {s} s₀ hs (handles e p q k m g) n a w = record {
    transport = λ qs.
        still_written hs qs _ _ (w.transport qs) (unwritten-eq s s.reader (offering e) qs refl k);
    server =
        ap
          (λ (o : Option (Server S × List Input2Request)).
            then_round o (λ s d. run_round signer lib record_write s d e p q))
          (handles-IsWritten s₀ hs s m w)
        ∙ run_round-record_write signer lib s.server (server_wrote hs) e p q g;
  }
  Step-IsWritten {s} s₀ hs (replies r rs k) n a w =
      replies-IsWritten s₀ hs s r rs (write_event s.device r).0 (write_event s.device r).1 k a w
  Step-IsWritten {s} s₀ hs (has_replied k) n a w = record {
    transport = w.transport;
    server = w.server ∙ ap (λ (p : ServerPhase). some (s.server, server_wrote hs ++ to_reply p)) k;
  }

  accepted_before :
      (h : Happening) (hs : List Happening) → all_accepted (h ∷ hs) ≡ true → all_accepted hs ≡ true
  accepted_before (heard u) hs a = a
  accepted_before (passed e p q) hs a = a
  accepted_before (wrote w r true) hs a = a
  accepted_before (wrote w r false) hs a = cc
  accepted_before hidden hs a = a

  Reached-IsWritten :
      (s₀ : Server S) {hs : List Happening} {s : System S Dev}
      → Reached signer lib write_event (start_of t₀ s₀) hs s
      → all_accepted hs ≡ true
      → IsWritten s₀ hs s
  unfolding parse_packets
  Reached-IsWritten s₀ started a = record { transport = λ qs. refl; server = refl }
  Reached-IsWritten s₀ (stepped hs s h t before st) a =
      Step-IsWritten s₀ hs st (Reached-drained signer lib write_event t₀ s₀ before) a
        (Reached-IsWritten s₀ before (accepted_before h hs a))

  -- As long as the device takes every report: whatever the order in which the three goroutines run,
  -- the reports of the transport and those of the server mix on the device, but each of the two has
  -- its own in order. What the transport has written and has still to write is what the sequential
  -- transport writes for the packets that were heard. What the server has written and has still to
  -- write is what it writes when it handles the events that it took one round after the other, and
  -- its state is the one behind these rounds.
  pub Reached-rounds_in :
      (s₀ : Server S) (hs : List Happening) (s : System S Dev)
      → Reached signer lib write_event (start_of t₀ s₀) hs s
      → all_accepted hs ≡ true
      → (reports (bare t₀) (parse_packets (heard_in hs)).0 ≡ transport_wrote hs ++ unwritten s [])
        × (rounds_in signer lib s₀ hs ≡ some (s.server, server_wrote hs ++ to_reply s.server_phase))
  Reached-rounds_in s₀ hs s h a = (
    ap (reports (bare t₀)) (sym (append-nil (parse_packets (heard_in hs)).0))
        ∙ (Reached-IsWritten s₀ h a).transport [],
    (Reached-IsWritten s₀ h a).server,
  )
