-- ===== src/Parallel/Order.antt =====
-- fidohid/fidohid.go and main.go: the order in which the server takes the events of the transport.
use linux_id.Common.{◌≡◌, refl, sym, ap, ◌∙◌, Bool, List, [], ◌∷◌, ◌++◌, append-nil, append_assoc}
use linux_id.Hid.Types.{Packet, UhidEvent, output, other}
use linux_id.Hid.Reader.{drained, parse_report, add_packet, parse_packets}
use linux_id.Hid.Write.{Input2Request}
use linux_id.Hid.Run.{AuthEvent, Token, run_packet, run_packets}
use linux_id.Server.Types.{Signer, Services, Server}
use linux_id.Server.Run.{run_event}
use linux_id.Parallel.Recorder.{record_write}
use linux_id.Parallel.Same.{bare}
use linux_id.Parallel.System.{
  reading, holding, taking, answering, offering, System, start_of, Happening, heard, passed, wrote,
  hidden, remaining, Step, ignores, hears, takes, answers, has_answered, handles, replies,
  has_replied, Reached, started, stepped,
}
use linux_id.Parallel.Events.{
  events, events-cons, events-bare, run_packets-events, events_after-to_come, to_come,
  to_come-answering, to_come-after_answer, under_way, under_way-eq,
}
use linux_id.Parallel.Heard.{heard_in, parse_packets-drained, heard_more, held-after_report}

-- The events that the server has taken, oldest first.
abbrev pub passed_in : List Happening → List AuthEvent
passed_in [] = []
passed_in (heard u ∷ hs) = passed_in hs
passed_in (passed e p q ∷ hs) = passed_in hs ++ (e ∷ [])
passed_in (wrote w r ok ∷ hs) = passed_in hs
passed_in (hidden ∷ hs) = passed_in hs

module _ {S Dev : Type 0} (signer : Signer S) (lib : Services)
    (write_event : Dev → Input2Request → Dev × Bool) (t₀ : Token Dev) where
  -- What the sequential transport makes of what was heard, and of further packets.
  abbrev in_sequence : List Happening → List Packet → List AuthEvent
  in_sequence hs qs = events (bare t₀) ((parse_packets (heard_in hs)).0 ++ qs)

  record IsOrdered (hs : List Happening) (s : System S Dev) : Type 0 where
    no_failure : (parse_packets (heard_in hs)).1 ≡ drained
    in_order :
        (qs : List Packet)
        → in_sequence hs qs ≡ passed_in hs ++ under_way s.reader s.transport_phase s.transport qs

  -- One more event of the device.
  hearing :
      (hs : List Happening) (u : UhidEvent) (qs : List Packet)
      → (parse_packets (heard_in hs)).1 ≡ drained
      → in_sequence (heard u ∷ hs) qs ≡ in_sequence hs ((parse_packets (u ∷ [])).0 ++ qs)
  hearing hs u qs e = ap (events (bare t₀)) (heard_more hs u qs e)

  still_in_order :
      (hs : List Happening) (qs : List Packet) (es fs : List AuthEvent)
      → in_sequence hs qs ≡ passed_in hs ++ es
      → es ≡ fs
      → in_sequence hs qs ≡ passed_in hs ++ fs
  still_in_order hs qs es fs e f = e ∙ ap (λ (xs : List AuthEvent). passed_in hs ++ xs) f

  Step-IsOrdered :
      {s t : System S Dev} {h : Happening} (hs : List Happening)
      → Step signer lib write_event s h t
      → IsOrdered hs s
      → IsOrdered (h ∷ hs) t
  unfolding parse_packets
  Step-IsOrdered hs (ignores r) o = record {
    no_failure = parse_packets-drained (heard_in hs) (other ∷ []) o.no_failure refl;
    in_order = λ qs. hearing hs other qs o.no_failure ∙ o.in_order qs;
  }
  Step-IsOrdered {s} hs (hears b r) o = record {
    no_failure = parse_packets-drained (heard_in hs) (output b ∷ []) o.no_failure refl;
    in_order = λ qs.
        hearing hs (output b) qs o.no_failure
        ∙ still_in_order hs (add_packet (parse_report b) [] ++ qs) _ _ (o.in_order _) (
            under_way-eq s.reader reading s.transport_phase s.transport_phase s.transport _ r refl
            ∙ ap (λ (ps : List Packet). to_come s.transport_phase (events s.transport (ps ++ qs)))
                (held-after_report (parse_report b)));
  }
  Step-IsOrdered {s} hs (takes p r k) o = record {
    no_failure = o.no_failure;
    in_order = λ qs. still_in_order hs qs _ _ (o.in_order qs) (
        under_way-eq s.reader (holding p) s.transport_phase taking s.transport qs r k
        ∙ events-cons s.transport p qs
        ∙ events_after-to_come (run_packet record_write (bare s.transport) p) qs);
  }
  Step-IsOrdered {s} hs (answers r rs served k) o = record {
    no_failure = o.no_failure;
    in_order = λ qs. still_in_order hs qs _ _ (o.in_order qs) (
        under_way-eq s.reader s.reader s.transport_phase (answering (r ∷ rs) served) s.transport qs
          refl k
        ∙ to_come-answering (r ∷ rs) (remaining (write_event s.device r).1 rs) served _);
  }
  Step-IsOrdered {s} hs (has_answered served next k n) o = record {
    no_failure = o.no_failure;
    in_order = λ qs. still_in_order hs qs _ _ (o.in_order qs) (
        under_way-eq s.reader s.reader s.transport_phase (answering [] served) s.transport qs refl k
        ∙ to_come-after_answer [] served next _ n);
  }
  Step-IsOrdered {s} hs (handles e p q k m g) o = record {
    no_failure = o.no_failure;
    in_order = λ qs.
        still_in_order hs qs _ _ (o.in_order qs)
          (under_way-eq s.reader s.reader s.transport_phase (offering e) s.transport qs refl k)
        ∙ sym (append_assoc (passed_in hs) (e ∷ []) _);
  }
  Step-IsOrdered hs (replies r rs k) o = record { no_failure = o.no_failure; in_order = o.in_order }
  Step-IsOrdered hs (has_replied k) o = record { no_failure = o.no_failure; in_order = o.in_order }

  Reached-IsOrdered :
      (s₀ : Server S) {hs : List Happening} {s : System S Dev}
      → Reached signer lib write_event (start_of t₀ s₀) hs s
      → IsOrdered hs s
  unfolding parse_packets
  Reached-IsOrdered s₀ started = record {
    no_failure = refl;
    in_order = λ qs. sym (events-bare qs (bare t₀));
  }
  Reached-IsOrdered s₀ (stepped hs s h t before st) =
      Step-IsOrdered hs st (Reached-IsOrdered s₀ before)

  pub Reached-in_sequence :
      (s₀ : Server S) {hs : List Happening} {s : System S Dev} (qs : List Packet)
      → Reached signer lib write_event (start_of t₀ s₀) hs s
      → events (bare t₀) ((parse_packets (heard_in hs)).0 ++ qs)
        ≡ passed_in hs ++ under_way s.reader s.transport_phase s.transport qs
  Reached-in_sequence s₀ qs h = (Reached-IsOrdered s₀ h).in_order qs

  pub Reached-drained :
      (s₀ : Server S) {hs : List Happening} {s : System S Dev}
      → Reached signer lib write_event (start_of t₀ s₀) hs s
      → (parse_packets (heard_in hs)).1 ≡ drained
  Reached-drained s₀ h = (Reached-IsOrdered s₀ h).no_failure

  -- The server as it handles the events one after the other.
  abbrev pub served_in : Server S → List Happening → Server S
  served_in s₀ [] = s₀
  served_in s₀ (passed e p q ∷ hs) = (run_event signer lib (served_in s₀ hs) e p q).0
  served_in s₀ (heard u ∷ hs) = served_in s₀ hs
  served_in s₀ (wrote w r ok ∷ hs) = served_in s₀ hs
  served_in s₀ (hidden ∷ hs) = served_in s₀ hs

  Step-served_in :
      {s t : System S Dev} {h : Happening} (s₀ : Server S) (hs : List Happening)
      → Step signer lib write_event s h t
      → s.server ≡ served_in s₀ hs
      → t.server ≡ served_in s₀ (h ∷ hs)
  Step-served_in s₀ hs (ignores r) e = e
  Step-served_in s₀ hs (hears b r) e = e
  Step-served_in s₀ hs (takes p r k) e = e
  Step-served_in s₀ hs (answers r rs served k) e = e
  Step-served_in s₀ hs (has_answered served next k n) e = e
  Step-served_in s₀ hs (handles evt p q k m g) e =
      ap (λ (x : Server S). (run_event signer lib x evt p q).0) e
  Step-served_in s₀ hs (replies r rs k) e = e
  Step-served_in s₀ hs (has_replied k) e = e

  Reached-served_in :
      (s₀ : Server S) {hs : List Happening} {s : System S Dev}
      → Reached signer lib write_event (start_of t₀ s₀) hs s
      → s.server ≡ served_in s₀ hs
  Reached-served_in s₀ started = refl
  Reached-served_in s₀ (stepped hs s h t before st) =
      Step-served_in s₀ hs st (Reached-served_in s₀ before)

  -- Whatever the order in which the three goroutines run and whatever the device refuses: the server
  -- takes the events that the sequential transport makes of the packets that were heard, in their
  -- order, each once. Those that it has not taken are under way in the transport or the reader. The
  -- state of the server is that of handling the events that it took one after the other.
  pub Reached-run_packets :
      (s₀ : Server S) (hs : List Happening) (s : System S Dev)
      → Reached signer lib write_event (start_of t₀ s₀) hs s
      → ((run_packets write_event t₀ (parse_packets (heard_in hs)).0).1
          ≡ passed_in hs ++ under_way s.reader s.transport_phase s.transport [])
        × (s.server ≡ served_in s₀ hs)
  Reached-run_packets s₀ hs s h = (
    run_packets-events write_event (parse_packets (heard_in hs)).0 t₀
        ∙ ap (events (bare t₀)) (sym (append-nil (parse_packets (heard_in hs)).0))
        ∙ (Reached-IsOrdered s₀ h).in_order [],
    Reached-served_in s₀ h,
  )
