-- ===== src/Parallel/Heard.antt =====
-- fidohid/fidohid.go: the packets of a history of the goroutines.
use linux_id.Common.{◌≡◌, refl, ap, ◌∙◌, Option, none, some, List, [], ◌∷◌, ◌++◌, append_assoc}
use linux_id.Hid.Types.{Packet, UhidEvent, failed, output, other}
use linux_id.Hid.Reader.{drained, parse_report, add_packet, parse_packets}
use linux_id.Parallel.System.{Happening, heard, passed, wrote, hidden, after_report}
use linux_id.Parallel.Events.{held}

-- What the reader has heard, oldest first.
abbrev pub heard_in : List Happening → List UhidEvent
heard_in [] = []
heard_in (heard u ∷ hs) = heard_in hs ++ (u ∷ [])
heard_in (passed e p q ∷ hs) = heard_in hs
heard_in (wrote w r ok ∷ hs) = heard_in hs
heard_in (hidden ∷ hs) = heard_in hs

add_packet-append :
    (o : Option Packet) (ps qs : List Packet) → add_packet o (ps ++ qs) ≡ add_packet o ps ++ qs
add_packet-append none ps qs = refl
add_packet-append (some p) ps qs = refl

pub parse_packets-append :
    (us vs : List UhidEvent)
    → (parse_packets us).1 ≡ drained
    → (parse_packets (us ++ vs)).0 ≡ (parse_packets us).0 ++ (parse_packets vs).0
unfolding parse_packets
parse_packets-append [] vs e = refl
parse_packets-append (failed ∷ us) vs e = cc
parse_packets-append (other ∷ us) vs e = parse_packets-append us vs e
parse_packets-append (output b ∷ us) vs e =
    ap (add_packet (parse_report b)) (parse_packets-append us vs e)
    ∙ add_packet-append (parse_report b) (parse_packets us).0 (parse_packets vs).0

pub parse_packets-drained :
    (us vs : List UhidEvent)
    → (parse_packets us).1 ≡ drained
    → (parse_packets vs).1 ≡ drained
    → (parse_packets (us ++ vs)).1 ≡ drained
unfolding parse_packets
parse_packets-drained [] vs e f = f
parse_packets-drained (failed ∷ us) vs e f = cc
parse_packets-drained (other ∷ us) vs e f = parse_packets-drained us vs e f
parse_packets-drained (output b ∷ us) vs e f = parse_packets-drained us vs e f

-- One more event of the device.
pub heard_more :
    (hs : List Happening) (u : UhidEvent) (qs : List Packet)
    → (parse_packets (heard_in hs)).1 ≡ drained
    → (parse_packets (heard_in (heard u ∷ hs))).0 ++ qs
      ≡ (parse_packets (heard_in hs)).0 ++ ((parse_packets (u ∷ [])).0 ++ qs)
heard_more hs u qs e =
    ap (λ (ps : List Packet). ps ++ qs) (parse_packets-append (heard_in hs) (u ∷ []) e)
    ∙ append_assoc (parse_packets (heard_in hs)).0 (parse_packets (u ∷ [])).0 qs

pub held-after_report : (o : Option Packet) → add_packet o [] ≡ held (after_report o)
held-after_report none = refl
held-after_report (some p) = refl
