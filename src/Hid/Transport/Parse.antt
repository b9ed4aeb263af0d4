-- ===== src/Hid/Transport/Parse.antt =====
-- fidohid/fidohid.go: the frames of a message, read back by `parsePackets`.
use linux_id.Common.{
  ℕ, zero, suc, ◌+◌, ◌*◌, ◌%◌, ◌^◌, ◌≤◌, ◌<◌, ◌≡◌, refl, List, [], ◌∷◌, Bytes, length, length-take,
  length-drop, take, drop, arith,
}
use linux_id.Hid.Types.{Packet, UhidEvent, output}
use linux_id.Hid.Reader.{parse_packets, drained}
use linux_id.Hid.FrameList.{frames, cont_frames, cont_count}
use linux_id.Hid.ParseFrames.{init_packet, next_packet, parse_report-init, parse_report-cont}

-- The events by which the frames arrive: each report has a report id in front.
abbrev pub reports : ℕ → List Bytes → List UhidEvent
reports id [] = []
reports id (f ∷ fs) = output (id ∷ f) ∷ reports id fs

abbrev pub cont_packets : ℕ → ℕ → ℕ → Bytes → List Packet
cont_packets zero chan_id i b = []
cont_packets (suc n) chan_id i b =
    next_packet chan_id i (take 59 b) ∷ cont_packets n chan_id (i + 1) (drop 59 b)

parse_packets-cont :
    (n id chan_id i : ℕ) (b : Bytes)
    → chan_id < 2 ^ 32
    → i + n ≤ 128
    → parse_packets (reports id (cont_frames n chan_id i b)) ≡ (cont_packets n chan_id i b, drained)
unfolding parse_packets
parse_packets-cont zero id chan_id i b hc hi = refl
parse_packets-cont (suc n) id chan_id i b hc hi =
    let seq : i % 256 ≡ i = omega arith in
    rw (
      seq,
      parse_report-cont id chan_id i (take 59 b) hc (omega arith) (omega (arith, length-take 59 b)),
      parse_packets-cont n id chan_id (i + 1) (drop 59 b) hc (omega arith),
    )

-- The largest message: a first frame and 128 that continue.
abbrev pub max_message : ℕ
max_message = 57 + 128 * 59

abbrev pub packets : ℕ → ℕ → Bytes → List Packet
packets chan_id cmd body =
    init_packet chan_id cmd (length body) (take 57 body)
    ∷ cont_packets (cont_count (drop 57 body)) chan_id 0 (drop 57 body)

pub parse_packets-frames :
    (id chan_id cmd : ℕ) (body : Bytes)
    → chan_id < 2 ^ 32
    → cmd < 128
    → length body ≤ max_message
    → parse_packets (reports id (frames chan_id cmd body)) ≡ (packets chan_id cmd body, drained)
unfolding parse_packets
parse_packets-frames id chan_id cmd body hc hm hb =
    let size : length body % 65536 ≡ length body = omega arith in
    rw (
      size,
      parse_report-init id chan_id cmd (length body) (take 57 body) hc hm (omega arith)
          (omega (arith, length-take 57 body)),
      parse_packets-cont (cont_count (drop 57 body)) id chan_id 0 (drop 57 body) hc
          (omega (arith, length-drop 57 body)),
    )

pub parse_packets-drained :
    (id chan_id cmd : ℕ) (body : Bytes)
    → chan_id < 2 ^ 32
    → cmd < 128
    → length body ≤ max_message
    → (parse_packets (reports id (frames chan_id cmd body))).1 ≡ drained
parse_packets-drained id chan_id cmd body hc hm hb =
    rw (parse_packets-frames id chan_id cmd body hc hm hb) refl
