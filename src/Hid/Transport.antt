-- ===== src/Hid/Transport.antt =====
-- fidohid/fidohid.go: frames that `writeRespose` sends, read back by `parsePackets` and put together by `Run`.
pub mod Parse
pub use Parse.*
use linux_id.Common.{
  ap, sym, ℕ, zero, suc, ◌+◌, ◌*◌, ◌%◌, ◌^◌, ◌≤◌, ◌<◌, ◌≡◌, refl, ◌∙◌, Bool, true, false, List, [],
  ◌∷◌, ◌++◌, Bytes, length, length-append, length-take, length-drop, take, drop, take_all,
  take-append-drop, take-append_of_eq, append_assoc, append-nil, le→leb, lt→leb_false, lt→ltb,
  drop_all, ◌⊎◌, inl, inr, arith,
}
use linux_id.Hid.Types.{Packet, UhidEvent, output}
use linux_id.Hid.Reader.{parse_packets, drained}
use linux_id.Hid.Frames.{pad_to}
use linux_id.Hid.FrameList.{frames, cont_frames, cont_count}
use linux_id.Hid.ParseFrames.{
  padded, init_packet, next_packet, parse_report-init, parse_report-cont,
}
use linux_id.Hid.Write.{Input2Request}
use linux_id.Hid.Run.{
  Assembly, empty_assembly, absorb, is_complete, Token, Served, AuthEvent, serve, run_packet,
  run_packets, after_packet,
}

list_cases {ℓ} : {A : Type ℓ} (xs : List A) → (xs ≡ []) ⊎ ((x : A) × (ys : List A) × (xs ≡ x ∷ ys))
list_cases [] = inl refl
list_cases (x ∷ xs) = inr (x, xs, refl)

le_or_lt : (a b : ℕ) → (a ≤ b) ⊎ (b < a)
le_or_lt a b = grind arith

-- Frame data is cut to the size of what it holds.
padded_full : (len : ℕ) (b : Bytes) → len ≤ length b → padded len b ≡ b
padded_full len b h = ground (arith, append-nil b)

module _ {Dev : Type 0} (write_event : Dev → Input2Request → Dev × Bool) where
  -- One packet, by whether the message is whole behind it.
  run_packet_more :
      (t : Token Dev) (pkt : Packet) (a : Assembly)
      → absorb t.assembly pkt ≡ a
      → is_complete a ≡ false
      → run_packet write_event t pkt ≡ (record t { assembly = a }, Served.quiet)
  unfolding run_packet
  run_packet_more t pkt a e h = rw (e, h)

  run_packet_whole :
      (t : Token Dev) (pkt : Packet) (a : Assembly)
      → absorb t.assembly pkt ≡ a
      → is_complete a ≡ true
      → run_packet write_event t pkt
        ≡ serve write_event
            (record t { assembly = empty_assembly })
            a.req_chan_id
            a.cmd
            (take a.need_size a.inner_msg)
  unfolding run_packet
  run_packet_whole t pkt a e h = rw (e, h)

  -- The message is served, and the loop goes on with the packets behind it.
  abbrev then_packets : Token Dev × Served → List Packet → Token Dev × List AuthEvent
  then_packets r qs = after_packet write_event r (λ t'. run_packets write_event t' qs)

  abbrev pending : Bytes → ℕ → ℕ → ℕ → Assembly
  pending acc total chan_id cmd = record {
    inner_msg = acc;
    need_size = total;
    req_chan_id = chan_id;
    cmd = cmd;
  }

  -- The last packet completes the message, whatever fills it up.
  whole_message :
      (t : Token Dev) (pkt : Packet) (qs : List Packet) (old : Assembly) (body fill : Bytes)
      (chan_id cmd : ℕ)
      → absorb old pkt ≡ pending (body ++ fill) (length body) chan_id cmd
      → run_packets write_event (record t { assembly = old }) (pkt ∷ qs)
        ≡ then_packets
            (serve write_event (record t { assembly = empty_assembly }) chan_id cmd body)
            qs
  unfolding run_packets
  whole_message t pkt qs old body fill chan_id cmd e = rw (
    run_packet_whole (record t { assembly = old }) pkt
        (pending (body ++ fill) (length body) chan_id cmd) e
        (le→leb (length body) (length (body ++ fill)) (omega (arith, length-append body fill))),
    take-append_of_eq (length body) body fill refl,
  )

  -- A packet that continues the message adds its data.
  absorb-next :
      (acc : Bytes) (total chan_id cmd i : ℕ) (b : Bytes)
      → absorb (pending acc total chan_id cmd) (next_packet chan_id i b)
        ≡ pending (acc ++ padded 59 b) total chan_id cmd
  unfolding absorb
  absorb-next acc total chan_id cmd i b = refl

  -- A first packet starts the message anew, whatever was pending.
  absorb-init :
      (old : Assembly) (total chan_id cmd : ℕ) (b : Bytes)
      → absorb old (init_packet chan_id cmd total b) ≡ pending (padded 57 b) total chan_id cmd
  unfolding absorb
  absorb-init old total chan_id cmd b = elim (list_cases old.inner_msg) [
    | inl e ↦ rw e
    | inr (x, xs, e) ↦ rw (e, lt→ltb 0 (length (x ∷ xs)) (omega arith))
  ]

  run_packets_more :
      (t : Token Dev) (pkt : Packet) (ps : List Packet) (old a : Assembly)
      → absorb old pkt ≡ a
      → is_complete a ≡ false
      → run_packets write_event (record t { assembly = old }) (pkt ∷ ps)
        ≡ run_packets write_event (record t { assembly = a }) ps
  unfolding run_packets
  run_packets_more t pkt ps old a e h = rw (run_packet_more (record t { assembly = old }) pkt a e h)

  run_packets-cont :
      (n : ℕ) (t : Token Dev) (chan_id cmd total i : ℕ) (acc b : Bytes) (qs : List Packet)
      → n ≡ cont_count b
      → 0 < length b
      → total ≡ length acc + length b
      → run_packets write_event
          (record t { assembly = pending acc total chan_id cmd })
          (cont_packets n chan_id i b ++ qs)
        ≡ then_packets
            (serve write_event (record t { assembly = empty_assembly }) chan_id cmd (acc ++ b))
            qs
  run_packets-cont zero t chan_id cmd total i acc b qs hn hb ht = absurd (omega arith)
  run_packets-cont (suc zero) t chan_id cmd total i acc b qs hn hb ht =
      whole_message t (next_packet chan_id i (take 59 b)) qs (pending acc total chan_id cmd)
        (acc ++ b) (pad_to 59 b) chan_id cmd
        (absorb-next acc total chan_id cmd i (take 59 b)
          ∙ rw (take_all 59 b (omega arith), append_assoc, length-append acc b, ← ht))
  run_packets-cont (suc (suc n)) t chan_id cmd total i acc b qs hn hb ht =
      run_packets_more t (next_packet chan_id i (take 59 b)) _ (pending acc total chan_id cmd)
        (pending (acc ++ take 59 b) total chan_id cmd)
        (absorb-next acc total chan_id cmd i (take 59 b)
          ∙ rw (padded_full 59 (take 59 b) (omega (arith, length-take 59 b))))
        (lt→leb_false total (length (acc ++ take 59 b))
          (omega (arith, length-append acc (take 59 b), length-take 59 b)))
      ∙ run_packets-cont (suc n) t chan_id cmd total (i + 1) (acc ++ take 59 b) (drop 59 b) qs
          (omega (arith, length-drop 59 b)) (omega (arith, length-drop 59 b))
          (omega (arith, length-append acc (take 59 b), length-take 59 b, length-drop 59 b))
      ∙ rw (append_assoc, take-append-drop 59 b)

  run_packets-packets :
      (t : Token Dev) (chan_id cmd : ℕ) (body : Bytes) (qs : List Packet)
      → run_packets write_event t (packets chan_id cmd body ++ qs)
        ≡ then_packets
            (serve write_event (record t { assembly = empty_assembly }) chan_id cmd body)
            qs
  run_packets-packets t chan_id cmd body qs = elim (le_or_lt (length body) 57) [
    | inl h ↦ rw (drop_all 57 body h) (
        whole_message t (init_packet chan_id cmd (length body) (take 57 body)) qs t.assembly body
          (pad_to 57 body) chan_id cmd
          (absorb-init t.assembly (length body) chan_id cmd (take 57 body)
            ∙ rw (take_all 57 body h)))
    | inr h ↦
        run_packets_more t (init_packet chan_id cmd (length body) (take 57 body)) _ t.assembly
          (pending (take 57 body) (length body) chan_id cmd)
          (absorb-init t.assembly (length body) chan_id cmd (take 57 body)
            ∙ rw (padded_full 57 (take 57 body) (omega (arith, length-take 57 body))))
          (lt→leb_false (length body) (length (take 57 body)) (omega (arith, length-take 57 body)))
        ∙ run_packets-cont (cont_count (drop 57 body)) t chan_id cmd (length body) 0 (take 57 body)
            (drop 57 body) qs refl (omega (arith, length-drop 57 body))
            (omega (arith, length-take 57 body, length-drop 57 body))
        ∙ rw (take-append-drop 57 body)
  ]

  -- The same, with the packets of what follows.
  pub run_packets-append :
      (t : Token Dev) (id chan_id cmd : ℕ) (body : Bytes) (qs : List Packet)
      → chan_id < 2 ^ 32
      → cmd < 128
      → length body ≤ max_message
      → run_packets write_event t ((parse_packets (reports id (frames chan_id cmd body))).0 ++ qs)
        ≡ after_packet write_event
            (serve write_event (record t { assembly = empty_assembly }) chan_id cmd body)
            (λ t'. run_packets write_event t' qs)
  run_packets-append t id chan_id cmd body qs hc hm hb =
      rw (parse_packets-frames id chan_id cmd body hc hm hb)
        (run_packets-packets t chan_id cmd body qs)

  -- A message of at most 7609 bytes, written as frames on a channel of 32 bits with a command
  -- below 128, is parsed without loss and served exactly once, with the channel, the command and
  -- the bytes it was sent with, when its last frame arrives. This holds whatever message was
  -- pending before.
  pub run_packets-frames :
      (t : Token Dev) (id chan_id cmd : ℕ) (body : Bytes)
      → chan_id < 2 ^ 32
      → cmd < 128
      → length body ≤ max_message
      → run_packets write_event t (parse_packets (reports id (frames chan_id cmd body))).0
        ≡ after_packet write_event
            (serve write_event (record t { assembly = empty_assembly }) chan_id cmd body)
            (λ t'. (t', []))
  unfolding run_packets
  run_packets-frames t id chan_id cmd body hc hm hb =
      ap (run_packets write_event t)
        (sym (append-nil (parse_packets (reports id (frames chan_id cmd body))).0))
      ∙ run_packets-append t id chan_id cmd body [] hc hm hb
