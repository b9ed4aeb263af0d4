-- ===== src/Parallel/Answers.antt =====
-- fidohid/fidohid.go and main.go: the messages of a host through the whole program.
use linux_id.Common.{
  ℕ, ◌≡◌, refl, sym, ap, ◌∙◌, ◌⊎◌, inl, inr, Bool, true, some, List, [], ◌∷◌, ◌++◌, append-nil,
  length, length-append, map, arith,
}
use mathlib.Core.Path.{subst}
use mathlib.Core.WellFounded.{Acc}
use linux_id.Hid.Types.{Packet}
use linux_id.Hid.Reader.{parse_packets}
use linux_id.Hid.Write.{Input2Request}
use linux_id.Hid.Run.{AuthEvent, Token, exhausted, run_packets}
use linux_id.Verifier.{Prompt}
use linux_id.Server.Types.{Signer, Services, Server}
use linux_id.Server.U2f.{Presence}
use linux_id.Server.Run.{run_event}
use linux_id.Parallel.Recorder.{record_write}
use linux_id.Parallel.Same.{bare}
use linux_id.Parallel.System.{
  reading, taking, answering, offering, ServerPhase, waiting, System, start_of, Happening, goes_on,
  Reached,
}
use linux_id.Parallel.Events.{events, under_way, under_way-eq}
use linux_id.Parallel.Heard.{heard_in}
use linux_id.Parallel.Order.{passed_in, Reached-in_sequence}
use linux_id.Parallel.Written.{all_accepted, server_wrote, to_reply, rounds_in}
use linux_id.Parallel.Rounds.{Reached-rounds_in}
use linux_id.Parallel.Rest.{Next}
use linux_id.Parallel.Progress.{
  Standing, goes_further, at_rest, out_of_channels, ends, Reached-settles,
}
use linux_id.Parallel.Commands.{
  ctap2_command, Command, AllSendable, sent_one, sent, event_of, sent-events, sent_one-events,
}
use linux_id.Parallel.Responses.{
  Serves, AllCommands, map-AllCommands, append-AllCommands, AllAnswered, command-goes_on,
  rounds_in-AllAnswered,
}

abbrev one_more : Command
one_more = ctap2_command 0 []

module _ {S Dev : Type 0} (signer : Signer S) (lib : Services)
    (write_event : Dev → Input2Request → Dev × Bool) (t₀ : Token Dev) (serves : Serves signer lib)
    (id : ℕ) (cs : List Command) (sendable : AllSendable cs) (s₀ : Server S) where
  -- The packets of one more command, which may be sent at any time.
  abbrev further : List Packet
  further = (parse_packets (sent_one id one_more)).0 ++ []

  further-events : (u : Token (List Input2Request)) → events u further ≡ event_of one_more ∷ []
  unfolding run_packets
  further-events u = sent_one-events record_write u id one_more [] (omega arith, omega arith, tt)

  -- The events of the commands in the run of the transport on its own.
  sent-sequence :
      (hs : List Happening) (qs : List Packet)
      → heard_in hs ≡ sent id cs
      → (u : Token (List Input2Request)) × (events (bare t₀) ((parse_packets (heard_in hs)).0 ++ qs)
          ≡ map event_of cs ++ events u qs)
  sent-sequence hs qs e =
      let (u, f) = sent-events record_write id cs (bare t₀) qs sendable in (u, rw e f)

  in_order :
      (hs : List Happening) (s : System S Dev)
      → Reached signer lib write_event (start_of t₀ s₀) hs s
      → heard_in hs ≡ sent id cs
      → passed_in hs ++ under_way s.reader s.transport_phase s.transport [] ≡ map event_of cs
  unfolding run_packets
  in_order hs s h e =
      sym (Reached-in_sequence signer lib write_event t₀ s₀ [] h)
      ∙ (sent-sequence hs [] e).1
      ∙ append-nil (map event_of cs)

  all-AllCommands :
      (hs : List Happening) (s : System S Dev)
      → Reached signer lib write_event (start_of t₀ s₀) hs s
      → heard_in hs ≡ sent id cs
      → AllCommands (passed_in hs)
        × AllCommands (under_way s.reader s.transport_phase s.transport [])
  all-AllCommands hs s h e =
      append-AllCommands (passed_in hs) _
        (subst AllCommands (sym (in_order hs s h e)) (map-AllCommands cs sendable))

  -- The transport does not stop behind a command, since it would still take one more.
  not-exhausted :
      (hs : List Happening) (s : System S Dev)
      → Reached signer lib write_event (start_of t₀ s₀) hs s
      → heard_in hs ≡ sent id cs
      → ¬ (s.transport_phase ≡ answering [] exhausted)
  unfolding run_packets
  not-exhausted hs s h e k =
      let (u, f) = sent-sequence hs further e in
      let stopped : (qs : List Packet) → under_way s.reader s.transport_phase s.transport qs ≡ [] =
        λ qs.
          under_way-eq s.reader s.reader s.transport_phase (answering [] exhausted) s.transport qs
            refl k in
      let all : passed_in hs ++ [] ≡ map event_of cs =
        ap (λ (es : List AuthEvent). passed_in hs ++ es) (sym (stopped [])) ∙ in_order hs s h e in
      let more : map event_of cs ++ (event_of one_more ∷ []) ≡ passed_in hs ++ [] =
        ap (λ (es : List AuthEvent). map event_of cs ++ es) (sym (further-events u))
        ∙ sym f
        ∙ Reached-in_sequence signer lib write_event t₀ s₀ further h
        ∙ ap (λ (es : List AuthEvent). passed_in hs ++ es) (stopped further) in
      omega
        (arith, ap length (more ∙ all), length-append (map event_of cs) (event_of one_more ∷ []))

  -- At rest, the server has taken the event of every message.
  all_passed :
      (hs : List Happening) (s : System S Dev)
      → Reached signer lib write_event (start_of t₀ s₀) hs s
      → heard_in hs ≡ sent id cs
      → s.reader ≡ reading
      → s.transport_phase ≡ taking
      → passed_in hs ≡ map event_of cs
  unfolding run_packets
  all_passed hs s h e r k =
      sym (append-nil (passed_in hs))
      ∙ ap (λ (es : List AuthEvent). passed_in hs ++ es)
          (sym (under_way-eq s.reader reading s.transport_phase taking s.transport [] r k))
      ∙ in_order hs s h e

  all_answered :
      (hs : List Happening) (s : System S Dev)
      → Reached signer lib write_event (start_of t₀ s₀) hs s
      → heard_in hs ≡ sent id cs
      → all_accepted hs ≡ true
      → s.server_phase ≡ waiting
      → AllAnswered (passed_in hs) (server_wrote hs)
  all_answered hs s h e a m =
      let (t, d, done, answered) =
        rounds_in-AllAnswered signer lib serves s₀ hs (all-AllCommands hs s h e).0 in
      let wrote : rounds_in signer lib s₀ hs
          ≡ some (s.server, server_wrote hs ++ to_reply s.server_phase) =
        (Reached-rounds_in signer lib write_event t₀ s₀ hs s h a).1 in
      let one : d ≡ server_wrote hs ++ to_reply s.server_phase = cc in
      subst (AllAnswered (passed_in hs))
        (one
          ∙ ap (λ (p : ServerPhase). server_wrote hs ++ to_reply p) m
          ∙ append-nil (server_wrote hs))
        answered

  -- The server does not end with a command.
  not-ends :
      (hs : List Happening) (s : System S Dev) (evt : AuthEvent) (p : Prompt) (q : Presence)
      → Reached signer lib write_event (start_of t₀ s₀) hs s
      → heard_in hs ≡ sent id cs
      → s.transport_phase ≡ offering evt
      → goes_on (run_event signer lib s.server evt p q).1 ≡ true
  not-ends hs s evt p q h e k =
      command-goes_on signer lib serves s.server evt p q
        (subst AllCommands
          (under_way-eq s.reader s.reader s.transport_phase (offering evt) s.transport [] refl k)
          (all-AllCommands hs s h e).1).0

  -- All three goroutines wait, and the server has written one response to every message.
  abbrev pub AllDone : List Happening → System S Dev → Type 0
  AllDone hs s =
      (s.reader ≡ reading)
      × (s.transport_phase ≡ taking)
      × (s.server_phase ≡ waiting)
      × AllAnswered (map event_of cs) (server_wrote hs)

  Standing-AllDone :
      (hs : List Happening) (s : System S Dev) (p : Prompt) (q : Presence)
      → Reached signer lib write_event (start_of t₀ s₀) hs s
      → heard_in hs ≡ sent id cs
      → all_accepted hs ≡ true
      → Standing signer lib write_event t₀ hs s p q
      → ((t : System S Dev) × Next signer lib write_event t s) ⊎ AllDone hs s
  Standing-AllDone hs s p q h e a (goes_further t n) = inl (t, n)
  Standing-AllDone hs s p q h e a (at_rest r k m same) = inr (
    r,
    k,
    m,
    subst (λ (es : List AuthEvent). AllAnswered es (server_wrote hs)) (all_passed hs s h e r k)
        (all_answered hs s h e a m),
  )
  Standing-AllDone hs s p q h e a (out_of_channels k) = absurd (not-exhausted hs s h e k)
  Standing-AllDone hs s p q h e a (ends evt k m g) =
      let on : goes_on (run_event signer lib s.server evt p q).1 ≡ true =
        not-ends hs s evt p q h e k in
      cc

  -- Suppose that the signer keeps its laws and makes a key on the curve with a handle of at most 255
  -- bytes for every application of 32 bytes, that hashes have 32 bytes and that the attestation key
  -- signs, as with the memory signer while randomness does not fail. The
  -- host has sent messages and nothing else, each of at most 7609 bytes on a channel of 32 bits: CTAP2
  -- messages, or U2F messages that decode. Then, whatever the token had pending and in whatever order
  -- the three goroutines run, and as long as the device takes every report: the program takes only
  -- finitely many steps without a further event of the device; when it can take no step, all three
  -- goroutines wait, and the server has written exactly one response to each message, in the order of
  -- the messages, each on the channel of its message and as whole frames, with a status byte in front
  -- for CTAP2 and a status word behind for U2F.
  pub Reached-AllDone :
      (hs : List Happening) (s : System S Dev) (p : Prompt) (q : Presence)
      → Reached signer lib write_event (start_of t₀ s₀) hs s
      → heard_in hs ≡ sent id cs
      → all_accepted hs ≡ true
      → Acc (Next signer lib write_event) s
        × (((t : System S Dev) × Next signer lib write_event t s) ⊎ AllDone hs s)
  Reached-AllDone hs s p q h e a =
      let (rests, standing) = Reached-settles signer lib write_event t₀ s₀ hs s p q h in
      (rests, Standing-AllDone hs s p q h e a standing)
