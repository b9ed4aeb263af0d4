-- ===== src/Parallel/Progress.antt =====
-- fidohid/fidohid.go and main.go: that the three goroutines neither block each other nor go on without
-- end when the device is quiet.
use linux_id.Common.{
  ◌≡◌, refl, sym, ap, ◌∙◌, inl, inr, Bool, false, Bool-cases, List, [], ◌∷◌, ◌++◌, append-nil,
}
use mathlib.Core.WellFounded.{Acc}
use linux_id.Hid.Reader.{parse_packets}
use linux_id.Hid.Write.{Input2Request}
use linux_id.Hid.Run.{AuthEvent, quiet, event, exhausted, Token, run_packets}
use linux_id.Verifier.{Prompt}
use linux_id.Server.Types.{Signer, Services, Server}
use linux_id.Server.U2f.{Presence}
use linux_id.Server.Run.{run_event}
use linux_id.Parallel.System.{
  ReaderPhase, reading, holding, TransportPhase, taking, answering, offering, ServerPhase, waiting,
  replying, System, start_of, Happening, passed, hidden, goes_on, takes, answers, has_answered,
  handles, replies, has_replied, Reached,
}
use linux_id.Parallel.Events.{under_way-eq}
use linux_id.Parallel.Heard.{heard_in}
use linux_id.Parallel.Order.{passed_in, Reached-run_packets}
use linux_id.Parallel.Rest.{Next, Next-Acc}

module _ {S Dev : Type 0} (signer : Signer S) (lib : Services)
    (write_event : Dev → Input2Request → Dev × Bool) (t₀ : Token Dev) where
  -- How the system stands, if `p` and `q` are what the surroundings do next.
  pub data Standing (hs : List Happening) (s : System S Dev) (p : Prompt) (q : Presence)
      : Type 0 where
    goes_further : (t : System S Dev) → Next signer lib write_event t s → Standing hs s p q
    at_rest :
        s.reader ≡ reading
        → s.transport_phase ≡ taking
        → s.server_phase ≡ waiting
        → passed_in hs ≡ (run_packets write_event t₀ (parse_packets (heard_in hs)).0).1
        → Standing hs s p q
    out_of_channels : s.transport_phase ≡ answering [] exhausted → Standing hs s p q
    ends :
        (evt : AuthEvent)
        → s.transport_phase ≡ offering evt
        → s.server_phase ≡ waiting
        → goes_on (run_event signer lib s.server evt p q).1 ≡ false
        → Standing hs s p q

  offering-Standing :
      (hs : List Happening) (s : System S Dev) (p : Prompt) (q : Presence) (evt : AuthEvent)
      → s.transport_phase ≡ offering evt
      → s.server_phase ≡ waiting
      → Standing hs s p q
  offering-Standing hs s p q evt k m =
      elim (Bool-cases (goes_on (run_event signer lib s.server evt p q).1)) [
        | inl g ↦ goes_further _ (passed evt p q, refl, handles evt p q k m g)
        | inr g ↦ ends evt k m g
      ]

  all_taken :
      (s₀ : Server S) (hs : List Happening) (s : System S Dev)
      → Reached signer lib write_event (start_of t₀ s₀) hs s
      → s.reader ≡ reading
      → s.transport_phase ≡ taking
      → passed_in hs ≡ (run_packets write_event t₀ (parse_packets (heard_in hs)).0).1
  unfolding run_packets
  all_taken s₀ hs s h r k = sym (
      (Reached-run_packets signer lib write_event t₀ s₀ hs s h).0
      ∙ ap (λ (es : List AuthEvent). passed_in hs ++ es)
          (under_way-eq s.reader reading s.transport_phase taking s.transport [] r k)
      ∙ append-nil (passed_in hs))

  waiting-Standing :
      (s₀ : Server S) (hs : List Happening) (s : System S Dev) (p : Prompt) (q : Presence)
      (rp : ReaderPhase) (tp : TransportPhase)
      → Reached signer lib write_event (start_of t₀ s₀) hs s
      → s.reader ≡ rp
      → s.transport_phase ≡ tp
      → s.server_phase ≡ waiting
      → Standing hs s p q
  waiting-Standing s₀ hs s p q reading taking h r k m = at_rest r k m (all_taken s₀ hs s h r k)
  waiting-Standing s₀ hs s p q (holding pkt) taking h r k m =
      goes_further _ (hidden, refl, takes pkt r k)
  waiting-Standing s₀ hs s p q rp (offering evt) h r k m = offering-Standing hs s p q evt k m
  waiting-Standing s₀ hs s p q rp (answering (x ∷ rs) served) h r k m =
      goes_further _ (_, refl, answers x rs served k)
  waiting-Standing s₀ hs s p q rp (answering [] quiet) h r k m =
      goes_further _ (hidden, refl, has_answered quiet taking k refl)
  waiting-Standing s₀ hs s p q rp (answering [] (event evt)) h r k m =
      goes_further _ (hidden, refl, has_answered (event evt) (offering evt) k refl)
  waiting-Standing s₀ hs s p q rp (answering [] exhausted) h r k m = out_of_channels k

  server-Standing :
      (s₀ : Server S) (hs : List Happening) (s : System S Dev) (p : Prompt) (q : Presence)
      (sp : ServerPhase)
      → Reached signer lib write_event (start_of t₀ s₀) hs s
      → s.server_phase ≡ sp
      → Standing hs s p q
  server-Standing s₀ hs s p q waiting h m =
      waiting-Standing s₀ hs s p q s.reader s.transport_phase h refl refl m
  server-Standing s₀ hs s p q (replying []) h m = goes_further _ (hidden, refl, has_replied m)
  server-Standing s₀ hs s p q (replying (r ∷ rs)) h m = goes_further _ (_, refl, replies r rs m)

  -- From any state that is reached, the goroutines take only finitely many steps until the device has
  -- a further event, in every order, whatever the device accepts and whatever the user answers; and no
  -- goroutine blocks another for ever: one of them can take a step, or all three wait and the server
  -- has taken every event of the packets that were heard, or the program has run out of channel ids,
  -- or it ends with the event that the server is about to take.
  pub Reached-settles :
      (s₀ : Server S) (hs : List Happening) (s : System S Dev) (p : Prompt) (q : Presence)
      → Reached signer lib write_event (start_of t₀ s₀) hs s
      → Acc (Next signer lib write_event) s × Standing hs s p q
  Reached-settles s₀ hs s p q h =
      (Next-Acc signer lib write_event s, server-Standing s₀ hs s p q s.server_phase h refl)
