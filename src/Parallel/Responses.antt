-- ===== src/Parallel/Responses.antt =====
-- main.go: the rounds of the server for the messages of a host, on a recorder.
use linux_id.Common.{ok, be16, length, length-append, ◌⊎◌, inl, inr, none, ◌<◌, lt→ltb}
use mathlib.Core.Path.{subst}
use linux_id.Hid.Types.{cmd_msg}
use linux_id.Hid.Write.{write_respose, write_response}
use linux_id.Hid.FrameList.{with_status}
use linux_id.Hid.Run.{msg_event}
use linux_id.U2f.Decode.{AuthenticatorRequest, decode_authenticator_request}
use linux_id.Server.Types.{Ending, RegisteredKey}
use linux_id.Server.Exchange.{ctap2_event}
use linux_id.Server.SignerLaws.{SignerLaws, Hashes}
use linux_id.Server.U2fReplies.{Registers, run_event-AnswersU2f}
use linux_id.Parallel.Commands.{ctap2_command, u2f_command, IsSendable, AllSendable}
use linux_id.Common.{
  ℕ, ◌≡◌, refl, sym, ap, ◌∙◌, true, Option, some, List, [], ◌∷◌, ◌++◌, append_assoc, append-nil,
  Bytes, map, arith,
}
use linux_id.Hid.Types.{cmd_cbor}
use linux_id.Hid.Write.{Input2Request, request_of}
use linux_id.Hid.FrameList.{frames}
use linux_id.Hid.Run.{AuthEvent}
use linux_id.Hid.Write.{Written, write_ctap2_response}
use linux_id.Hid.FrameList.{write_respose-frames}
use linux_id.Verifier.{Prompt}
use linux_id.Server.Types.{Signer, Services, Server}
use linux_id.Server.U2f.{Presence}
use linux_id.Server.Run.{run_event, run_round}
use linux_id.Server.Replies.{Fits, handle_ctap2-AnswersCtap2}
use linux_id.Parallel.Recorder.{record_write, write_all-record_write}
use linux_id.Parallel.System.{Happening, heard, passed, wrote, hidden, goes_on, reply_reports}
use linux_id.Parallel.Order.{passed_in}
use linux_id.Parallel.Written.{then_round, rounds_in, run_round-record_write}
use linux_id.Parallel.Commands.{Command, event_of}

-- An event of a message that can be sent, and that all are such.
abbrev pub IsCommand : AuthEvent → Type 0
IsCommand e =
    ((chan_id : ℕ) × (msg : Bytes) × (e ≡ ctap2_event chan_id msg))
    ⊎ ((chan_id : ℕ) × (raw : Bytes) × (req : AuthenticatorRequest) × (decode_authenticator_request
            raw
          ≡ ok req)
        × (e ≡ msg_event chan_id (ok req)))

event_of-IsCommand : (c : Command) → IsSendable c → IsCommand (event_of c)
event_of-IsCommand (ctap2_command chan_id msg) h = inl (chan_id, msg, refl)
event_of-IsCommand (u2f_command chan_id msg) (hc, hm, (req, e)) =
    inr (chan_id, msg, req, e, ap (msg_event chan_id) e)

abbrev pub AllCommands : List AuthEvent → Type 0
AllCommands [] = Unit {0}
AllCommands (e ∷ es) = IsCommand e × AllCommands es

pub map-AllCommands : (cs : List Command) → AllSendable cs → AllCommands (map event_of cs)
map-AllCommands [] a = tt
map-AllCommands (c ∷ cs) (h, a) = (event_of-IsCommand c h, map-AllCommands cs a)

pub append-AllCommands :
    (es fs : List AuthEvent) → AllCommands (es ++ fs) → AllCommands es × AllCommands fs
append-AllCommands [] fs a = (tt, a)
append-AllCommands (e ∷ es) fs (i, a) = let (b, d) = append-AllCommands es fs a in ((i, b), d)

-- The body of a response: with a status byte in front for a CTAP2 message, with a status word behind
-- for a U2F message.
abbrev pub ReplyBody : Option Bytes → Bytes → Type 0
ReplyBody (some msg) body = (status : ℕ) × (payload : Bytes) × (body ≡ status ∷ payload)
ReplyBody none body =
    (payload : Bytes) × (status : ℕ) × (0 < status) × (body ≡ payload ++ be16 status)

-- The reports of one response to an event, on its channel and with its command; and one response to
-- each event, in order.
abbrev pub OneAnswer : AuthEvent → List Input2Request → Type 0
OneAnswer e rs =
    (body : Bytes) × ReplyBody e.raw_cbor body × (rs ≡ map request_of (frames e.chan_id e.cmd body))

abbrev pub AllAnswered : List AuthEvent → List Input2Request → Type 0
AllAnswered [] rs = rs ≡ []
AllAnswered (e ∷ es) rs =
    (first : List Input2Request) × (others : List Input2Request) × OneAnswer e first
    × AllAnswered es others
    × (rs ≡ first ++ others)

snoc-AllAnswered :
    (es : List AuthEvent) (e : AuthEvent) (rs xs : List Input2Request)
    → AllAnswered es rs
    → OneAnswer e xs
    → AllAnswered (es ++ (e ∷ [])) (rs ++ xs)
snoc-AllAnswered [] e rs xs a o =
    (xs, [], o, refl, ap (λ (ys : List Input2Request). ys ++ xs) a ∙ sym (append-nil xs))
snoc-AllAnswered (f ∷ es) e rs xs (first, others, i, a, same) o = (
  first,
  others ++ xs,
  i,
  snoc-AllAnswered es e others xs a o,
  ap (λ (ys : List Input2Request). ys ++ xs) same ∙ append_assoc first others xs,
)

-- What the handlers rely on.
pub record Serves {S : Type 0} (signer : Signer S) (lib : Services) : Type 0 where
  pub laws : SignerLaws signer
  pub sums : Hashes lib
  pub able : Registers signer lib

with_status-some :
    (payload : Bytes) (status : ℕ)
    → 0 < status
    → with_status payload status ≡ payload ++ be16 status
with_status-some payload status h = rw (lt→ltb 0 status h) refl

module _ {S : Type 0} (signer : Signer S) (lib : Services) (serves : Serves signer lib) where
  key-Fits :
      (k : S) (a : Bytes) (o : Option RegisteredKey)
      → (signer.register_key k a).1 ≡ o
      → Fits signer lib o
  key-Fits k a none e = tt
  key-Fits k a (some key) e = let (good, x, y) = serves.laws.register_good k a key e in (x, y)

  -- The reports of a reply.
  reply-reports :
      (chan_id cmd status : ℕ) (payload : Bytes)
      → 0 < length (with_status payload status)
      → (write_respose record_write [] chan_id cmd payload status).0
        ≡ map request_of (frames chan_id cmd (with_status payload status))
  reply-reports chan_id cmd status payload h =
      ap (λ (r : List Input2Request × Written). r.0)
        (write_respose-frames record_write [] chan_id cmd payload status h)
      ∙ write_all-record_write [] _

  -- The handler of an event of a message goes on, and its reply is one response.
  abbrev IsServed : AuthEvent → Ending → Type 0
  IsServed e end = (goes_on end ≡ true) × OneAnswer e (reply_reports signer lib e end)

  ctap2-IsServed :
      (s : Server S) (chan_id : ℕ) (msg : Bytes) (p : Prompt) (q : Presence)
      → IsServed (ctap2_event chan_id msg) (run_event signer lib s (ctap2_event chan_id msg) p q).1
  unfolding run_event write_ctap2_response
  ctap2-IsServed s chan_id msg p q =
      let (status, payload, replies) =
        handle_ctap2-AnswersCtap2 signer lib s p msg (λ k a. key-Fits k a _ refl) in
      rw replies (
        refl,
        (
          status ∷ payload,
          (status, payload, refl),
          reply-reports chan_id cmd_cbor 0 (status ∷ payload) (omega arith),
        ),
      )

  u2f-IsServed :
      (s : Server S) (chan_id : ℕ) (raw : Bytes) (req : AuthenticatorRequest) (p : Prompt)
      (q : Presence)
      → decode_authenticator_request raw ≡ ok req
      → IsServed
          (msg_event chan_id (ok req))
          (run_event signer lib s (msg_event chan_id (ok req)) p q).1
  unfolding write_response msg_event
  u2f-IsServed s chan_id raw req p q e =
      let (payload, status, replies, positive) =
        run_event-AnswersU2f signer lib serves.laws serves.sums serves.able s chan_id raw req p q
          e in
      let body : with_status payload status ≡ payload ++ be16 status =
        with_status-some payload status positive in
      rw replies (
        refl,
        (
          with_status payload status,
          (payload, status, positive, body),
          reply-reports chan_id cmd_msg status payload
              (rw body (omega (arith, length-append payload (be16 status)))),
        ),
      )

  command-IsServed :
      (s : Server S) (e : AuthEvent) (p : Prompt) (q : Presence)
      → IsCommand e
      → IsServed e (run_event signer lib s e p q).1
  command-IsServed s e p q (inl (chan_id, msg, same)) =
      subst (λ (e : AuthEvent). IsServed e (run_event signer lib s e p q).1) (sym same)
        (ctap2-IsServed s chan_id msg p q)
  command-IsServed s e p q (inr (chan_id, raw, req, d, same)) =
      subst (λ (e : AuthEvent). IsServed e (run_event signer lib s e p q).1) (sym same)
        (u2f-IsServed s chan_id raw req p q d)

  pub command-goes_on :
      (s : Server S) (e : AuthEvent) (p : Prompt) (q : Presence)
      → IsCommand e
      → goes_on (run_event signer lib s e p q).1 ≡ true
  command-goes_on s e p q i = (command-IsServed s e p q i).0

  -- Rounds for commands write one response to each, in order.
  pub rounds_in-AllAnswered :
      (s₀ : Server S) (hs : List Happening)
      → AllCommands (passed_in hs)
      → (s : Server S) × (d : List Input2Request) × (rounds_in signer lib s₀ hs ≡ some (s, d))
        × AllAnswered (passed_in hs) d
  rounds_in-AllAnswered s₀ [] a = (s₀, [], refl, refl)
  rounds_in-AllAnswered s₀ (heard u ∷ hs) a = rounds_in-AllAnswered s₀ hs a
  rounds_in-AllAnswered s₀ (wrote w r taken ∷ hs) a = rounds_in-AllAnswered s₀ hs a
  rounds_in-AllAnswered s₀ (hidden ∷ hs) a = rounds_in-AllAnswered s₀ hs a
  rounds_in-AllAnswered s₀ (passed e p q ∷ hs) a =
      let (b, (i, none_left)) = append-AllCommands (passed_in hs) (e ∷ []) a in
      let (s, d, done, answered) = rounds_in-AllAnswered s₀ hs b in
      (
        _,
        _,
        ap
              (λ (o : Option (Server S × List Input2Request)).
                then_round o (λ s d. run_round signer lib record_write s d e p q))
              done
            ∙ run_round-record_write signer lib s d e p q (command-goes_on s e p q i),
        snoc-AllAnswered (passed_in hs) e d _ answered ((command-IsServed s e p q i).1),
      )
