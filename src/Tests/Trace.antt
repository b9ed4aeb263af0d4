-- ===== src/Tests/Trace.antt =====
-- Two runs of the three goroutines: while the server answers a CTAP2 command, the transport takes the
-- next message and answers it in between; and the command alone.
use linux_id.Common.{◌≡◌, refl, true, List, [], ◌∷◌, replicate, ℕ, ap, ◌∙◌}
use linux_id.Hid.Types.{output}
use linux_id.Hid.Reader.{parse_report}
use linux_id.Hid.Write.{Input2Request, request_of, write_respose, write_ctap2_response, write_loop}
use linux_id.Hid.Frames.{frame_init_marshal}
use linux_id.Hid.Run.{Token, Served, quiet, event}
use linux_id.Server.Types.{Server, Ending}
use linux_id.Server.Run.{run_event}
use linux_id.Server.U2f.{result}
use linux_id.Server.Dispatch.{handle_ctap2, handle_get_info}
use linux_id.Parallel.Same.{bare}
use linux_id.Parallel.Heard.{heard_in}
use linux_id.Parallel.Responses.{Serves}
use linux_id.Tests.Data.{laws, sums}
use linux_id.Parallel.Commands.{ctap2_command, Command, AllSendable, sent}
use linux_id.Parallel.System.{waiting}
use linux_id.Common.{arith}
use linux_id.Parallel.System.{has_replied}
use linux_id.Parallel.System.{
  taking, answering, offering, replying, start_of, Happening, heard, passed, wrote, hidden, Step,
  hears, takes, answers, has_answered, handles, replies, by_transport, by_server, goes_on,
  reply_reports, Reached, started, stepped, after_report,
}
use linux_id.Tests.Data.{tape, token, signer, services, server, confirmed}
use linux_id.Tests.Messages.{
  get_info, initialize, get_info_packet, initialize_packet, get_info_parsed, initialize_parsed,
  get_info_event, taken, get_info_taken, sequel, System₀, init_reply, initialize_taken,
}

abbrev s₀ : System₀
s₀ = start_of token server

abbrev s₁ : System₀
s₁ = record s₀ { reader = after_report (parse_report get_info) }

abbrev s₂ : System₀
s₂ = sequel s₁ get_info_packet

abbrev s₃ : System₀
s₃ = record s₂ { transport_phase = offering get_info_event }

abbrev info : Server ℕ × Ending
info = run_event signer services server get_info_event confirmed (result true)

abbrev s₄ : System₀
s₄ = record s₃ {
  transport_phase = taking;
  server = info.0;
  server_phase = replying (reply_reports signer services get_info_event info.1);
}

abbrev s₅ : System₀
s₅ = record s₄ { reader = after_report (parse_report initialize) }

abbrev s₆ : System₀
s₆ = sequel s₅ initialize_packet

abbrev s₇ : System₀
s₇ = record s₆ { device = (tape s₆.device init_reply).0; transport_phase = answering [] quiet }

abbrev info_reply : Input2Request
info_reply = request_of (0 ∷ 0 ∷ 0 ∷ 5 ∷ 0x90 ∷ 0 ∷ 2 ∷ 0 ∷ 1 ∷ replicate 55 0)

abbrev pub s₈ : System₀
s₈ = record s₇ { device = (tape s₇.device info_reply).0; server_phase = replying [] }

abbrev IsStep : System₀ → Happening → System₀ → Type 0
IsStep s h t = Step signer services tape s h t

info_answers : goes_on info.1 ≡ true
unfolding run_event handle_ctap2 handle_get_info
info_answers = refl

info_reports : reply_reports signer services get_info_event info.1 ≡ info_reply ∷ []
unfolding run_event handle_ctap2 handle_get_info write_ctap2_response write_respose write_loop
    frame_init_marshal
info_reports = refl

hears_get_info : IsStep s₀ (heard (output get_info)) s₁
hears_get_info = hears get_info refl

takes_get_info : IsStep s₁ hidden s₂
takes_get_info = takes get_info_packet (ap after_report get_info_parsed) refl

offers_get_info : IsStep s₂ hidden s₃
offers_get_info =
    has_answered (event get_info_event) (offering get_info_event)
      (ap (λ (r : Token (List Input2Request) × Served). answering r.0.device r.1) get_info_taken)
      refl

handles_get_info : IsStep s₃ (passed get_info_event confirmed (result true)) s₄
handles_get_info = handles get_info_event confirmed (result true) refl refl info_answers

hears_initialize : IsStep s₄ (heard (output initialize)) s₅
hears_initialize = hears initialize refl

same_token : s₅.transport ≡ bare token
same_token = ap (λ (r : Token (List Input2Request) × Served). r.0) get_info_taken

takes_initialize : IsStep s₅ hidden s₆
takes_initialize = takes initialize_packet (ap after_report initialize_parsed) refl

initialize_phase : s₆.transport_phase ≡ answering (init_reply ∷ []) quiet
initialize_phase =
    ap
      (λ (t : Token (List Input2Request)).
        answering (taken initialize_packet t).0.device (taken initialize_packet t).1)
      same_token
    ∙ ap (λ (r : Token (List Input2Request) × Served). answering r.0.device r.1) initialize_taken

answers_initialize : IsStep s₆ (wrote by_transport init_reply true) s₇
answers_initialize = answers init_reply [] quiet initialize_phase

replies_info : IsStep s₇ (wrote by_server info_reply true) s₈
replies_info = replies info_reply [] (ap replying info_reports)

-- The answer to the initialization gets in front of the reply to GetInfo.
abbrev pub history : List Happening
history =
    wrote by_server info_reply true
    ∷ wrote by_transport init_reply true
    ∷ hidden
    ∷ heard (output initialize)
    ∷ passed get_info_event confirmed (result true)
    ∷ hidden
    ∷ hidden
    ∷ heard (output get_info)
    ∷ []

pub scheduled : Reached signer services tape s₀ history s₈
scheduled =
    stepped _ s₇ _ _
      (stepped _ s₆ _ _
        (stepped _ s₅ _ _
          (stepped _ s₄ _ _
            (stepped _ s₃ _ _
              (stepped _ s₂ _ _
                (stepped _ s₁ _ _ (stepped [] s₀ _ _ started hears_get_info) takes_get_info)
                offers_get_info)
              handles_get_info)
            hears_initialize)
          takes_initialize)
        answers_initialize)
      replies_info

-- The same command alone, up to its answer.
abbrev s₅' : System₀
s₅' = record s₄ { device = (tape s₄.device info_reply).0; server_phase = replying [] }

abbrev pub s₆' : System₀
s₆' = record s₅' { server_phase = waiting }

abbrev pub history' : List Happening
history' =
    hidden
    ∷ wrote by_server info_reply true
    ∷ passed get_info_event confirmed (result true)
    ∷ hidden
    ∷ hidden
    ∷ heard (output get_info)
    ∷ []

pub scheduled' : Reached signer services tape s₀ history' s₆'
scheduled' =
    stepped _ s₅' _ _
      (stepped _ s₄ _ _
        (stepped _ s₃ _ _
          (stepped _ s₂ _ _
            (stepped _ s₁ _ _ (stepped [] s₀ _ _ started hears_get_info) takes_get_info)
            offers_get_info)
          handles_get_info)
        (replies info_reply [] (ap replying info_reports)))
      (has_replied refl)

abbrev pub commands : List Command
commands = ctap2_command 5 (4 ∷ []) ∷ []

pub heard_commands : heard_in history' ≡ sent 0 commands
unfolding frame_init_marshal
heard_commands = refl

pub commands-AllSendable : AllSendable commands
commands-AllSendable = ((omega arith, omega arith, tt), tt)

pub serves : Serves signer services
serves = record {
  laws = laws;
  sums = sums;
  able = record {
    registers =
        λ k a h. (record { key_handle = 7 ∷ a; x = 1; y = 2 }, refl, omega (arith, h), (_, refl));
    attests = λ digest. (digest, refl);
  };
}
