-- ===== src/Tests/Prompts.antt =====
-- The theorems on the dialogs, applied: a request of two calls that the user confirms.
use mathlib.Core.List.{Memᴰ}
use linux_id.Common.{first, ◌≤◌, ◌<◌, ◌+◌, ◌≡◌, ◌⊎◌, refl, true, none, some, List, [], ◌∷◌, codes}
use linux_id.Pinentry.Dialogs.{
  PromptResult, Request, Phase, clearing, asking, starting, Dialog, Pinentry, new_pinentry,
  confirm_presence, Event, called, confirmed, delivered, hidden, client_starts, user_answers,
  answer_taken, failure, client_error, client_fails, receives, Moves, Works, goes_on, ends, works,
  calls, Reached, started, stepped,
}
use linux_id.Pinentry.Answers.{confirm_presence-confirmed, delivered_once, Reached-dialogs}
use linux_id.Pinentry.Calls.{CallAnswer, confirm_presence-CallAnswer}
use linux_id.Pinentry.Work.{rests, works_on, work_left, dialog_work, Reached-frees}

abbrev request : Request
request = record { channels = 0; challenge_param = 1 ∷ []; application_param = 2 ∷ [] }

abbrev other_request : Request
other_request = record { channels = 1; challenge_param = 3 ∷ []; application_param = 2 ∷ [] }

abbrev dialog : Request → Phase → Dialog
dialog r p = record { request = r; prompt = codes "FIDO Confirm Auth"; phase = p }

-- The pinentry with a dialog for the request in a phase, and one offer of more time.
abbrev at : Request → Phase → Pinentry
at r p = record {
  active_request = some r;
  fresh = r.channels + 1;
  dialogs = dialog r p ∷ [];
  extensions = request ∷ [];
  closing = [];
}

-- The state in which the client of the request has still to be closed, with a dialog for another one.
abbrev later : Request → Phase → Pinentry
later r p = record (at r p) { closing = dialog request clearing ∷ [] }

abbrev yes : PromptResult
yes = record { ok = true; error = none }

abbrev call : Event
call = called (1 ∷ []) (2 ∷ []) (some request)

called_twice : Reached (call ∷ call ∷ []) (at request starting)
unfolding confirm_presence new_pinentry
called_twice =
    stepped _ (record (at request starting) { extensions = [] }) call _
      (stepped [] new_pinentry call _ started (calls (codes "FIDO Confirm Auth") (1 ∷ []) (2 ∷ [])))
      (calls (codes "FIDO Confirm Auth") (1 ∷ []) (2 ∷ []))

-- The dialog goes on from one phase to the next.
moved :
    {es : List Event} {r : Request} {p q : Phase} {e : Event} (closing : List Dialog)
    → Moves r p e q
    → Reached es (record (at r p) { closing = closing })
    → Reached (e ∷ es) (record (at r q) { closing = closing })
moved {r} {p} {q} {e} closing m h =
    stepped _ (record (at r p) { closing = closing }) e _ h
      (works e _ (goes_on (dialog r p) [] e q (first (dialog r p) []) m))

abbrev events : List Event
events = delivered request yes ∷ hidden ∷ confirmed request true ∷ hidden ∷ call ∷ call ∷ []

answered : Reached events (at request clearing)
answered = moved [] (receives yes) (
    moved [] (answer_taken true)
      (moved [] (user_answers true) (moved [] client_starts called_twice)))

confirm_presence-confirmed_example :
    (request.challenge_param ≡ 1 ∷ [])
    × (request.application_param ≡ 2 ∷ [])
    × Memᴰ (confirmed request true) events
confirm_presence-confirmed_example =
    confirm_presence-confirmed events (at request clearing) (1 ∷ []) (2 ∷ []) request yes answered
      (Memᴰ.tail (Memᴰ.tail (Memᴰ.tail (Memᴰ.tail (Memᴰ.head refl))))) (Memᴰ.head refl) refl

-- The dialog gives up the request, and before its client is closed one for another request opens and fails.
abbrev later_events : List Event
later_events = hidden ∷ called (3 ∷ []) (2 ∷ []) (some other_request) ∷ hidden ∷ events

failed_later :
    Reached
      (delivered other_request (failure client_error) ∷ later_events)
      (later other_request clearing)
unfolding confirm_presence
failed_later = moved (dialog request clearing ∷ []) (receives (failure client_error)) (
    moved (dialog request clearing ∷ []) client_fails (
      stepped _ _ _ (later other_request starting)
        (stepped _ (at request clearing) hidden _ answered (
          works hidden _
            (ends (dialog request clearing) [] (first (dialog request clearing) []) refl)))
        (calls (codes "FIDO Confirm Auth") (3 ∷ []) (2 ∷ []))))

delivered_once_example : ¬ (request.channels ≡ other_request.channels)
delivered_once_example =
    delivered_once later_events (later other_request clearing) other_request request
      (failure client_error) yes failed_later (Memᴰ.tail (Memᴰ.tail (Memᴰ.tail (Memᴰ.head refl))))

Reached-dialogs_example :
    ((some request ≡ none) × (dialog request clearing ∷ [] ≡ []))
    ⊎ ((d : Dialog) × (some request ≡ some d.request) × (dialog request clearing ∷ [] ≡ d ∷ []))
Reached-dialogs_example = Reached-dialogs events (at request clearing) answered

Reached-frees_example :
    (1 ≤ work_left (at request starting))
    × ((some request ≡ none)
        ⊎ ((re : Pinentry) × Works (at request asking) hidden re
            × (dialog_work re.dialogs < dialog_work (dialog request asking ∷ []))))
Reached-frees_example =
    Reached-frees (call ∷ call ∷ []) 1 (at request starting) (at request asking) called_twice (
      works_on 0 (at request starting) (at request asking) hidden rests (
        goes_on (dialog request starting) [] hidden asking (first (dialog request starting) [])
          client_starts))

confirm_presence-CallAnswer_example :
    CallAnswer
      (at request asking)
      (codes "FIDO Confirm Auth")
      (3 ∷ [])
      (2 ∷ [])
      (confirm_presence (at request asking) (codes "FIDO Confirm Auth") (3 ∷ []) (2 ∷ []))
confirm_presence-CallAnswer_example =
    confirm_presence-CallAnswer (hidden ∷ call ∷ call ∷ []) (at request asking)
      (codes "FIDO Confirm Auth") (3 ∷ []) (2 ∷ []) (moved [] client_starts called_twice)
