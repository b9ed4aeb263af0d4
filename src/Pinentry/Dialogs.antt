-- ===== src/Pinentry/Dialogs.antt =====
-- pinentry/pinentry.go: the open request, and the goroutines of `ConfirmPresence` as a step relation.
-- A timer may fire whenever it is awaited, and every order of the goroutines is a run. The dialog
-- program, the user and the receivers of results decide the rest.
use linux_id.Common.{
  Pick, ℕ, ◌+◌, ◌≡◌, Bool, false, Option, none, some, List, [], ◌∷◌, Bytes, not, ◌||◌, bytes_equal,
  if◌then◌else◌,
}

-- What ends a dialog with an error.
pub data PromptError : Type 0 where
  client_error confirm_error timeout_error : PromptError

-- `Result`.
pub record PromptResult : Type 0 where
  pub ok : Bool
  pub error : Option PromptError

-- `request`; `channels` tells its pair of channels from those of other requests.
pub record Request : Type 0 where
  pub channels : ℕ
  pub challenge_param : Bytes
  pub application_param : Bytes

-- Where a goroutine of `prompt` stands: before `NewClient`, in `Confirm`, in its loop with the
-- answer, in the first half of `sendResult`, and in the second half.
pub data Phase : Type 0 where
  starting asking : Phase
  choosing : Bool → Phase
  sending : PromptResult → Phase
  clearing : Phase

pub record Dialog : Type 0 where
  pub request : Request
  pub prompt : Bytes
  pub phase : Phase

-- `Pinentry` with the goroutines that it has started: the dialogs, the offers of more time, by the
-- request they extend, and the dialogs that gave up their request and have still to return (the
-- deferred `client.Close`, for those that started a client). `fresh` numbers the channels that `make`
-- will give next.
pub record Pinentry : Type 0 where
  pub active_request : Option Request
  pub fresh : ℕ
  pub dialogs : List Dialog
  pub extensions : List Request
  pub closing : List Dialog

unfoldable pub new_pinentry : Pinentry
new_pinentry = record {
  active_request = none;
  fresh = 0;
  dialogs = [];
  extensions = [];
  closing = [];
}

abbrev pub is_other : Request → Bytes → Bytes → Bool
is_other r challenge application =
    not (bytes_equal challenge r.challenge_param)
    || not (bytes_equal application r.application_param)

abbrev pub new_request : Pinentry → Bytes → Bytes → Request
new_request pe challenge application = record {
  channels = pe.fresh;
  challenge_param = challenge;
  application_param = application;
}

abbrev pub new_dialog : Bytes → Request → Dialog
new_dialog prompt r = record { request = r; prompt = prompt; phase = starting }

abbrev pub opened : Pinentry → Bytes → Request → Pinentry × Option Request
opened pe prompt r = (
  record pe {
    active_request = some r;
    fresh = pe.fresh + 1;
    dialogs = new_dialog prompt r ∷ pe.dialogs;
  },
  some r,
)

abbrev pub joined : Pinentry → Request → Bool → Pinentry × Option Request
joined pe r other =
    if other then (pe, none) else (record pe { extensions = r ∷ pe.extensions }, some r)

abbrev pub asked : Pinentry → Bytes → Bytes → Bytes → Option Request → Pinentry × Option Request
asked pe prompt challenge application (some r) = joined pe r (is_other r challenge application)
asked pe prompt challenge application none = opened pe prompt (new_request pe challenge application)

-- `ConfirmPresence`: the request whose channel is returned; `none` is the error.
unfoldable pub confirm_presence : Pinentry → Bytes → Bytes → Bytes → Pinentry × Option Request
confirm_presence pe prompt challenge application =
    asked pe prompt challenge application pe.active_request

-- `ConfirmGeneric` with what `rand.Read` gives.
unfoldable pub confirm_generic : Pinentry → Bytes → Option Bytes → Pinentry × Option Request
confirm_generic pe prompt nonce = elim nonce [
  | none ↦ (pe, none)
  | some n ↦ confirm_presence pe prompt n n
]

-- What is seen of a step: a call and its answer, the user's answer to a dialog, a result that is
-- received from the channel of a request, or nothing.
pub data Event : Type 0 where
  called : Bytes → Bytes → Option Request → Event
  confirmed : Request → Bool → Event
  delivered : Request → PromptResult → Event
  hidden : Event

abbrev pub failure : PromptError → PromptResult
failure e = record { ok = false; error = some e }

-- The code of `prompt` for a request.
pub data Moves (r : Request) : Phase → Event → Phase → Type 0 where
  client_fails : Moves r starting hidden (sending (failure client_error))
  client_starts : Moves r starting hidden asking
  confirm_fails : Moves r asking hidden (sending (failure confirm_error))
  user_answers : (b : Bool) → Moves r asking (confirmed r b) (choosing b)
  answer_taken :
      (b : Bool) → Moves r (choosing b) hidden (sending (record { ok = b; error = none }))
  timer_fires : (b : Bool) → Moves r (choosing b) hidden (sending (failure timeout_error))
  receives : (x : PromptResult) → Moves r (sending x) (delivered r x) clearing
  client_gone : (x : PromptResult) → Moves r (sending x) hidden clearing

-- A step of the goroutines, and nothing else: a dialog that stays within its code, that takes an
-- offer of more time, or that gives up its request; one that then returns; and an offer that is
-- withdrawn.
pub data Works (pe : Pinentry) : Event → Pinentry → Type 0 where
  goes_on :
      (d : Dialog) (rest : List Dialog) (e : Event) (p : Phase)
      → Pick d pe.dialogs rest
      → Moves d.request d.phase e p
      → Works pe e (record pe { dialogs = record d { phase = p } ∷ rest })
  is_extended :
      (d : Dialog) (rest : List Dialog) (b : Bool) (left : List Request)
      → Pick d pe.dialogs rest
      → d.phase ≡ choosing b
      → Pick d.request pe.extensions left
      → Works pe hidden (record pe { extensions = left })
  offer_ends :
      (r : Request) (left : List Request)
      → Pick r pe.extensions left
      → Works pe hidden (record pe { extensions = left })
  ends :
      (d : Dialog) (rest : List Dialog)
      → Pick d pe.dialogs rest
      → d.phase ≡ clearing
      → Works pe hidden
          (record pe { active_request = none; dialogs = rest; closing = d ∷ pe.closing })
  closes :
      (d : Dialog) (left : List Dialog)
      → Pick d pe.closing left
      → Works pe hidden (record pe { closing = left })

-- A step of the goroutines, or a call.
pub data Step (pe : Pinentry) : Event → Pinentry → Type 0 where
  works : (e : Event) (qe : Pinentry) → Works pe e qe → Step pe e qe
  calls :
      (prompt challenge application : Bytes)
      → Step pe
          (called challenge application (confirm_presence pe prompt challenge application).1)
          (confirm_presence pe prompt challenge application).0

-- The states that are reached from a new pinentry, with the events, the newest first.
pub data Reached : List Event → Pinentry → Type 0 where
  started : Reached [] new_pinentry
  stepped :
      (es : List Event) (pe : Pinentry) (e : Event) (qe : Pinentry)
      → Reached es pe
      → Step pe e qe
      → Reached (e ∷ es) qe
