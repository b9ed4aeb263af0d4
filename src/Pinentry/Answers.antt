-- ===== src/Pinentry/Answers.antt =====
-- pinentry/pinentry.go: what a result says that is received from the channel of a call.
use mathlib.Core.Path.{subst}
use mathlib.Core.List.{Memᴰ}
use linux_id.Common.{
  ◌≡◌, ◌⊎◌, inl, inr, refl, sym, ◌∙◌, Bool, true, false, Option, none, some, List, [], ◌∷◌, Bytes,
}
use linux_id.Pinentry.Dialogs.{
  PromptResult, Request, Phase, Dialog, Pinentry, is_other, joined, asked, confirm_presence, Event,
  called, confirmed, delivered, Moves, receives, Works, goes_on, is_extended, offer_ends, ends,
  closes, Step, works, calls, Reached, started, stepped, client_fails, client_starts, confirm_fails,
  user_answers, answer_taken, timer_fires, client_gone,
}
use linux_id.Pinentry.Audit.{
  IsUndelivered, Backed, Audited, Reached-Audited, picked, is_other-false,
}

-- A request for this challenge and this application.
abbrev pub IsFor : Bytes → Bytes → Request → Type 0
IsFor c a r = (r.challenge_param ≡ c) × (r.application_param ≡ a)

some_injective : {r s : Request} → some r ≡ some s → r ≡ s
some_injective e = cc

joined-IsFor :
    (pe : Pinentry) (c a : Bytes) (s r : Request) (other : Bool)
    → is_other s c a ≡ other
    → (joined pe s other).1 ≡ some r
    → IsFor c a r
joined-IsFor pe c a s r true e h = cc
joined-IsFor pe c a s r false e h =
    let (x, y) = is_other-false s c a e in subst (IsFor c a) (some_injective h) (sym x, sym y)

asked-IsFor :
    (pe : Pinentry) (prompt c a : Bytes) (o : Option Request) (r : Request)
    → (asked pe prompt c a o).1 ≡ some r
    → IsFor c a r
asked-IsFor pe prompt c a none r h = subst (IsFor c a) (some_injective h) (refl, refl)
asked-IsFor pe prompt c a (some s) r h = joined-IsFor pe c a s r (is_other s c a) refl h

Moves-not_called :
    {s : Request} {p q : Phase} {e : Event} (c a : Bytes) (r : Request)
    → Moves s p e q
    → called c a (some r) ≡ e
    → ⊥
Moves-not_called c a r client_fails z = cc
Moves-not_called c a r client_starts z = cc
Moves-not_called c a r confirm_fails z = cc
Moves-not_called c a r (user_answers b) z = cc
Moves-not_called c a r (answer_taken b) z = cc
Moves-not_called c a r (timer_fires b) z = cc
Moves-not_called c a r (receives x) z = cc
Moves-not_called c a r (client_gone x) z = cc

Works-not_called :
    {pe qe : Pinentry} {e : Event} (c a : Bytes) (r : Request)
    → Works pe e qe
    → called c a (some r) ≡ e
    → ⊥
Works-not_called c a r (goes_on d rest e p pick m) z = Moves-not_called c a r m z
Works-not_called c a r (is_extended d rest b left pick phase offer) z = cc
Works-not_called c a r (offer_ends s left offer) z = cc
Works-not_called c a r (ends d rest pick phase) z = cc
Works-not_called c a r (closes d left pick) z = cc

Step-called :
    {pe qe : Pinentry} {e : Event} (c a : Bytes) (r : Request)
    → Step pe e qe
    → called c a (some r) ≡ e
    → IsFor c a r
unfolding confirm_presence
Step-called c a r (works e qe w) z = absurd (Works-not_called c a r w z)
Step-called {pe} c a r (calls prompt c' a') z =
    let (x, y) = asked-IsFor pe prompt c' a' pe.active_request r (cc) in (x ∙ cc, y ∙ cc)

called-IsFor :
    {es : List Event} {pe : Pinentry} (c a : Bytes) (r : Request)
    → Reached es pe
    → Memᴰ (called c a (some r)) es
    → IsFor c a r
called-IsFor c a r started m = elim m [ ]
called-IsFor c a r (stepped es pe e qe before s) (Memᴰ.head z) = Step-called c a r s z
called-IsFor c a r (stepped es pe e qe before s) (Memᴰ.tail m) = called-IsFor c a r before m

-- What the dialog knows when a result is received from its channel.
abbrev Answered : List Event → Request → PromptResult → Type 0
Answered es r x = IsUndelivered es r.channels × (x.ok ≡ true → Memᴰ (confirmed r true) es)

Moves-Answered :
    {s : Request} {p q : Phase} {e : Event} (es : List Event) (r : Request) (x : PromptResult)
    → Moves s p e q
    → Backed es s p
    → delivered r x ≡ e
    → Answered es r x
Moves-Answered es r x client_fails b z = cc
Moves-Answered es r x client_starts b z = cc
Moves-Answered es r x confirm_fails b z = cc
Moves-Answered es r x (user_answers a) b z = cc
Moves-Answered es r x (answer_taken a) b z = cc
Moves-Answered es r x (timer_fires a) b z = cc
Moves-Answered {s} es r x (receives y) b z =
    let same : r ≡ s = cc in let as_sent : x ≡ y = cc in rw (same, as_sent) b
Moves-Answered es r x (client_gone y) b z = cc

Works-Answered :
    {pe qe : Pinentry} {e : Event} (es : List Event) (r : Request) (x : PromptResult)
    → Works pe e qe
    → Audited es pe
    → delivered r x ≡ e
    → Answered es r x
Works-Answered {pe} es r x (goes_on d rest e p pick m) h z =
    let (b, same, alone) = picked es pe d rest h pick in
    Moves-Answered es r x m
      (subst (λ (y : Dialog). Backed es y.request y.phase) (sym same) b.backed) z
Works-Answered es r x (is_extended d rest b left pick phase offer) h z = cc
Works-Answered es r x (offer_ends s left offer) h z = cc
Works-Answered es r x (ends d rest pick phase) h z = cc
Works-Answered es r x (closes d left pick) h z = cc

Step-Answered :
    {pe qe : Pinentry} {e : Event} (es : List Event) (r : Request) (x : PromptResult)
    → Step pe e qe
    → Audited es pe
    → delivered r x ≡ e
    → Answered es r x
Step-Answered es r x (works e qe w) h z = Works-Answered es r x w h z
Step-Answered es r x (calls prompt c a) h z = cc

delivered-confirmed :
    {es : List Event} {pe : Pinentry} (r : Request) (x : PromptResult)
    → Reached es pe
    → Memᴰ (delivered r x) es
    → x.ok ≡ true
    → Memᴰ (confirmed r true) es
delivered-confirmed r x started m ok = elim m [ ]
delivered-confirmed r x (stepped es pe e qe before s) (Memᴰ.head z) ok =
    Memᴰ.tail ((Step-Answered es r x s (Reached-Audited before) z).1 ok)
delivered-confirmed r x (stepped es pe e qe before s) (Memᴰ.tail m) ok =
    Memᴰ.tail (delivered-confirmed r x before m ok)

-- In every run of the goroutines and of calls, in whatever order: when a call of `ConfirmPresence`
-- for a challenge and an application got a channel, and a result that is OK was received from it, the
-- request behind the channel is for this challenge and this application, and the user confirmed the
-- dialog of this request.
pub confirm_presence-confirmed :
    (es : List Event) (pe : Pinentry) (c a : Bytes) (r : Request) (x : PromptResult)
    → Reached es pe
    → Memᴰ (called c a (some r)) es
    → Memᴰ (delivered r x) es
    → x.ok ≡ true
    → (r.challenge_param ≡ c) × (r.application_param ≡ a) × Memᴰ (confirmed r true) es
confirm_presence-confirmed es pe c a r x h call result ok =
    let (for_c, for_a) = called-IsFor c a r h call in
    (for_c, for_a, delivered-confirmed r x h result ok)

first_delivery :
    {es fs : List Event} {pe : Pinentry} {e : Event} (r : Request) (x : PromptResult)
    → Reached fs pe
    → fs ≡ e ∷ es
    → delivered r x ≡ e
    → IsUndelivered es r.channels
first_delivery r x started f z = cc
first_delivery {es} r x (stepped gs pe e qe before s) f z =
    let same : gs ≡ es = cc in
    subst (λ (ds : List Event). IsUndelivered ds r.channels) same
      (Step-Answered gs r x s (Reached-Audited before) (z ∙ cc)).0

-- A channel delivers at most once, although several calls may wait on it: when a result is received,
-- no result was received before from a request with the same channels.
pub delivered_once :
    (es : List Event) (pe : Pinentry) (r s : Request) (x y : PromptResult)
    → Reached (delivered r x ∷ es) pe
    → Memᴰ (delivered s y) es
    → ¬ (s.channels ≡ r.channels)
delivered_once es pe r s x y h m same = first_delivery r x h refl refl s y m same

-- At every moment there is no active request and every dialog has given up its request, or there is
-- an active request and exactly one dialog that has not given up its request, which is the active
-- one: two callers never have two such dialogs, and a dialog that gives up its request never forgets
-- the request of another one. Dialogs that gave up their request may still have to close their client
-- in either case.
pub Reached-dialogs :
    (es : List Event) (pe : Pinentry)
    → Reached es pe
    → ((pe.active_request ≡ none) × (pe.dialogs ≡ []))
      ⊎ ((d : Dialog) × (pe.active_request ≡ some d.request) × (pe.dialogs ≡ d ∷ []))
Reached-dialogs es pe h = elim (Reached-Audited h).0 [
  | inl idle ↦ inl idle
  | inr b ↦ inr (b.dialog, b.active, b.only)
]
