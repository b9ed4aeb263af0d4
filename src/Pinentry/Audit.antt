-- ===== src/Pinentry/Audit.antt =====
-- pinentry/pinentry.go: what holds between two steps of the goroutines.
use mathlib.Core.Path.{subst}
use mathlib.Core.List.{Memᴰ}
use linux_id.Common.{
  Pick, Pick-none, Pick-only, ℕ, ◌+◌, ◌≤◌, ◌<◌, ◌≡◌, ◌⊎◌, inl, inr, refl, sym, ap, ◌∙◌, Bool, true,
  false, Option, none, some, List, [], ◌∷◌, Bytes, bytes_equal, bytes_equal→eq, Bool-cases, arith,
}
use linux_id.Pinentry.Dialogs.{
  PromptError, client_error, confirm_error, timeout_error, failure, PromptResult, Request, Phase,
  starting, asking, choosing, sending, clearing, Dialog, Pinentry, new_pinentry, is_other,
  new_request, new_dialog, joined, asked, confirm_presence, Event, called, confirmed, delivered,
  hidden, Moves, client_fails, client_starts, confirm_fails, user_answers, answer_taken,
  timer_fires, receives, client_gone, Works, goes_on, is_extended, offer_ends, ends, closes, Step,
  works, calls, Reached, started, stepped,
}

-- No result was received from the channel with this number.
abbrev pub IsUndelivered : List Event → ℕ → Type 0
IsUndelivered es n = (r : Request) (x : PromptResult) → Memᴰ (delivered r x) es → r.channels ≡ n → ⊥

-- What the events say of a dialog in its phase.
abbrev pub Backed : List Event → Request → Phase → Type 0
Backed es r starting = IsUndelivered es r.channels
Backed es r asking = IsUndelivered es r.channels
Backed es r (choosing b) = IsUndelivered es r.channels × Memᴰ (confirmed r b) es
Backed es r (sending x) = IsUndelivered es r.channels × (x.ok ≡ true → Memᴰ (confirmed r true) es)
Backed es r clearing = Unit {0}

-- Results came only from channels that were made.
abbrev pub IsBounded : List Event → ℕ → Type 0
IsBounded es n = (r : Request) (x : PromptResult) → Memᴰ (delivered r x) es → r.channels < n

-- Some call made the request.
abbrev pub IsOpened : List Event → Request → Type 0
IsOpened es r = Memᴰ (called r.challenge_param r.application_param (some r)) es

pub record IsBusy (es : List Event) (pe : Pinentry) : Type 0 where
  pub dialog : Dialog
  pub active : pe.active_request ≡ some dialog.request
  pub only : pe.dialogs ≡ dialog ∷ []
  pub made : dialog.request.channels < pe.fresh
  pub opened : IsOpened es dialog.request
  pub backed : Backed es dialog.request dialog.phase

abbrev pub IsIdle : Pinentry → Type 0
IsIdle pe = (pe.active_request ≡ none) × (pe.dialogs ≡ [])

-- There is no request and no dialog, or one dialog, for the active request.
abbrev pub Audited : List Event → Pinentry → Type 0
Audited es pe = (IsIdle pe ⊎ IsBusy es pe) × IsBounded es pe.fresh

-- Events that deliver nothing.
abbrev IsQuiet : Event → Type 0
IsQuiet e = (r : Request) (x : PromptResult) → delivered r x ≡ e → ⊥

quiet-IsUndelivered :
    (e : Event) (es : List Event) (n : ℕ)
    → IsQuiet e
    → IsUndelivered es n
    → IsUndelivered (e ∷ es) n
quiet-IsUndelivered e es n q u r x (Memᴰ.head z) same = q r x z
quiet-IsUndelivered e es n q u r x (Memᴰ.tail m) same = u r x m same

quiet-IsBounded :
    (e : Event) (es : List Event) (n m : ℕ)
    → IsQuiet e
    → n ≤ m
    → IsBounded es n
    → IsBounded (e ∷ es) m
quiet-IsBounded e es n m q le b r x (Memᴰ.head z) = absurd (q r x z)
quiet-IsBounded e es n m q le b r x (Memᴰ.tail i) = omega (arith, b r x i)

quiet-Backed :
    (e : Event) (es : List Event) (r : Request) (p : Phase)
    → IsQuiet e
    → Backed es r p
    → Backed (e ∷ es) r p
quiet-Backed e es r starting q b = quiet-IsUndelivered e es r.channels q b
quiet-Backed e es r asking q b = quiet-IsUndelivered e es r.channels q b
quiet-Backed e es r (choosing x) q (u, m) = (quiet-IsUndelivered e es r.channels q u, Memᴰ.tail m)
quiet-Backed e es r (sending x) q (u, m) =
    (quiet-IsUndelivered e es r.channels q u, λ ok. Memᴰ.tail (m ok))
quiet-Backed e es r clearing q b = tt

hidden-IsQuiet : IsQuiet hidden
hidden-IsQuiet r x z = cc

hidden-IsBounded : (es : List Event) (n : ℕ) → IsBounded es n → IsBounded (hidden ∷ es) n
hidden-IsBounded es n = quiet-IsBounded hidden es n n hidden-IsQuiet (omega arith)

called-IsQuiet : (c a : Bytes) (o : Option Request) → IsQuiet (called c a o)
called-IsQuiet c a o r x z = cc

confirmed-IsQuiet : (s : Request) (b : Bool) → IsQuiet (confirmed s b)
confirmed-IsQuiet s b r x z = cc

hidden-IsUndelivered :
    (es : List Event) (n : ℕ) → IsUndelivered es n → IsUndelivered (hidden ∷ es) n
hidden-IsUndelivered es n = quiet-IsUndelivered hidden es n hidden-IsQuiet

failure-Backed :
    (es : List Event) (r : Request) (e : PromptError)
    → IsUndelivered es r.channels
    → Backed (hidden ∷ es) r (sending (failure e))
failure-Backed es r e u = (hidden-IsUndelivered es r.channels u, λ ok. absurd (no_ok ok))
  where
    no_ok : false ≡ true → ⊥
    no_ok z = cc

Moves-Backed :
    {r : Request} {p q : Phase} {e : Event} (es : List Event)
    → Moves r p e q
    → Backed es r p
    → Backed (e ∷ es) r q
Moves-Backed {r} es client_fails b = failure-Backed es r client_error b
Moves-Backed {r} es client_starts b = hidden-IsUndelivered es r.channels b
Moves-Backed {r} es confirm_fails b = failure-Backed es r confirm_error b
Moves-Backed {r} es (user_answers a) b =
    (quiet-IsUndelivered (confirmed r a) es r.channels (confirmed-IsQuiet r a) b, Memᴰ.head refl)
Moves-Backed {r} es (answer_taken a) (u, m) = (
  hidden-IsUndelivered es r.channels u,
  λ ok. Memᴰ.tail (subst (λ (b : Bool). Memᴰ (confirmed r b) es) ok m),
)
Moves-Backed {r} es (timer_fires a) (u, m) = failure-Backed es r timeout_error u
Moves-Backed {r} es (receives x) b = tt
Moves-Backed {r} es (client_gone x) b = tt

delivered-IsBounded :
    (s : Request) (y : PromptResult) (es : List Event) (n : ℕ)
    → s.channels < n
    → IsBounded es n
    → IsBounded (delivered s y ∷ es) n
delivered-IsBounded s y es n lt b r x (Memᴰ.head z) =
    let same : r.channels ≡ s.channels = cc in omega (arith, same, lt)
delivered-IsBounded s y es n lt b r x (Memᴰ.tail i) = b r x i

Moves-IsBounded :
    {r : Request} {p q : Phase} {e : Event} (es : List Event) (n : ℕ)
    → Moves r p e q
    → r.channels < n
    → IsBounded es n
    → IsBounded (e ∷ es) n
Moves-IsBounded es n client_fails lt b = hidden-IsBounded es n b
Moves-IsBounded es n client_starts lt b = hidden-IsBounded es n b
Moves-IsBounded es n confirm_fails lt b = hidden-IsBounded es n b
Moves-IsBounded {r} es n (user_answers a) lt b =
    quiet-IsBounded (confirmed r a) es n n (confirmed-IsQuiet r a) (omega arith) b
Moves-IsBounded es n (answer_taken a) lt b = hidden-IsBounded es n b
Moves-IsBounded es n (timer_fires a) lt b = hidden-IsBounded es n b
Moves-IsBounded {r} es n (receives x) lt b = delivered-IsBounded r x es n lt b
Moves-IsBounded es n (client_gone x) lt b = hidden-IsBounded es n b

-- The dialog that a step is about is the only one, and so it is the one of the active request.
pub picked :
    (es : List Event) (pe : Pinentry) (d : Dialog) (rest : List Dialog)
    → Audited es pe
    → Pick d pe.dialogs rest
    → (b : IsBusy es pe) × (d ≡ b.dialog) × (rest ≡ [])
picked es pe d rest (inl (none_active, empty), b) p = absurd (Pick-none p empty)
picked es pe d rest (inr busy, b) p =
    let (same, alone) = Pick-only p busy.only in (busy, same, alone)

-- A quiet step that leaves the dialogs alone.
quiet-Audited :
    (e : Event) (es : List Event) (pe : Pinentry) (left : List Request) (closing : List Dialog)
    → IsQuiet e
    → Audited es pe
    → Audited (e ∷ es) (record pe { extensions = left; closing = closing })
quiet-Audited e es pe left closing q (inl idle, bound) =
    (inl idle, quiet-IsBounded e es pe.fresh pe.fresh q (omega arith) bound)
quiet-Audited e es pe left closing q (inr b, bound) = (
  inr (record {
    dialog = b.dialog;
    active = b.active;
    only = b.only;
    made = b.made;
    opened = Memᴰ.tail b.opened;
    backed = quiet-Backed e es b.dialog.request b.dialog.phase q b.backed;
  }),
  quiet-IsBounded e es pe.fresh pe.fresh q (omega arith) bound,
)

goes_on-Audited :
    (es : List Event) (pe : Pinentry) (d : Dialog) (rest : List Dialog) (e : Event) (p : Phase)
    → Audited es pe
    → Pick d pe.dialogs rest
    → Moves d.request d.phase e p
    → Audited (e ∷ es) (record pe { dialogs = record d { phase = p } ∷ rest })
goes_on-Audited es pe d rest e p h pick m =
    let (b, same, alone) = picked es pe d rest h pick in
    let made : d.request.channels < pe.fresh =
      subst (λ (x : Dialog). x.request.channels < pe.fresh) (sym same) b.made in
    (
      inr (record {
        dialog = record d { phase = p };
        active = b.active ∙ ap (λ (x : Dialog). some x.request) (sym same);
        only = ap (λ (xs : List Dialog). record d { phase = p } ∷ xs) alone;
        made = made;
        opened = Memᴰ.tail (subst (λ (x : Dialog). IsOpened es x.request) (sym same) b.opened);
        backed =
            Moves-Backed es m
              (subst (λ (x : Dialog). Backed es x.request x.phase) (sym same) b.backed);
      }),
      Moves-IsBounded es pe.fresh m made h.1,
    )

Works-Audited :
    {pe qe : Pinentry} {e : Event} (es : List Event)
    → Works pe e qe
    → Audited es pe
    → Audited (e ∷ es) qe
Works-Audited {pe} es (goes_on d rest e p pick m) h = goes_on-Audited es pe d rest e p h pick m
Works-Audited {pe} es (is_extended d rest b left pick phase offer) h =
    quiet-Audited hidden es pe left pe.closing hidden-IsQuiet h
Works-Audited {pe} es (offer_ends r left offer) h =
    quiet-Audited hidden es pe left pe.closing hidden-IsQuiet h
Works-Audited {pe} es (ends d rest pick phase) h =
    (inl (refl, (picked es pe d rest h pick).2), hidden-IsBounded es pe.fresh h.1)
Works-Audited {pe} es (closes d left pick) h =
    quiet-Audited hidden es pe pe.extensions left hidden-IsQuiet h

pub is_other-false :
    (r : Request) (c a : Bytes)
    → is_other r c a ≡ false
    → (c ≡ r.challenge_param) × (a ≡ r.application_param)
is_other-false r c a e = elim (Bool-cases (bytes_equal c r.challenge_param)) [
  | inl x ↦ elim (Bool-cases (bytes_equal a r.application_param)) [
    | inl y ↦ (bytes_equal→eq c r.challenge_param x, bytes_equal→eq a r.application_param y)
    | inr y ↦ absurd (clash (sym e ∙ rw (x, y) refl))
  ]
  | inr x ↦ absurd (clash (sym e ∙ rw x refl))
]
  where
    clash : false ≡ true → ⊥
    clash z = cc

-- What a call leaves and answers.
abbrev Heard : List Event → Bytes → Bytes → Pinentry × Option Request → Type 0
Heard es c a r = Audited (called c a r.1 ∷ es) r.0

opened-Heard :
    (es : List Event) (pe : Pinentry) (prompt c a : Bytes)
    → pe.dialogs ≡ []
    → IsBounded es pe.fresh
    → Heard es c a (asked pe prompt c a none)
opened-Heard es pe prompt c a empty bound =
    let r = new_request pe c a in
    (
      inr (record {
        dialog = new_dialog prompt r;
        active = refl;
        only = ap (λ (xs : List Dialog). new_dialog prompt r ∷ xs) empty;
        made = omega arith;
        opened = Memᴰ.head refl;
        backed =
            quiet-IsUndelivered (called c a (some r)) es pe.fresh (called-IsQuiet c a (some r))
              (λ s x m same. omega (arith, bound s x m, same));
      }),
      quiet-IsBounded (called c a (some r)) es pe.fresh (pe.fresh + 1) (called-IsQuiet c a (some r))
          (omega arith) bound,
    )

joined-Heard :
    (es : List Event) (pe : Pinentry) (c a : Bytes) (r : Request) (other : Bool)
    → Audited es pe
    → Heard es c a (joined pe r other)
joined-Heard es pe c a r true h =
    quiet-Audited _ es pe pe.extensions pe.closing (called-IsQuiet c a none) h
joined-Heard es pe c a r false h =
    quiet-Audited _ es pe (r ∷ pe.extensions) pe.closing (called-IsQuiet c a (some r)) h

calls-Audited :
    (es : List Event) (pe : Pinentry) (prompt c a : Bytes)
    → Audited es pe
    → Heard es c a (confirm_presence pe prompt c a)
unfolding confirm_presence
calls-Audited es pe prompt c a (inl (idle, empty), bound) =
    subst (λ (o : Option Request). Heard es c a (asked pe prompt c a o)) (sym idle)
      (opened-Heard es pe prompt c a empty bound)
calls-Audited es pe prompt c a (inr b, bound) =
    subst (λ (o : Option Request). Heard es c a (asked pe prompt c a o)) (sym b.active)
      (joined-Heard es pe c a b.dialog.request (is_other b.dialog.request c a) (inr b, bound))

Step-Audited :
    {pe qe : Pinentry} {e : Event} (es : List Event)
    → Step pe e qe
    → Audited es pe
    → Audited (e ∷ es) qe
Step-Audited es (works e qe w) h = Works-Audited es w h
Step-Audited {pe} es (calls prompt c a) h = calls-Audited es pe prompt c a h

pub Reached-Audited : {es : List Event} {pe : Pinentry} → Reached es pe → Audited es pe
unfolding new_pinentry
Reached-Audited started = (inl (refl, refl), λ r x m. absurd (empty m))
  where
    empty : {r : Request} {x : PromptResult} → Memᴰ (delivered r x) [] → ⊥
    empty m = elim m [ ]
Reached-Audited (stepped es pe e qe before s) = Step-Audited es s (Reached-Audited before)
