-- ===== src/Pinentry/Work.antt =====
-- pinentry/pinentry.go: how much the goroutines of `ConfirmPresence` have left to do.
use mathlib.Core.Path.{subst}
use linux_id.Common.{
  Pick, first, further, ℕ, suc, ◌+◌, ◌≤◌, ◌<◌, ◌≡◌, ◌⊎◌, inl, inr, refl, sym, ap, none, List, [],
  ◌∷◌, length, arith,
}
use linux_id.Pinentry.Dialogs.{
  confirm_error, failure, hidden, Request, Phase, starting, asking, choosing, sending, clearing,
  Dialog, Pinentry, Event, Moves, client_fails, client_starts, confirm_fails, user_answers,
  answer_taken, timer_fires, receives, client_gone, Works, goes_on, is_extended, offer_ends, ends,
  closes, works, Reached, stepped,
}
use linux_id.Pinentry.Audit.{Audited, Reached-Audited}

-- The most steps that a dialog has left, its return among them, but for those that give it more time.
abbrev phase_work : Phase → ℕ
phase_work starting = 6
phase_work asking = 5
phase_work (choosing b) = 4
phase_work (sending x) = 3
phase_work clearing = 2

abbrev pub dialog_work : List Dialog → ℕ
dialog_work [] = 0
dialog_work (d ∷ ds) = phase_work d.phase + dialog_work ds

abbrev pub work_left : Pinentry → ℕ
work_left pe = dialog_work pe.dialogs + length pe.extensions + length pe.closing

-- So many steps of the goroutines, with no call between them.
pub data Working (pe : Pinentry) : ℕ → Pinentry → Type 0 where
  rests : Working pe 0 pe
  works_on :
      (n : ℕ) (qe re : Pinentry) (e : Event)
      → Working pe n qe
      → Works qe e re
      → Working pe (suc n) re

dialog_work-Pick :
    {d : Dialog} {ds rest : List Dialog}
    → Pick d ds rest
    → dialog_work ds ≡ phase_work d.phase + dialog_work rest
dialog_work-Pick (first d ds) = refl
dialog_work-Pick (further d c ds rest p) = omega (arith, dialog_work-Pick p)

length-Pick : {A : Type 0} {r : A} {rs rest : List A} → Pick r rs rest → length rs ≡ length rest + 1
length-Pick (first r rs) = omega arith
length-Pick (further r s rs rest p) = omega (arith, length-Pick p)

Moves-phase_work :
    {r : Request} {p q : Phase} {e : Event} → Moves r p e q → phase_work q < phase_work p
Moves-phase_work client_fails = omega arith
Moves-phase_work client_starts = omega arith
Moves-phase_work confirm_fails = omega arith
Moves-phase_work (user_answers b) = omega arith
Moves-phase_work (answer_taken b) = omega arith
Moves-phase_work (timer_fires b) = omega arith
Moves-phase_work (receives x) = omega arith
Moves-phase_work (client_gone x) = omega arith

Works-work_left : {pe qe : Pinentry} {e : Event} → Works pe e qe → work_left qe < work_left pe
Works-work_left {pe} (goes_on d rest e p pick m) =
    omega (arith, dialog_work-Pick pick, Moves-phase_work m)
Works-work_left {pe} (is_extended d rest b left pick phase offer) = omega (arith, length-Pick offer)
Works-work_left {pe} (offer_ends r left offer) = omega (arith, length-Pick offer)
Works-work_left {pe} (ends d rest pick phase) =
    let now : phase_work d.phase ≡ 2 = ap phase_work phase in
    omega (arith, dialog_work-Pick pick, now)
Works-work_left {pe} (closes d left pick) = omega (arith, length-Pick pick)

Working-work_left : {pe qe : Pinentry} {n : ℕ} → Working pe n qe → n + work_left qe ≤ work_left pe
Working-work_left rests = omega arith
Working-work_left (works_on n qe re e before w) =
    omega (arith, Working-work_left before, Works-work_left w)

Working-Reached :
    {es : List Event} {pe qe : Pinentry} {n : ℕ}
    → Reached es pe
    → Working pe n qe
    → (fs : List Event) × Reached fs qe
Working-Reached {es} h rests = (es, h)
Working-Reached h (works_on n qe re e before w) =
    let (fs, at) = Working-Reached h before in (e ∷ fs, stepped fs qe e re at (works e re w))

-- A step with which the goroutine of the active request comes nearer to its end, and at which no
-- result is received and no user answers.
abbrev CanWork : Pinentry → Type 0
CanWork pe =
    (re : Pinentry) × Works pe hidden re × (dialog_work re.dialogs < dialog_work pe.dialogs)

-- The next step of a dialog.
can_move :
    (pe : Pinentry) (d : Dialog) (p q : Phase)
    → Pick d pe.dialogs []
    → d.phase ≡ p
    → Moves d.request p hidden q
    → CanWork pe
can_move pe d p q pick at m =
    let m' = subst (λ (x : Phase). Moves d.request x hidden q) (sym at) m in
    (_, goes_on d [] hidden q pick m', omega (arith, dialog_work-Pick pick, Moves-phase_work m'))

can_work :
    (pe : Pinentry) (d : Dialog) (p : Phase) → Pick d pe.dialogs [] → d.phase ≡ p → CanWork pe
can_work pe d starting pick at = can_move pe d starting asking pick at client_starts
can_work pe d asking pick at =
    can_move pe d asking (sending (failure confirm_error)) pick at confirm_fails
can_work pe d (choosing b) pick at =
    can_move pe d (choosing b) (sending (record { ok = b; error = none })) pick at (answer_taken b)
can_work pe d (sending x) pick at = can_move pe d (sending x) clearing pick at (client_gone x)
can_work pe d clearing pick at =
    let now : phase_work d.phase ≡ 2 = ap phase_work at in
    (_, ends d [] pick at, omega (arith, dialog_work-Pick pick, now))

idle_or_works :
    (es : List Event) (pe : Pinentry) → Audited es pe → (pe.active_request ≡ none) ⊎ CanWork pe
idle_or_works es pe (inl idle, bound) = inl idle.0
idle_or_works es pe (inr b, bound) =
    let pick : Pick b.dialog pe.dialogs [] =
      subst (λ (ds : List Dialog). Pick b.dialog ds []) (sym b.only) (first b.dialog []) in
    inr (can_work pe b.dialog b.dialog.phase pick refl)

-- From any state that is reached and with no further call, the goroutines take at most a number
-- of steps that the state gives, whatever the order in which they run. And as long as there is an
-- active request its goroutine, whatever it is doing, can take a step towards its end for which
-- nobody receives a result and no user answers: a result that nobody receives never keeps the request
-- active. Before the answer of the user this step is the end of the client or its failure.
pub Reached-frees :
    (es : List Event) (n : ℕ) (pe qe : Pinentry)
    → Reached es pe
    → Working pe n qe
    → (n ≤ work_left pe)
      × ((qe.active_request ≡ none)
          ⊎ ((re : Pinentry) × Works qe hidden re
              × (dialog_work re.dialogs < dialog_work qe.dialogs)))
Reached-frees es n pe qe h w =
    let (fs, at) = Working-Reached h w in
    (omega (arith, Working-work_left w), idle_or_works fs qe (Reached-Audited at))
