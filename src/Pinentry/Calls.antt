-- ===== src/Pinentry/Calls.antt =====
-- pinentry/pinentry.go: what a call of `ConfirmPresence` answers.
use linux_id.Common.{
  ◌≡◌, ◌⊎◌, inl, inr, refl, sym, ap, ◌∙◌, Bool, true, false, Option, none, some, List, [], ◌∷◌,
  Bytes, bytes_equal_refl,
}
use linux_id.Pinentry.Dialogs.{
  Request, Dialog, Pinentry, is_other, new_request, new_dialog, joined, asked, confirm_presence,
  Event, Reached,
}
use linux_id.Pinentry.Audit.{Audited, Reached-Audited, is_other-false}
use linux_id.Pinentry.Answers.{IsFor}

is_other-true : (r : Request) (c a : Bytes) → is_other r c a ≡ true → ¬ IsFor c a r
is_other-true r c a e (p, q) = clash (sym same ∙ e)
  where
    same : is_other r c a ≡ false
    same = rw (p, q, bytes_equal_refl c, bytes_equal_refl a) refl

    clash : false ≡ true → ⊥
    clash z = cc

-- No request is open, and the call opens one with one dialog.
abbrev pub Opens : Pinentry → Bytes → Bytes → Bytes → Pinentry × Option Request → Type 0
Opens pe prompt c a answer =
    (r : Request) × IsFor c a r
    × (pe.active_request ≡ none)
    × (answer.1 ≡ some r)
    × (answer.0.active_request ≡ some r)
    × (answer.0.dialogs ≡ new_dialog prompt r ∷ [])

-- The open request is for the same challenge and application, and the call shares it.
abbrev pub Shares : Pinentry → Bytes → Bytes → Pinentry × Option Request → Type 0
Shares pe c a answer =
    (r : Request) × IsFor c a r
    × (pe.active_request ≡ some r)
    × (answer.1 ≡ some r)
    × (answer.0 ≡ record pe { extensions = r ∷ pe.extensions })

-- The open request is another one, and the call changes nothing.
abbrev pub Refuses : Pinentry → Bytes → Bytes → Pinentry × Option Request → Type 0
Refuses pe c a answer =
    (r : Request) × (¬ IsFor c a r)
    × (pe.active_request ≡ some r)
    × (answer.1 ≡ none)
    × (answer.0 ≡ pe)

abbrev pub CallAnswer : Pinentry → Bytes → Bytes → Bytes → Pinentry × Option Request → Type 0
CallAnswer pe prompt c a answer =
    Opens pe prompt c a answer ⊎ (Shares pe c a answer ⊎ Refuses pe c a answer)

joined-CallAnswer :
    (pe : Pinentry) (prompt c a : Bytes) (r : Request) (other : Bool)
    → pe.active_request ≡ some r
    → is_other r c a ≡ other
    → CallAnswer pe prompt c a (joined pe r other)
joined-CallAnswer pe prompt c a r true open_ e =
    inr (inr (r, is_other-true r c a e, open_, refl, refl))
joined-CallAnswer pe prompt c a r false open_ e =
    let (p, q) = is_other-false r c a e in inr (inl (r, (sym p, sym q), open_, refl, refl))

asked-CallAnswer :
    (es : List Event) (pe : Pinentry) (prompt c a : Bytes) (o : Option Request)
    → Audited es pe
    → pe.active_request ≡ o
    → CallAnswer pe prompt c a (asked pe prompt c a o)
asked-CallAnswer es pe prompt c a (some r) h e =
    joined-CallAnswer pe prompt c a r (is_other r c a) e refl
asked-CallAnswer es pe prompt c a none (inl idle, bound) e =
    let r = new_request pe c a in
    inl (r, (refl, refl), e, refl, refl, ap (λ (ds : List Dialog). new_dialog prompt r ∷ ds) idle.1)
asked-CallAnswer es pe prompt c a none (inr b, bound) e = absurd (clash (sym e ∙ b.active))
  where
    clash : none ≡ some b.dialog.request → ⊥
    clash z = cc

-- In any state that is reached a call of `ConfirmPresence` does one of three things. With no request
-- open it opens one for its challenge and application, with one dialog. If the open request is for
-- the same challenge and application, it gets the channel of that request, offers it more time, and
-- opens no dialog. If the open request is another one, it gets an error and changes nothing.
pub confirm_presence-CallAnswer :
    (es : List Event) (pe : Pinentry) (prompt c a : Bytes)
    → Reached es pe
    → CallAnswer pe prompt c a (confirm_presence pe prompt c a)
unfolding confirm_presence
confirm_presence-CallAnswer es pe prompt c a h =
    asked-CallAnswer es pe prompt c a pe.active_request (Reached-Audited h) refl
