-- ===== src/Parallel/Rest.antt =====
-- fidohid/fidohid.go and main.go: how far the goroutines go on while the device is quiet.
use linux_id.Common.{
  ℕ, zero, suc, ◌+◌, ◌≤◌, ◌<◌, ◌≡◌, refl, ◌∙◌, ◌⊎◌, inl, inr, Bool, true, false, List, some, length,
  arith,
}
use mathlib.Core.Path.{subst}
use mathlib.Core.WellFounded.{Acc}
use linux_id.Hid.Write.{Input2Request}
use linux_id.Hid.Run.{Served, quiet, event, exhausted}
use linux_id.Server.Types.{Signer, Services}
use linux_id.Parallel.System.{
  ReaderPhase, reading, holding, TransportPhase, taking, answering, offering, ServerPhase, waiting,
  replying, System, Happening, heard, passed, wrote, hidden, after_answer, remaining, Step, ignores,
  hears, takes, answers, has_answered, handles, replies, has_replied,
}

-- All that is not an event of the device.
abbrev pub IsInternal : Happening → Type 0
IsInternal (heard u) = true ≡ false
IsInternal (passed e p q) = true ≡ true
IsInternal (wrote w r ok) = true ≡ true
IsInternal hidden = true ≡ true

abbrev reader_rank : ReaderPhase → ℕ
reader_rank reading = 0
reader_rank (holding p) = 1

abbrev transport_rank : TransportPhase → ℕ
transport_rank taking = 0
transport_rank (offering e) = 1
transport_rank (answering rs served) = 2 + length rs

abbrev server_rank : ServerPhase → ℕ
server_rank waiting = 0
server_rank (replying rs) = 1 + length rs

remaining-length : (ok : Bool) (rs : List Input2Request) → length (remaining ok rs) ≤ length rs
remaining-length true rs = omega arith
remaining-length false rs = omega arith

next-rank :
    (served : Served) (next : TransportPhase)
    → after_answer served ≡ some next
    → transport_rank next < 2
next-rank quiet next e =
    let same : taking ≡ next = cc in
    subst (λ (p : TransportPhase). transport_rank p < 2) same (omega arith)
next-rank (event x) next e =
    let same : offering x ≡ next = cc in
    subst (λ (p : TransportPhase). transport_rank p < 2) same (omega arith)
next-rank exhausted next e = cc

module _ {S Dev : Type 0} (signer : Signer S) (lib : Services)
    (write_event : Dev → Input2Request → Dev × Bool) where
  -- One internal step, from `s` to `t`.
  abbrev pub Next : System S Dev → System S Dev → Type 0
  Next t s = (h : Happening) × IsInternal h × Step signer lib write_event s h t

  -- The order in which internal steps go down.
  abbrev Decreases : System S Dev → System S Dev → Type 0
  Decreases t s =
      (reader_rank t.reader < reader_rank s.reader)
      ⊎ (reader_rank t.reader ≡ reader_rank s.reader)
        × ((transport_rank t.transport_phase < transport_rank s.transport_phase)
            ⊎ (transport_rank t.transport_phase ≡ transport_rank s.transport_phase)
              × (server_rank t.server_phase < server_rank s.server_phase))

  Step-Decreases :
      {s t : System S Dev} {h : Happening}
      → IsInternal h
      → Step signer lib write_event s h t
      → Decreases t s
  Step-Decreases i (ignores r) = cc
  Step-Decreases i (hears b r) = cc
  Step-Decreases {s} i (takes p r k) = inl (rw r (omega arith))
  Step-Decreases {s} i (answers r rs served k) =
      inr (refl, inl (rw k (omega (arith, remaining-length (write_event s.device r).1 rs))))
  Step-Decreases {s} i (has_answered served next k n) =
      inr (refl, inl (rw k (omega (arith, next-rank served next n))))
  Step-Decreases {s} i (handles e p q k m g) = inr (refl, inl (rw k (omega arith)))
  Step-Decreases {s} i (replies r rs k) =
      inr (refl, inr (refl, rw k (omega (arith, remaining-length (write_event s.device r).1 rs))))
  Step-Decreases {s} i (has_replied k) = inr (refl, inr (refl, rw k (omega arith)))

  abbrev Rests : System S Dev → Type 0
  Rests s = Acc Next s

  -- What the three components of the order allow to assume.
  abbrev ReaderBelow : System S Dev → Type 0
  ReaderBelow s = (t : System S Dev) → reader_rank t.reader < reader_rank s.reader → Rests t

  abbrev TransportBelow : System S Dev → Type 0
  TransportBelow s =
      (t : System S Dev)
      → reader_rank t.reader ≡ reader_rank s.reader
      → transport_rank t.transport_phase < transport_rank s.transport_phase
      → Rests t

  Rests-below :
      (s : System S Dev) {t : System S Dev}
      → ReaderBelow s
      → TransportBelow s
      → ((t : System S Dev)
          → reader_rank t.reader ≡ reader_rank s.reader
          → transport_rank t.transport_phase ≡ transport_rank s.transport_phase
          → server_rank t.server_phase < server_rank s.server_phase
          → Rests t)
      → Decreases t s
      → Rests t
  Rests-below s {t} f g h (inl l) = f t l
  Rests-below s {t} f g h (inr (e, inl l)) = g t e l
  Rests-below s {t} f g h (inr (e, inr (d, l))) = h t e d l

  server-Rests :
      (n : ℕ) (s : System S Dev)
      → server_rank s.server_phase < n
      → ReaderBelow s
      → TransportBelow s
      → Rests s
  server-Rests zero s l f g = absurd (omega arith)
  server-Rests (suc n) s l f g = Acc.intro s (λ t (h, i, st).
      Rests-below s f g
        (λ u e d m.
          server-Rests n u (omega arith) (λ v k. f v (omega arith))
            (λ v k j. g v (k ∙ e) (omega arith)))
        (Step-Decreases i st))

  transport-Rests :
      (n : ℕ) (s : System S Dev) → transport_rank s.transport_phase < n → ReaderBelow s → Rests s
  transport-Rests zero s l f = absurd (omega arith)
  transport-Rests (suc n) s l f =
      server-Rests (suc (server_rank s.server_phase)) s (omega arith) f
        (λ t e m. transport-Rests n t (omega arith) (λ u k. f u (omega arith)))

  reader-Rests : (n : ℕ) (s : System S Dev) → reader_rank s.reader < n → Rests s
  reader-Rests zero s l = absurd (omega arith)
  reader-Rests (suc n) s l =
      transport-Rests (suc (transport_rank s.transport_phase)) s (omega arith)
        (λ t m. reader-Rests n t (omega arith))

  -- Between two events of the device the goroutines take finitely many steps, in every order, whatever
  -- the device accepts and whatever the user answers.
  pub Next-Acc : (s : System S Dev) → Acc Next s
  Next-Acc s = reader-Rests (suc (reader_rank s.reader)) s (omega arith)
