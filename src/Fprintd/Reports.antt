-- ===== src/Fprintd/Reports.antt =====
-- fprintd/fprintd.go: what one attempt says about the signals of the reader.
use mathlib.Core.Path.{subst}
use linux_id.Common.{
  Bool-cases, ap, sym, ◌∙◌, ℕ, ltb→lt, not_true→false, not_false→true, ◌≤◌, ◌<◌, ◌≡◌, ◌⊎◌, inl, inr,
  refl, Bool, true, false, not, Option, none, some, List, [], ◌∷◌, Bytes, codes, length, get_elem?,
  ltb, ltb_false→le, bytes_equal, bytes_equal→eq, if_cases,
}
use linux_id.Fprintd.Scan.{
  Body, as_text, as_bool, ScanError, err_no_match, timed_out, bus_error, no_devices, failed_with,
  status_of_text, process_verify_status, after_status, wait_for_verify_result, drain_signals,
  nil_signal, never_ends, one_more, after_drain, Attempt, scan,
}

-- A signal with a final status.
pub record IsFinal (body : Body) (status : Bytes) : Type 0 where
  pub long_enough : 2 ≤ length body
  pub flag : as_bool (get_elem? body 1) ≡ true
  pub name : as_text (get_elem? body 0) ≡ status

-- A signal that is not a final status: it is too short, or it says that the scan goes on.
abbrev pub IsInterim : Body → Type 0
IsInterim body = (length body < 2) ⊎ (as_bool (get_elem? body 1) ≡ false)

-- The first final status among the signals.
pub data Ends : List Body → Bytes → Type 0 where
  here :
      {body : Body} {rest : List Body} {status : Bytes}
      → IsFinal body status
      → Ends (body ∷ rest) status
  later :
      {body : Body} {rest : List Body} {status : Bytes}
      → IsInterim body
      → Ends rest status
      → Ends (body ∷ rest) status

-- The reader settled in time, the channel was open to be drained, and the first final status after
-- it was drained.
abbrev pub Reports : Attempt → Bytes → Type 0
Reports a status = (a.settled ≡ true) × (a.open_to_drain ≡ true) × Ends a.signals status

abbrev pub match_status : Bytes
match_status = codes "verify-match"

abbrev pub no_match_status : Bytes
no_match_status = codes "verify-no-match"

-- What an outcome of the wait says of the signals.
abbrev Explains : Bool → List Body → Option ScanError → Type 0
Explains w signals none = Ends signals match_status
Explains w signals (some err_no_match) = Ends signals no_match_status
Explains w signals (some timed_out) = Unit {0}
Explains w signals (some bus_error) = Unit {0}
Explains w signals (some no_devices) = Unit {0}
Explains w signals (some nil_signal) = w ≡ false
Explains w signals (some never_ends) = ⊥
Explains w signals (some (failed_with b)) = Ends signals b

Explains-later :
    (w : Bool) (body : Body) (rest : List Body) (o : Option ScanError)
    → IsInterim body
    → Explains w rest o
    → Explains w (body ∷ rest) o
Explains-later w body rest none i e = later i e
Explains-later w body rest (some err_no_match) i e = later i e
Explains-later w body rest (some timed_out) i e = tt
Explains-later w body rest (some bus_error) i e = tt
Explains-later w body rest (some no_devices) i e = tt
Explains-later w body rest (some nil_signal) i e = e
Explains-later w body rest (some never_ends) i e = e
Explains-later w body rest (some (failed_with b)) i e = later i e

abbrev Told : Bool → Body → List Body → Option ScanError → Bool × Bool × Option ScanError → Type 0
Told w body rest o t = Explains w (body ∷ rest) (after_status t o)

status-Explains :
    (w : Bool) (body : Body) (rest : List Body) (status : Bytes) (o : Option ScanError)
    → IsFinal body status
    → Explains w (body ∷ rest) (after_status (status_of_text status) o)
unfolding status_of_text
status-Explains w body rest status o f =
    if_cases (Told w body rest o) (bytes_equal status match_status) _ _
      (λ e. here (subst (IsFinal body) (bytes_equal→eq status match_status e) f))
      λ _.
        if_cases (Told w body rest o) (bytes_equal status no_match_status) _ _
          (λ e. here (subst (IsFinal body) (bytes_equal→eq status no_match_status e) f))
          (λ _. here f)

wait-Explains :
    (w : Bool) (signals : List Body) → Explains w signals (wait_for_verify_result w signals)
unfolding wait_for_verify_result process_verify_status
wait-Explains true [] = tt
wait-Explains false [] = refl
wait-Explains w (body ∷ rest) =
    let o = wait_for_verify_result w rest in
    let ih = wait-Explains w rest in
    if_cases (Told w body rest o) (ltb (length body) 2) _ _
      (λ short. Explains-later w body rest o (inl (ltb→lt _ _ short)) ih)
      λ long.
        if_cases (Told w body rest o) (not (as_bool (get_elem? body 1))) _ _
          (λ e. Explains-later w body rest o (inr (not_true→false _ e)) ih)
          (λ e. status-Explains w body rest (as_text (get_elem? body 0)) o (record {
            long_enough = ltb_false→le _ _ long;
            flag = not_false→true _ e;
            name = refl;
          }))

-- All signals are dropped from an open channel, and a closed one is never drained.
pub drained : (queue : List Body) → drain_signals true queue ≡ some (length queue, [])
unfolding drain_signals
drained [] = refl
drained (s ∷ queue) = ap one_more (drained queue)

closed-drain_signals : (queue : List Body) → drain_signals false queue ≡ none
unfolding drain_signals
closed-drain_signals [] = refl
closed-drain_signals (s ∷ queue) = ap one_more (closed-drain_signals queue)

-- What an outcome of the attempt says of its signals.
abbrev pub ToldBy : Attempt → Option ScanError → Type 0
ToldBy a none = Reports a match_status
ToldBy a (some err_no_match) = Reports a no_match_status
ToldBy a (some timed_out) = Unit {0}
ToldBy a (some bus_error) = Unit {0}
ToldBy a (some no_devices) = Unit {0}
ToldBy a (some nil_signal) = a.stays_open ≡ false
ToldBy a (some never_ends) = a.open_to_drain ≡ false
ToldBy a (some (failed_with b)) = Reports a b

drained_Told :
    (a : Attempt) (o : Option ScanError)
    → a.settled ≡ true
    → a.open_to_drain ≡ true
    → Explains a.stays_open a.signals o
    → ToldBy a o
drained_Told a none e d h = (e, d, h)
drained_Told a (some err_no_match) e d h = (e, d, h)
drained_Told a (some timed_out) e d h = tt
drained_Told a (some bus_error) e d h = tt
drained_Told a (some no_devices) e d h = tt
drained_Told a (some nil_signal) e d h = h
drained_Told a (some never_ends) e d h = absurd h
drained_Told a (some (failed_with b)) e d h = (e, d, h)

settled_Told :
    (a : Attempt)
    → a.settled ≡ true
    → ToldBy a (after_drain a (drain_signals a.open_to_drain a.queued))
settled_Told a e = elim (Bool-cases a.open_to_drain) [
  | inl d ↦
      subst Goal (sym (ap (λ (b : Bool). drain_signals b a.queued) d ∙ drained a.queued))
        (drained_Told a _ e d (wait-Explains a.stays_open a.signals))
  | inr d ↦
      subst Goal
        (sym (ap (λ (b : Bool). drain_signals b a.queued) d ∙ closed-drain_signals a.queued)) d
]
  where
    Goal : Option (ℕ × List Body) → Type 0
    Goal o = ToldBy a (after_drain a o)

pub scan_Told : (a : Attempt) → ToldBy a (scan a)
unfolding scan
scan_Told a =
    if_cases (ToldBy a) (not a.settled) _ _ (λ _. tt)
      (λ e. settled_Told a (not_false→true a.settled e))
