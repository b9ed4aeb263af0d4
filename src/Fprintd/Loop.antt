-- ===== src/Fprintd/Loop.antt =====
-- fprintd/fprintd.go: where the result of `verifyFingerprint` comes from.
use linux_id.Common.{
  Bool, ℕ, ◌+◌, ◌≡◌, ◌⊎◌, inl, inr, refl, true, false, not, Option, none, some, List, [], ◌∷◌,
  Bytes, ltb, if_cases,
}
use linux_id.Fprintd.Scan.{
  ScanError, err_no_match, timed_out, bus_error, no_devices, nil_signal, never_ends, failed_with,
  Attempt, BusCall, connect, claim, verify_start, verify_stop, release, close, restart, is_no_match,
  after_restart, attempts, max_attempts, Setup, finally, with_start, with_claim, with_devices,
  verify_fingerprint,
}

-- Whether a scan that comes to this returns an answer.
abbrev pub is_answer : ScanError → Bool
is_answer err_no_match = true
is_answer timed_out = true
is_answer bus_error = true
is_answer no_devices = true
is_answer nil_signal = false
is_answer never_ends = false
is_answer (failed_with b) = true

pub restart_cases :
    (n : ℕ) (a : Attempt)
    → ((restart n a).1 ≡ none)
      ⊎ ((e : ScanError) × ((restart n a).1 ≡ some e)
          × (is_no_match e ≡ false)
          × (is_answer e ≡ true))
unfolding restart
restart_cases n a =
    if_cases Cases (not (ltb 1 n)) _ _ (λ _. inl refl)
      λ _.
        if_cases Cases (not a.gap_passed) _ _ (λ _. inr (timed_out, refl, refl, refl))
          λ _.
            if_cases Cases (not a.restarted) _ _ (λ _. inr (bus_error, refl, refl, refl))
              (λ _. inl refl)
  where
    Cases : List BusCall × Option ScanError → Type 0
    Cases r =
        (r.1 ≡ none)
        ⊎ ((e : ScanError) × (r.1 ≡ some e) × (is_no_match e ≡ false) × (is_answer e ≡ true))

pub after_restart-none :
    (r rest : List BusCall × Option ScanError) → r.1 ≡ none → (after_restart r rest).1 ≡ rest.1
after_restart-none (cs, none) (ds, o) h = refl
after_restart-none (cs, some e) (ds, o) h = cc

pub after_restart-some :
    (r rest : List BusCall × Option ScanError) (e : ScanError)
    → r.1 ≡ some e
    → (after_restart r rest).1 ≡ some e
after_restart-some (cs, none) (ds, o) e h = cc
after_restart-some (cs, some x) (ds, o) e h = h

module _ (env : ℕ → Attempt) where
  abbrev pub loop_on : ℕ → ℕ → ScanError → List BusCall × Option ScanError
  loop_on left n e = attempts left (n + 1) (some e) env

  -- A result of the whole is a result of the loop, or an error that is not `ErrNoMatch`.
  abbrev pub FromLoop : List BusCall × Option ScanError → Type 0
  FromLoop r =
      (r.1 ≡ (attempts max_attempts 1 none env).1)
      ⊎ ((e : ScanError) × (r.1 ≡ some e) × (is_no_match e ≡ false) × (is_answer e ≡ true))

  finally-FromLoop :
      (before after : List BusCall) (r : List BusCall × Option ScanError)
      → FromLoop r
      → FromLoop (finally before after r)
  finally-FromLoop before after (calls, o) h = h

  with_start-FromLoop : (s : Setup) → FromLoop (with_start s env)
  unfolding with_start
  with_start-FromLoop s =
      if_cases FromLoop s.started _ _
        (λ _.
          finally-FromLoop (verify_start true ∷ []) (verify_stop ∷ [])
            (attempts max_attempts 1 none env) (inl refl))
        (λ _. inr (bus_error, refl, refl, refl))

  with_claim-FromLoop : (s : Setup) → FromLoop (with_claim s env)
  unfolding with_claim
  with_claim-FromLoop s =
      if_cases FromLoop s.claimed _ _
        (λ _.
          finally-FromLoop (claim true ∷ []) (release ∷ []) (with_start s env)
            (with_start-FromLoop s))
        (λ _. inr (bus_error, refl, refl, refl))

  with_devices-FromLoop : (s : Setup) (o : Option (List Bytes)) → FromLoop (with_devices s env o)
  unfolding with_devices
  with_devices-FromLoop s none = inr (bus_error, refl, refl, refl)
  with_devices-FromLoop s (some []) = inr (no_devices, refl, refl, refl)
  with_devices-FromLoop s (some (d ∷ ds)) =
      if_cases FromLoop s.match_added _ _ (λ _. with_claim-FromLoop s)
        (λ _. inr (bus_error, refl, refl, refl))

  pub verify_fingerprint-FromLoop : (s : Setup) → FromLoop (verify_fingerprint s env)
  unfolding verify_fingerprint
  verify_fingerprint-FromLoop s =
      if_cases FromLoop s.connects _ _
        (λ _.
          finally-FromLoop (connect true ∷ []) (close ∷ []) (with_devices s env s.devices)
            (with_devices-FromLoop s s.devices))
        (λ _. inr (bus_error, refl, refl, refl))
