-- ===== src/Fprintd/Closing.antt =====
-- fprintd/fprintd.go: when `verifyFingerprint` returns no answer.
use linux_id.Common.{
  ap, Bool, ℕ, zero, suc, ◌+◌, ◌≤◌, ◌<◌, ◌≡◌, ◌⊎◌, inl, inr, sym, ◌∙◌, true, false, Option, none,
  some, arith,
}
use linux_id.Fprintd.Scan.{
  ScanError, err_no_match, timed_out, bus_error, no_devices, nil_signal, never_ends, failed_with,
  Attempt, restart, scan, after_scan, attempts, max_attempts, Setup, verify_fingerprint,
}
use linux_id.Fprintd.Reports.{ToldBy, scan_Told}
use linux_id.Fprintd.Loop.{
  is_answer, restart_cases, after_restart-none, after_restart-some, loop_on,
  verify_fingerprint-FromLoop,
}

-- The channel of the signals is closed in an attempt from `n` on, below `m`.
abbrev pub ClosesIn : (ℕ → Attempt) → ℕ → ℕ → Type 0
ClosesIn env n m =
    (k : ℕ) × (n ≤ k) × (k < m) × (((env k).open_to_drain ≡ false) ⊎ ((env k).stays_open ≡ false))

abbrev or_true : Option ScanError → Bool
or_true none = true
or_true (some x) = is_answer x

clash : {b : Bool} → true ≡ b → b ≡ false → ⊥
clash e q = cc

module _ (env : ℕ → Attempt) where
  scan_ClosesIn :
      (left n : ℕ) (o : Option ScanError) (x : ScanError)
      → is_answer x ≡ false
      → ToldBy (env n) o
      → ((loop_on env left n err_no_match).1 ≡ some x → ClosesIn env (n + 1) (n + 1 + left))
      → (after_scan o (loop_on env left n)).1 ≡ some x
      → ClosesIn env n (n + suc left)
  scan_ClosesIn left n none x q told ih h = cc
  scan_ClosesIn left n (some err_no_match) x q told ih h =
      let (k, lo, hi, closed) = ih h in (k, omega arith, omega arith, closed)
  scan_ClosesIn left n (some timed_out) x q told ih h = absurd (clash (ap or_true h) q)
  scan_ClosesIn left n (some bus_error) x q told ih h = absurd (clash (ap or_true h) q)
  scan_ClosesIn left n (some no_devices) x q told ih h = absurd (clash (ap or_true h) q)
  scan_ClosesIn left n (some nil_signal) x q told ih h = (n, omega arith, omega arith, inr told)
  scan_ClosesIn left n (some never_ends) x q told ih h = (n, omega arith, omega arith, inl told)
  scan_ClosesIn left n (some (failed_with b)) x q told ih h = absurd (clash (ap or_true h) q)

  attempts-ClosesIn :
      (left n : ℕ) (last : Option ScanError) (x : ScanError)
      → is_answer x ≡ false
      → (last ≡ some x → ⊥)
      → (attempts left n last env).1 ≡ some x
      → ClosesIn env n (n + left)
  unfolding attempts
  attempts-ClosesIn zero n last x q p h = absurd (p h)
  attempts-ClosesIn (suc left) n last x q p h = elim (restart_cases n (env n)) [
    | inl e ↦
        scan_ClosesIn left n (scan (env n)) x q (scan_Told (env n))
          (attempts-ClosesIn left (n + 1) (some err_no_match) x q (λ z. clash (ap or_true z) q))
          (sym (after_restart-none (restart n (env n)) _ e) ∙ h)
    | inr (y, e, r, z) ↦ absurd (
        clash
          (sym z
            ∙ ap or_true (
                sym (
                  after_restart-some (restart n (env n))
                    (after_scan (scan (env n)) (loop_on env left n)) y e)
                ∙ h))
          q)
  ]

  -- `verifyFingerprint` returns no answer, since it panics or never returns, only if the bus closed
  -- the channel of the signals in one of the three attempts.
  pub verify_fingerprint-ClosesIn :
      (s : Setup) (x : ScanError)
      → is_answer x ≡ false
      → (verify_fingerprint s env).1 ≡ some x
      → ClosesIn env 1 4
  verify_fingerprint-ClosesIn s x q h = elim (verify_fingerprint-FromLoop env s) [
    | inl e ↦ attempts-ClosesIn max_attempts 1 none x q (λ z. cc) (sym e ∙ h)
    | inr (y, e, r, z) ↦ absurd (clash (sym z ∙ ap or_true (sym e ∙ h)) q)
  ]
