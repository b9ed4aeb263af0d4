-- ===== src/Fprintd/Verdicts.antt =====
-- fprintd/fprintd.go: what an answer of `verifyFingerprint` says about the signals of the reader.
use mathlib.Core.Path.{subst}
use linux_id.Common.{
  ◌==◌, ==_iff, ℕ, zero, suc, ◌+◌, ◌≤◌, ◌<◌, ◌≡◌, inl, inr, sym, ◌∙◌, false, Option, none, some,
  Bool-cases, arith,
}
use linux_id.Fprintd.Scan.{
  ScanError, err_no_match, timed_out, bus_error, no_devices, nil_signal, never_ends, failed_with,
  Attempt, restart, scan, is_no_match, after_scan, attempts, max_attempts, Setup,
  verify_fingerprint,
}
use linux_id.Fprintd.Reports.{Reports, match_status, no_match_status, ToldBy, scan_Told}
use linux_id.Fprintd.Loop.{
  restart_cases, after_restart-none, after_restart-some, loop_on, verify_fingerprint-FromLoop,
}

-- Every attempt from `n` on, up to `m`, ended without a match.
abbrev pub AllFailed : (ℕ → Attempt) → ℕ → ℕ → Type 0
AllFailed env n m = (j : ℕ) → n ≤ j → j < m → Reports (env j) no_match_status

-- The first attempt from `n` on, below `m`, that did not end without a match ended with one.
abbrev pub Matches : (ℕ → Attempt) → ℕ → ℕ → Type 0
Matches env n m = (k : ℕ) × (n ≤ k) × (k < m) × Reports (env k) match_status × AllFailed env n k

AllFailed-cons :
    (env : ℕ → Attempt) (n m : ℕ)
    → Reports (env n) no_match_status
    → AllFailed env (n + 1) m
    → AllFailed env n m
AllFailed-cons env n m first rest j lo hi = elim (Bool-cases (j == n)) [
  | inl e ↦ subst (λ (i : ℕ). Reports (env i) no_match_status) (sym ((==_iff j n).0 e)) first
  | inr e ↦ rest j (ground arith) hi
]

module _ (env : ℕ → Attempt) where
  scan_Matches :
      (left n : ℕ) (o : Option ScanError)
      → ToldBy (env n) o
      → ((loop_on env left n err_no_match).1 ≡ none → Matches env (n + 1) (n + 1 + left))
      → (after_scan o (loop_on env left n)).1 ≡ none
      → Matches env n (n + suc left)
  scan_Matches left n none told ih h =
      (n, omega arith, omega arith, told, λ j lo hi. absurd (omega arith))
  scan_Matches left n (some err_no_match) told ih h =
      let (k, lo, hi, now, before) = ih h in
      (k, omega arith, omega arith, now, AllFailed-cons env n k told before)
  scan_Matches left n (some timed_out) told ih h = cc
  scan_Matches left n (some bus_error) told ih h = cc
  scan_Matches left n (some no_devices) told ih h = cc
  scan_Matches left n (some nil_signal) told ih h = cc
  scan_Matches left n (some never_ends) told ih h = cc
  scan_Matches left n (some (failed_with b)) told ih h = cc

  attempts-Matches :
      (left n : ℕ) (last : Option ScanError)
      → (last ≡ none → 0 < left)
      → (attempts left n last env).1 ≡ none
      → Matches env n (n + left)
  unfolding attempts
  attempts-Matches zero n last p h = absurd (omega (arith, p h))
  attempts-Matches (suc left) n last p h = elim (restart_cases n (env n)) [
    | inl e ↦
        scan_Matches left n (scan (env n)) (scan_Told (env n))
          (attempts-Matches left (n + 1) (some err_no_match) (λ z. cc))
          (sym (after_restart-none (restart n (env n)) _ e) ∙ h)
    | inr (x, e, q, z) ↦ cc (
        after_restart-some (restart n (env n)) (after_scan (scan (env n)) (loop_on env left n)) x e)
  ]

  scan_AllFailed :
      (left n : ℕ) (o : Option ScanError)
      → ToldBy (env n) o
      → ((loop_on env left n err_no_match).1 ≡ some err_no_match
          → AllFailed env (n + 1) (n + 1 + left))
      → (after_scan o (loop_on env left n)).1 ≡ some err_no_match
      → AllFailed env n (n + suc left)
  scan_AllFailed left n none told ih h = cc
  scan_AllFailed left n (some err_no_match) told ih h =
      AllFailed-cons env n (n + suc left) told (λ j lo hi. ih h j lo (omega arith))
  scan_AllFailed left n (some timed_out) told ih h = cc
  scan_AllFailed left n (some bus_error) told ih h = cc
  scan_AllFailed left n (some no_devices) told ih h = cc
  scan_AllFailed left n (some nil_signal) told ih h = cc
  scan_AllFailed left n (some never_ends) told ih h = cc
  scan_AllFailed left n (some (failed_with b)) told ih h = cc

  attempts-AllFailed :
      (left n : ℕ) (last : Option ScanError)
      → (attempts left n last env).1 ≡ some err_no_match
      → AllFailed env n (n + left)
  unfolding attempts
  attempts-AllFailed zero n last h = λ j lo hi. absurd (omega arith)
  attempts-AllFailed (suc left) n last h = elim (restart_cases n (env n)) [
    | inl e ↦
        scan_AllFailed left n (scan (env n)) (scan_Told (env n))
          (attempts-AllFailed left (n + 1) (some err_no_match))
          (sym (after_restart-none (restart n (env n)) _ e) ∙ h)
    | inr (x, e, q, z) ↦ cc (
        after_restart-some (restart n (env n)) (after_scan (scan (env n)) (loop_on env left n)) x e)
  ]

  -- `verifyFingerprint` succeeds only if one of its three attempts settled in time and then had
  -- `verify-match` as the first final status of the reader, while every attempt before it had
  -- `verify-no-match`; signals that were in the channel when it was drained do not count.
  pub verify_fingerprint-Matches :
      (s : Setup) → (verify_fingerprint s env).1 ≡ none → Matches env 1 4
  verify_fingerprint-Matches s h = elim (verify_fingerprint-FromLoop env s) [
    | inl e ↦ attempts-Matches max_attempts 1 none (λ z. omega arith) (sym e ∙ h)
    | inr (x, e, q, z) ↦ cc
  ]

  -- `verifyFingerprint` answers with `ErrNoMatch` only if all three attempts settled in time and had
  -- `verify-no-match` as the first final status of the reader.
  pub verify_fingerprint-AllFailed :
      (s : Setup) → (verify_fingerprint s env).1 ≡ some err_no_match → AllFailed env 1 4
  verify_fingerprint-AllFailed s h = elim (verify_fingerprint-FromLoop env s) [
    | inl e ↦ attempts-AllFailed max_attempts 1 none (sym e ∙ h)
    | inr (x, e, q, z) ↦ absurd (other_error x q (sym e ∙ h))
  ]
    where
      other_error : (x : ScanError) → is_no_match x ≡ false → some x ≡ some err_no_match → ⊥
      other_error x q z = cc
