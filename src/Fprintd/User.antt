-- ===== src/Fprintd/User.antt =====
-- main.go: `VerifyUser` of the verifier by fingerprint, on what fprintd/fprintd.go answers.
use linux_id.Common.{ℕ, ◌≡◌, ◌⊎◌, inl, inr, refl, true, false, Option, none, some}
use linux_id.Ctap2.Types.{status_uv_invalid, status_operation_denied}
use linux_id.Verifier.{FprintdError, other_error, VerifyResult, fprintd_result, status_for_failure}
use linux_id.Verifier
use linux_id.Fprintd.Scan.{
  Attempt, ScanError, err_no_match, timed_out, bus_error, no_devices, nil_signal, never_ends,
  failed_with, Setup, verify_fingerprint,
}
use linux_id.Fprintd.Verdicts.{
  Matches, AllFailed, verify_fingerprint-Matches, verify_fingerprint-AllFailed,
}
use linux_id.Fprintd.Loop.{is_answer}
use linux_id.Fprintd.Closing.{ClosesIn, verify_fingerprint-ClosesIn}

-- `errors.Is(r.Error, fprintd.ErrNoMatch)`; `none` is a scan without an answer.
abbrev pub error_kind : ScanError → Option FprintdError
error_kind err_no_match = some Verifier.err_no_match
error_kind timed_out = some other_error
error_kind bus_error = some other_error
error_kind no_devices = some other_error
error_kind nil_signal = none
error_kind never_ends = none
error_kind (failed_with b) = some other_error

abbrev pub kind_result : Option FprintdError → Option VerifyResult
kind_result none = none
kind_result (some kind) = some (fprintd_result (some kind))

-- The goroutine that turns what the scan ends with into the result of the verifier; `none` is that it
-- gets no answer.
unfoldable pub fprintd_verdict : Option ScanError → Option VerifyResult
fprintd_verdict none = some (fprintd_result none)
fprintd_verdict (some e) = kind_result (error_kind e)

-- The three results, or none, and what they say of the attempts.
abbrev pub Verdict : (ℕ → Attempt) → Option VerifyResult → Type 0
Verdict env none = ClosesIn env 1 4
Verdict env (some r) =
    ((r.ok ≡ true) × Matches env 1 4)
    ⊎ (((r.ok ≡ false) × (status_for_failure r ≡ status_uv_invalid) × AllFailed env 1 4)
        ⊎ ((r.ok ≡ false) × (status_for_failure r ≡ status_operation_denied)))

fprintd_verdict-Verdict :
    (env : ℕ → Attempt) (o : Option ScanError)
    → (o ≡ none → Matches env 1 4)
    → (o ≡ some err_no_match → AllFailed env 1 4)
    → ((e : ScanError) → is_answer e ≡ false → o ≡ some e → ClosesIn env 1 4)
    → Verdict env (fprintd_verdict o)
unfolding fprintd_verdict fprintd_result status_for_failure
fprintd_verdict-Verdict env none m f g = inl (refl, m refl)
fprintd_verdict-Verdict env (some err_no_match) m f g = inr (inl (refl, refl, f refl))
fprintd_verdict-Verdict env (some timed_out) m f g = inr (inr (refl, refl))
fprintd_verdict-Verdict env (some bus_error) m f g = inr (inr (refl, refl))
fprintd_verdict-Verdict env (some no_devices) m f g = inr (inr (refl, refl))
fprintd_verdict-Verdict env (some nil_signal) m f g = g nil_signal refl refl
fprintd_verdict-Verdict env (some never_ends) m f g = g never_ends refl refl
fprintd_verdict-Verdict env (some (failed_with b)) m f g = inr (inr (refl, refl))

-- A verification by fingerprint succeeds only if one of its three attempts settled in time and then
-- had `verify-match` as the first final status of the reader, while every attempt before it had
-- `verify-no-match`; signals from before an attempt was drained do not count. A failure is reported
-- as `status_uv_invalid`, and then all three attempts settled in time and had `verify-no-match`, or as
-- `status_operation_denied`. There is no result only if the bus closed the channel of the signals in
-- one of the attempts.
pub verify_fingerprint-Verdict :
    (s : Setup) (env : ℕ → Attempt) → Verdict env (fprintd_verdict (verify_fingerprint s env).1)
verify_fingerprint-Verdict s env =
    fprintd_verdict-Verdict env (verify_fingerprint s env).1 (verify_fingerprint-Matches env s)
      (verify_fingerprint-AllFailed env s) (verify_fingerprint-ClosesIn env s)
