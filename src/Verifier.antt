-- ===== src/Verifier.antt =====
-- main.go: `UserVerifier`, its two implementations, and the cache of a recent success. The prompt's
-- text reaches only the dialog, and is left out.
pub mod Laws
use linux_id.Common.{
  ℕ, ◌-◌, ◌*◌, ◌^◌, Bool, true, false, Option, none, some, ltb, not, if◌then◌else◌,
}
use linux_id.Ctap2.Types.{status_uv_invalid, status_operation_denied}

pub data VerifyFailureReason : Type 0 where
  unspecified no_match : VerifyFailureReason

-- `error` says whether the field `Error` is set; the handlers only log it.
pub record VerifyResult : Type 0 where
  pub ok : Bool
  pub reason : VerifyFailureReason
  pub error : Bool

abbrev status_of_reason : VerifyFailureReason → ℕ
status_of_reason no_match = status_uv_invalid
status_of_reason unspecified = status_operation_denied

unfoldable pub status_for_failure : VerifyResult → ℕ
status_for_failure r = status_of_reason r.reason

-- The verifier that `--auth` configures.
pub data UserVerifier : Type 0 where
  pinentry fprintd : UserVerifier

unfoldable pub performs_uv : UserVerifier → Bool
performs_uv pinentry = false
performs_uv fprintd = true

-- The result of a dialog: whether it was confirmed, and whether an error came with it.
unfoldable pub pinentry_result : Bool → Bool → VerifyResult
pinentry_result ok error = record { ok = ok; reason = unspecified; error = error }

-- What a fingerprint scan ends with: `none` is success, and an error is `ErrNoMatch` or another.
pub data FprintdError : Type 0 where
  err_no_match other_error : FprintdError

unfoldable pub fprintd_result : Option FprintdError → VerifyResult
fprintd_result none = record { ok = true; reason = unspecified; error = false }
fprintd_result (some err_no_match) = record { ok = false; reason = no_match; error = true }
fprintd_result (some other_error) = record { ok = false; reason = unspecified; error = true }

-- Five seconds, in nanoseconds.
abbrev pub uv_cache_ttl : ℕ
uv_cache_ttl = 5000000000

-- Times are nanoseconds of the monotonic clock; `last_ok` is `none` while it is the zero time.
pub record CachingVerifier : Type 0 where
  pub inner : UserVerifier
  pub ttl : ℕ
  pub last_ok : Option ℕ

unfoldable pub new_caching_verifier : UserVerifier → CachingVerifier
new_caching_verifier inner = record { inner = inner; ttl = uv_cache_ttl; last_ok = none }

unfoldable pub caching_performs_uv : CachingVerifier → Bool
caching_performs_uv v = performs_uv v.inner

-- `!v.lastOK.IsZero() && v.now().Sub(v.lastOK) < v.ttl`
unfoldable pub is_cached : CachingVerifier → ℕ → Bool
is_cached v now = elim v.last_ok [ none ↦ false | some t ↦ ltb (now - t) v.ttl ]

-- The goroutine that waits for the inner verifier: a success is noted with its time.
unfoldable pub note_result : CachingVerifier → ℕ → VerifyResult → CachingVerifier
note_result v now r = if r.ok then record v { last_ok = some now } else v

-- What the surroundings do for one call: when it comes, whether the inner verifier starts, and the
-- result, with its time, that arrives before the handler's 35 seconds are over.
pub record Prompt : Type 0 where
  pub now : ℕ
  pub starts : Bool
  pub result : Option (ℕ × VerifyResult)

-- What the handler's `select` sees.
pub data Answer : Type 0 where
  could_not_start : Answer
  answered : VerifyResult → Answer
  timed_out : Answer

abbrev pub cached_success : VerifyResult
cached_success = record { ok = true; reason = unspecified; error = false }

unfoldable pub wait_for : CachingVerifier → Option (ℕ × VerifyResult) → CachingVerifier × Answer
wait_for v none = (v, timed_out)
wait_for v (some (t, r)) = (note_result v t r, answered r)

-- `VerifyUser` and the `select` on its channel. A result that comes after the handler's time-out is
-- a `note_result` of its own.
unfoldable pub verify_user : CachingVerifier → Prompt → CachingVerifier × Answer
verify_user v p =
    if is_cached v p.now
    then (v, answered cached_success)
    else if p.starts
    then wait_for v p.result
    else (v, could_not_start)
