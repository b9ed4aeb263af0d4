-- ===== src/Fprintd/Success.antt =====
-- fprintd/fprintd.go: which signals lead `verifyFingerprint` to success.
use linux_id.Common.{
  Bool, Bool-cases, ◌==◌, ==_iff, ℕ, zero, suc, ◌+◌, ◌≤◌, ◌<◌, ◌≡◌, inl, inr, refl, ◌∙◌, true,
  false, Option, none, some, List, ◌∷◌, Bytes, length, le→ltb_false, lt→ltb, arith,
}
use linux_id.Fprintd.Scan.{
  Body, ScanError, err_no_match, status_of_text, process_verify_status, after_status,
  wait_for_verify_result, Attempt, restart, scan, attempts, max_attempts, Setup, with_start,
  with_claim, with_devices, verify_fingerprint,
}
use linux_id.Fprintd.Reports.{
  IsFinal, IsInterim, Ends, here, later, Reports, match_status, no_match_status, drained,
}
use linux_id.Fprintd.Loop.{after_restart-none}
use linux_id.Fprintd.Verdicts.{AllFailed, Matches}

interim_status : (body : Body) → IsInterim body → process_verify_status body ≡ (false, false, none)
unfolding process_verify_status
interim_status body (inl short) = rw (lt→ltb _ _ short)
interim_status body (inr more) = rw more (ground arith)

final_status :
    (body : Body) (status : Bytes)
    → IsFinal body status
    → process_verify_status body ≡ status_of_text status
unfolding process_verify_status
final_status body status f = rw (le→ltb_false (length body) 2 f.long_enough, f.flag, f.name)

-- The error of a final status, whatever signals follow.
final_result :
    (status : Bytes) (rest : Option ScanError)
    → after_status (status_of_text status) rest ≡ (status_of_text status).2
unfolding status_of_text
final_result status rest = ground arith

wait_result :
    {l : List Body} {status : Bytes} (w : Bool)
    → Ends l status
    → wait_for_verify_result w l ≡ (status_of_text status).2
unfolding wait_for_verify_result
wait_result w (here {body} {rest} {status} f) =
    rw (final_status body status f) (final_result status (wait_for_verify_result w rest))
wait_result w (later {body} {rest} {status} i e) = rw (interim_status body i) (wait_result w e)

scan_result : (a : Attempt) (status : Bytes) → Reports a status → scan a ≡ (status_of_text status).2
unfolding scan
scan_result a status (settled, is_open, e) =
    rw (settled, is_open, drained a.queued) (wait_result a.stays_open e)

match_result : (status_of_text match_status).2 ≡ none
unfolding status_of_text
match_result = refl

no_match_result : (status_of_text no_match_status).2 ≡ some err_no_match
unfolding status_of_text
no_match_result = refl

-- No attempt misses the deadline before it waits, and every restart succeeds.
abbrev pub Steady : (ℕ → Attempt) → Type 0
Steady env = (j : ℕ) → ((env j).gap_passed ≡ true) × ((env j).restarted ≡ true)

restart_steady :
    (n : ℕ) (a : Attempt) → a.gap_passed ≡ true → a.restarted ≡ true → (restart n a).1 ≡ none
unfolding restart
restart_steady n a g r = rw (g, r) (ground arith)

attempts-none :
    (env : ℕ → Attempt) (left n k : ℕ) (last : Option ScanError)
    → Steady env
    → n ≤ k
    → k < n + left
    → Reports (env k) match_status
    → AllFailed env n k
    → (attempts left n last env).1 ≡ none
unfolding attempts
attempts-none env zero n k last steady lo hi now before = absurd (omega arith)
attempts-none env (suc left) n k last steady lo hi now before =
    after_restart-none (restart n (env n)) _ (restart_steady n (env n) (steady n).0 (steady n).1)
    ∙ elim (Bool-cases (n == k)) [
      | inl e ↦
          let here : n ≡ k = (==_iff n k).0 e in
          let matched : scan (env n) ≡ none =
            rw here (scan_result (env k) match_status now ∙ match_result) in
          rw matched
      | inr e ↦
          let below : n < k = ground arith in
          let missed : scan (env n) ≡ some err_no_match =
            scan_result (env n) no_match_status (before n (omega arith) below) ∙ no_match_result in
          rw missed (
            attempts-none env left (n + 1) k (some err_no_match) steady (omega arith) (omega arith)
              now (λ j l h. before j (omega arith) h))
    ]

-- Every call of the bus succeeds, and there is a reader.
pub record IsReady (s : Setup) : Type 0 where
  pub connects : s.connects ≡ true
  pub found : (d : Bytes) × (ds : List Bytes) × (s.devices ≡ some (d ∷ ds))
  pub match_added : s.match_added ≡ true
  pub claimed : s.claimed ≡ true
  pub started : s.started ≡ true

-- If every call succeeds and no attempt misses the deadline before it waits, and one of the three
-- attempts has `verify-match` as its first final status after attempts that had `verify-no-match`,
-- `verifyFingerprint` succeeds, whatever else the reader signals.
pub verify_fingerprint-none :
    (s : Setup) (env : ℕ → Attempt)
    → IsReady s
    → Steady env
    → Matches env 1 4
    → (verify_fingerprint s env).1 ≡ none
unfolding verify_fingerprint with_devices with_claim with_start
verify_fingerprint-none s env ready steady (k, lo, hi, now, before) =
    let (d, ds, found) = ready.found in
    rw (ready.connects, found, ready.match_added, ready.claimed, ready.started)
      (attempts-none env max_attempts 1 k none steady lo (omega arith) now before)
