-- ===== src/Tests/Scan.antt =====
-- The theorems on the fingerprint reader, applied: a finger that matches in the second attempt.
use linux_id.Common.{
  first, ◌+◌, ℕ, ◌≡◌, refl, Bool, true, false, none, some, [], ◌∷◌, codes, ltb, if◌then◌else◌,
}
use linux_id.Fprintd.Scan.{
  Body, text, boolean, Attempt, Setup, status_of_text, process_verify_status,
  wait_for_verify_result, drain_signals, restart, scan, attempts, with_start, with_claim,
  with_devices, verify_fingerprint,
}
use linux_id.Fprintd.Verdicts.{verify_fingerprint-Matches}
use linux_id.Fprintd.User.{fprintd_verdict, Verdict, verify_fingerprint-Verdict}
use linux_id.Fprintd.Sharing.{
  running, scanned, Fprintd, new_fprintd, verify_presence, asked, ended, calls, scan_ends,
  ShareReached, started, stepped,
}
use linux_id.Fprintd.Counts.{is_made, to_come, in_buffer, in_events, ShareReached-is_made}
use linux_id.Fprintd.OpenScans.{verify_presence-to_come}
use linux_id.Fprintd.Protocol.{nothing, use_calls, verify_fingerprint-use_calls}
use linux_id.Fprintd.Success.{verify_fingerprint-none}

abbrev signal : Bool → Body
signal matched =
    (if matched then text (codes "verify-match") else text (codes "verify-no-match"))
    ∷ boolean true
    ∷ []

-- A signal from before the attempt, a scan that goes on, and the verdict.
abbrev attempt : Bool → Attempt
attempt matched = record {
  gap_passed = true;
  restarted = true;
  settled = true;
  queued = signal false ∷ [];
  signals = (text (codes "verify-retry-scan") ∷ boolean false ∷ []) ∷ signal matched ∷ [];
  open_to_drain = true;
  stays_open = true;
}

abbrev env : ℕ → Attempt
env n = attempt (ltb 1 n)

abbrev setup : Setup
setup = record {
  connects = true;
  devices = some (codes "/net/reactivated/Fprint/Device/0" ∷ []);
  match_added = true;
  claimed = true;
  started = true;
}

verify_fingerprint-Verdict_example : Verdict env (fprintd_verdict (verify_fingerprint setup env).1)
verify_fingerprint-Verdict_example = verify_fingerprint-Verdict setup env

verify_fingerprint-none_example : (verify_fingerprint setup env).1 ≡ none
unfolding verify_fingerprint with_devices with_claim with_start attempts restart scan drain_signals
    wait_for_verify_result process_verify_status status_of_text
verify_fingerprint-none_example =
    verify_fingerprint-none setup env
      (record {
        connects = refl;
        found = (_, _, refl);
        match_added = refl;
        claimed = refl;
        started = refl;
      })
      (λ j. (refl, refl)) (verify_fingerprint-Matches env setup refl)

-- A call, and the end of its scan.
abbrev scanning : Fprintd
scanning = record {
  active = some 0;
  fresh = 1;
  scans = record { channel = 0; phase = running } ∷ [];
  buffered = [];
}

abbrev matched : Fprintd
matched = record scanning { scans = record { channel = 0; phase = scanned true } ∷ [] }

matched_reached : ShareReached (ended 0 true ∷ asked 0 ∷ []) matched
unfolding verify_presence new_fprintd
matched_reached =
    stepped (asked 0 ∷ []) scanning (ended 0 true) matched
      (stepped [] new_fprintd (asked 0) scanning started calls)
      (scan_ends 0 true [] (first (record { channel = 0; phase = running }) []))

ShareReached-is_made_example :
    to_come 0 matched.scans + (in_buffer 0 [] + in_events 0 (ended 0 true ∷ asked 0 ∷ []))
    ≡ is_made 0 1
ShareReached-is_made_example =
    ShareReached-is_made (ended 0 true ∷ asked 0 ∷ []) matched 0 matched_reached

verify_presence-to_come_example :
    let c = (verify_presence matched).1 in
    (to_come c (verify_presence matched).0.scans ≡ 1)
    × (in_buffer c (verify_presence matched).0.buffered ≡ 0)
    × (in_events c (ended 0 true ∷ asked 0 ∷ []) ≡ 0)
verify_presence-to_come_example =
    verify_presence-to_come (ended 0 true ∷ asked 0 ∷ []) matched matched_reached

verify_fingerprint-use_calls_example :
    use_calls nothing (verify_fingerprint setup env).0 ≡ some nothing
unfolding verify_fingerprint with_devices with_claim with_start attempts restart scan drain_signals
    wait_for_verify_result process_verify_status status_of_text
verify_fingerprint-use_calls_example = verify_fingerprint-use_calls setup env refl
