-- ===== src/Fprintd/Protocol.antt =====
-- fprintd/fprintd.go: what the calls of `verifyFingerprint` take and give back.
use linux_id.Common.{
  ℕ, zero, suc, ◌+◌, ◌≡◌, refl, true, false, not, Option, none, some, List, [], ◌∷◌, ◌++◌, Bytes,
  ltb, if_cases,
}
use linux_id.Fprintd.Scan.{
  ScanError, Attempt, BusCall, connect, claim, verify_start, verify_stop, release, close, restart,
  scan, is_no_match, after_scan, after_restart, attempts, max_attempts, Setup, runs_on, finally,
  with_start, with_claim, with_devices, verify_fingerprint,
}

-- What the program holds: nothing, a connection, a claimed reader, a reader that scans.
pub data Held : Type 0 where
  nothing connection reader scanning : Held

-- What one call takes or gives back. `none` is a breach: a call without what it needs, a second claim
-- or start, or a release of what something else still stands on. A stop of a reader that does not
-- scan changes nothing: fprintd answers it with an error, which the source does not look at.
unfoldable pub use_call : Held → BusCall → Option Held
use_call nothing (connect true) = some connection
use_call nothing (connect false) = some nothing
use_call connection (claim true) = some reader
use_call connection (claim false) = some connection
use_call connection close = some nothing
use_call reader (verify_start true) = some scanning
use_call reader (verify_start false) = some reader
use_call reader verify_stop = some reader
use_call reader release = some connection
use_call scanning verify_stop = some reader
use_call _ _ = none

abbrev and_then : Option Held → (Held → Option Held) → Option Held
and_then none next = none
and_then (some h) next = next h

unfoldable pub use_calls : Held → List BusCall → Option Held
use_calls h [] = some h
use_calls h (c ∷ cs) = and_then (use_call h c) (λ h'. use_calls h' cs)

-- A run of calls that starts in one state and keeps the protocol up to another.
data Runs : Held → List BusCall → Held → Type 0 where
  done : {h : Held} → Runs h [] h
  next :
      {h k l : Held} (c : BusCall) {cs : List BusCall}
      → use_call h c ≡ some k
      → Runs k cs l
      → Runs h (c ∷ cs) l

Runs-append :
    {h k l : Held} {cs ds : List BusCall} → Runs h cs k → Runs k ds l → Runs h (cs ++ ds) l
Runs-append done r = r
Runs-append (next c e q) r = next c e (Runs-append q r)

use_calls_of_Runs : {h l : Held} {cs : List BusCall} → Runs h cs l → use_calls h cs ≡ some l
unfolding use_calls
use_calls_of_Runs done = refl
use_calls_of_Runs (next c e r) = rw e (use_calls_of_Runs r)

-- The attempts begin while the reader scans, and end while it is held, scanning or not.
data Attempted (cs : List BusCall) : Type 0 where
  still : Runs scanning cs scanning → Attempted cs
  stopped : Runs scanning cs reader → Attempted cs

-- What the start of an attempt leaves to do.
abbrev Restarted : List BusCall × Option ScanError → Type 0
Restarted (cs, none) = Runs scanning cs scanning
Restarted (cs, some e) = Attempted cs

Attempted-append :
    {cs ds : List BusCall} → Runs scanning cs scanning → Attempted ds → Attempted (cs ++ ds)
Attempted-append r (still q) = still (Runs-append r q)
Attempted-append r (stopped q) = stopped (Runs-append r q)

restart-Restarted : (n : ℕ) (a : Attempt) → Restarted (restart n a)
unfolding restart use_call
restart-Restarted n a =
    if_cases Restarted (not (ltb 1 n)) _ _ (λ _. done)
      λ _.
        if_cases Restarted (not a.gap_passed) _ _ (λ _. stopped (next verify_stop refl done))
          λ _.
            if_cases Restarted (not a.restarted) _ _
              (λ _. stopped (next verify_stop refl (next (verify_start false) refl done)))
              (λ _. next verify_stop refl (next (verify_start true) refl done))

after_restart-Attempted :
    (r rest : List BusCall × Option ScanError)
    → Restarted r
    → Attempted rest.0
    → Attempted (after_restart r rest).0
after_restart-Attempted (cs, some e) rest h k = h
after_restart-Attempted (cs, none) (more, r) h k = Attempted-append h k

after_scan-Attempted :
    (o : Option ScanError) (f : ScanError → List BusCall × Option ScanError)
    → ((e : ScanError) → Attempted (f e).0)
    → Attempted (after_scan o f).0
after_scan-Attempted none f h = still done
after_scan-Attempted (some e) f h =
    if_cases (λ (r : List BusCall × Option ScanError). Attempted r.0) (is_no_match e) _ _ (λ _. h e)
      (λ _. still done)

attempts-Attempted :
    (left n : ℕ) (last : Option ScanError) (env : ℕ → Attempt)
    → Attempted (attempts left n last env).0
unfolding attempts
attempts-Attempted zero n last env = still done
attempts-Attempted (suc left) n last env =
    after_restart-Attempted (restart n (env n)) _ (restart-Restarted n (env n)) (
      after_scan-Attempted (scan (env n)) (λ e. attempts left (n + 1) (some e) env)
        (λ e. attempts-Attempted left (n + 1) (some e) env))

stop-Runs : {cs : List BusCall} → Attempted cs → Runs scanning (cs ++ (verify_stop ∷ [])) reader
unfolding use_call
stop-Runs (still r) = Runs-append r (next verify_stop refl done)
stop-Runs (stopped r) = Runs-append r (next verify_stop refl done)

-- The calls of a stretch that gives back what it took.
abbrev Returns : Held → List BusCall × Option ScanError → Type 0
Returns h r = runs_on r.1 ≡ false → Runs h r.0 h

finally-Returns :
    {h k : Held} (before after : List BusCall) (r : List BusCall × Option ScanError)
    → Runs h before k
    → (runs_on r.1 ≡ false → Runs k (r.0 ++ after) h)
    → Returns h (finally before after r)
finally-Returns before after (calls, o) b f = λ e. rw e (Runs-append b (f e))

with_start-Returns : (s : Setup) (env : ℕ → Attempt) → Returns reader (with_start s env)
unfolding with_start use_call
with_start-Returns s env =
    if_cases (Returns reader) s.started _ _
      (λ _.
        finally-Returns (verify_start true ∷ []) (verify_stop ∷ [])
          (attempts max_attempts 1 none env) (next (verify_start true) refl done)
          (λ _. stop-Runs (attempts-Attempted max_attempts 1 none env)))
      (λ _ _. next (verify_start false) refl done)

with_claim-Returns : (s : Setup) (env : ℕ → Attempt) → Returns connection (with_claim s env)
unfolding with_claim use_call
with_claim-Returns s env =
    if_cases (Returns connection) s.claimed _ _
      (λ _.
        finally-Returns (claim true ∷ []) (release ∷ []) (with_start s env)
          (next (claim true) refl done)
          (λ e. Runs-append (with_start-Returns s env e) (next release refl done)))
      (λ _ _. next (claim false) refl done)

with_devices-Returns :
    (s : Setup) (env : ℕ → Attempt) (o : Option (List Bytes))
    → Returns connection (with_devices s env o)
unfolding with_devices
with_devices-Returns s env none = λ _. done
with_devices-Returns s env (some []) = λ _. done
with_devices-Returns s env (some (d ∷ ds)) =
    if_cases (Returns connection) s.match_added _ _ (λ _. with_claim-Returns s env) (λ _ _. done)

-- If a scan ends, in an answer or in a panic, then whatever failed and however its attempts went: the
-- connection is closed, the reader released and its scan stopped exactly if `verifyFingerprint` got
-- them, each only while it has what the call needs, and a start or a claim never comes twice. The
-- scan may be stopped again when it does not run.
pub verify_fingerprint-use_calls :
    (s : Setup) (env : ℕ → Attempt)
    → runs_on (verify_fingerprint s env).1 ≡ false
    → use_calls nothing (verify_fingerprint s env).0 ≡ some nothing
unfolding verify_fingerprint use_call
verify_fingerprint-use_calls s env e = use_calls_of_Runs (
    if_cases (Returns nothing) s.connects _ _
      (λ _.
        finally-Returns (connect true ∷ []) (close ∷ []) (with_devices s env s.devices)
          (next (connect true) refl done)
          (λ e'. Runs-append (with_devices-Returns s env s.devices e') (next close refl done)))
      (λ _ _. next (connect false) refl done) e)
