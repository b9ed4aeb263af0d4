-- ===== src/Fprintd/Scan.antt =====
-- fprintd/fprintd.go: `verifyFingerprint`, `waitForVerifyResult`, `processVerifyStatus` and
-- `drainSignals`. What the system bus answers, and which signals arrive when, is an argument.
use linux_id.Common.{
  ℕ, zero, suc, ◌+◌, Bool, true, false, not, Option, none, some, List, [], ◌∷◌, ◌++◌, Bytes, codes,
  length, get_elem?, ltb, bytes_equal, if◌then◌else◌,
}

-- A value in the body of a signal: a string, a bool, or anything else.
pub data Value : Type 0 where
  text : Bytes → Value
  boolean : Bool → Value
  other : Value

-- The body of a `VerifyStatus` signal.
abbrev pub Body : Type 0
Body = List Value

-- What comes of a scan without a match: an error, where `failed_with` holds the status of the reader
-- and `bus_error` is an error of a call of the bus; or no answer, when the channel of the signals is
-- closed, as the bus does when the connection ends: `nil_signal` is the panic at `sig.Body`, and
-- `never_ends` is that `drainSignals` loops for ever.
pub data ScanError : Type 0 where
  err_no_match timed_out bus_error no_devices nil_signal never_ends : ScanError
  failed_with : Bytes → ScanError

-- `body[i].(string)` and `body[i].(bool)`, the zero value where the assertion fails.
abbrev pub as_text : Option Value → Bytes
as_text none = []
as_text (some (text b)) = b
as_text (some (boolean b)) = []
as_text (some other) = []

abbrev pub as_bool : Option Value → Bool
as_bool none = false
as_bool (some (text b)) = false
as_bool (some (boolean b)) = b
as_bool (some other) = false

-- Whether the finger matched, whether the status is final, and the error.
unfoldable pub status_of_text : Bytes → Bool × Bool × Option ScanError
status_of_text result =
    if bytes_equal result (codes "verify-match")
    then (true, true, none)
    else if bytes_equal result (codes "verify-no-match")
    then (false, true, some err_no_match)
    else (false, true, some (failed_with result))

unfoldable pub process_verify_status : Body → Bool × Bool × Option ScanError
process_verify_status body =
    if ltb (length body) 2
    then (false, false, none)
    else if not (as_bool (get_elem? body 1))
    then (false, false, none)
    else status_of_text (as_text (get_elem? body 0))

abbrev pub after_status : Bool × Bool × Option ScanError → Option ScanError → Option ScanError
after_status (true, terminal, e) rest = none
after_status (false, true, e) rest = e
after_status (false, false, e) rest = rest

-- Whether the channel stays open until the deadline, and the signals that are taken before; `none` is
-- a match. From a closed channel comes `nil`.
unfoldable pub wait_for_verify_result : Bool → List Body → Option ScanError
wait_for_verify_result is_open [] = if is_open then some timed_out else some nil_signal
wait_for_verify_result is_open (body ∷ rest) =
    after_status (process_verify_status body) (wait_for_verify_result is_open rest)

abbrev pub one_more : Option (ℕ × List Body) → Option (ℕ × List Body)
one_more none = none
one_more (some (n, left)) = some (suc n, left)

-- Of a channel that is open or closed: the number of signals that were dropped, and what is left in
-- the channel. A receive from a closed channel always succeeds, and then the loop does not end.
unfoldable pub drain_signals : Bool → List Body → Option (ℕ × List Body)
drain_signals is_open [] = if is_open then some (0, []) else none
drain_signals is_open (s ∷ queue) = one_more (drain_signals is_open queue)

-- What the surroundings do in one attempt: whether the gap before it and the settling end before the
-- deadline, whether the restart succeeds, the signals in the channel when it is drained and those
-- that arrive afterwards, and whether the channel is open when it is drained and stays open.
pub record Attempt : Type 0 where
  pub gap_passed : Bool
  pub restarted : Bool
  pub settled : Bool
  pub queued : List Body
  pub signals : List Body
  pub open_to_drain : Bool
  pub stays_open : Bool

-- The calls of the bus that acquire or release, with whether they succeeded.
pub data BusCall : Type 0 where
  connect claim verify_start : Bool → BusCall
  verify_stop release close : BusCall

abbrev pub max_attempts : ℕ
max_attempts = 3

-- The start of the attempt with this number; `none` goes on.
unfoldable pub restart : ℕ → Attempt → List BusCall × Option ScanError
restart n a =
    if not (ltb 1 n)
    then ([], none)
    else if not a.gap_passed
    then (verify_stop ∷ [], some timed_out)
    else if not a.restarted
    then (verify_stop ∷ verify_start false ∷ [], some bus_error)
    else (verify_stop ∷ verify_start true ∷ [], none)

abbrev pub after_drain : Attempt → Option (ℕ × List Body) → Option ScanError
after_drain a none = some never_ends
after_drain a (some (n, left)) = wait_for_verify_result a.stays_open (left ++ a.signals)

-- The rest of an attempt: settling, draining, waiting.
unfoldable pub scan : Attempt → Option ScanError
scan a =
    if not a.settled then some timed_out else after_drain a (drain_signals a.open_to_drain a.queued)

-- `errors.Is(err, ErrNoMatch)`
abbrev pub is_no_match : ScanError → Bool
is_no_match err_no_match = true
is_no_match timed_out = false
is_no_match bus_error = false
is_no_match no_devices = false
is_no_match nil_signal = false
is_no_match never_ends = false
is_no_match (failed_with b) = false

abbrev pub after_scan :
    Option ScanError
    → (ScanError → List BusCall × Option ScanError)
    → List BusCall × Option ScanError
after_scan none next = ([], none)
after_scan (some e) next = if is_no_match e then next e else ([], some e)

abbrev pub after_restart :
    List BusCall × Option ScanError
    → List BusCall × Option ScanError
    → List BusCall × Option ScanError
after_restart (calls, some e) rest = (calls, some e)
after_restart (calls, none) (more, r) = (calls ++ more, r)

-- The loop, with the attempts that are left, the number of the next and `lastErr`.
unfoldable pub attempts : ℕ → ℕ → Option ScanError → (ℕ → Attempt) → List BusCall × Option ScanError
attempts zero n last env = ([], last)
attempts (suc left) n last env =
    after_restart (restart n (env n))
      (after_scan (scan (env n)) (λ e. attempts left (n + 1) (some e) env))

-- The answers of the bus up to the loop; a failed `GetDevices` is `none`.
pub record Setup : Type 0 where
  pub connects : Bool
  pub devices : Option (List Bytes)
  pub match_added : Bool
  pub claimed : Bool
  pub started : Bool

-- Whether the scan goes on for ever: it neither returns nor panics.
abbrev pub runs_on : Option ScanError → Bool
runs_on none = false
runs_on (some err_no_match) = false
runs_on (some timed_out) = false
runs_on (some bus_error) = false
runs_on (some no_devices) = false
runs_on (some nil_signal) = false
runs_on (some never_ends) = true
runs_on (some (failed_with b)) = false

-- The deferred calls run behind what a function returns or panics with.
abbrev pub finally :
    List BusCall → List BusCall → List BusCall × Option ScanError → List BusCall × Option ScanError
finally before after (calls, r) = (before ++ (calls ++ (if runs_on r then [] else after)), r)

abbrev pub stop_here : ScanError → List BusCall × Option ScanError
stop_here e = ([], some e)

unfoldable pub with_start : Setup → (ℕ → Attempt) → List BusCall × Option ScanError
with_start s env =
    if s.started
    then finally (verify_start true ∷ []) (verify_stop ∷ []) (attempts max_attempts 1 none env)
    else (verify_start false ∷ [], some bus_error)

unfoldable pub with_claim : Setup → (ℕ → Attempt) → List BusCall × Option ScanError
with_claim s env =
    if s.claimed
    then finally (claim true ∷ []) (release ∷ []) (with_start s env)
    else (claim false ∷ [], some bus_error)

unfoldable pub with_devices :
    Setup → (ℕ → Attempt) → Option (List Bytes) → List BusCall × Option ScanError
with_devices s env none = stop_here bus_error
with_devices s env (some []) = stop_here no_devices
with_devices s env (some (d ∷ ds)) = if s.match_added then with_claim s env else stop_here bus_error

unfoldable pub verify_fingerprint : Setup → (ℕ → Attempt) → List BusCall × Option ScanError
verify_fingerprint s env =
    if s.connects
    then finally (connect true ∷ []) (close ∷ []) (with_devices s env s.devices)
    else (connect false ∷ [], some bus_error)
