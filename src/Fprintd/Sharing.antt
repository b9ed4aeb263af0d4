-- ===== src/Fprintd/Sharing.antt =====
-- fprintd/fprintd.go: `VerifyPresence`, and the goroutines that it starts, as a step relation. A
-- channel is a number; its buffer holds one result, so that a goroutine never waits to send.
use linux_id.Common.{ℕ, ◌+◌, Bool, Option, none, some, List, [], ◌∷◌, Pick}

-- Where a goroutine stands: in `verifyFingerprint`, behind it with the result, and behind the reset
-- of `active`.
pub data ScanPhase : Type 0 where
  running : ScanPhase
  scanned unlocked : Bool → ScanPhase

pub record SharedScan : Type 0 where
  pub channel : ℕ
  pub phase : ScanPhase

-- `Fprintd` with its goroutines, and the results in the buffers of the channels; `fresh` numbers the
-- channel that `make` will give next.
pub record Fprintd : Type 0 where
  pub active : Option ℕ
  pub fresh : ℕ
  pub scans : List SharedScan
  pub buffered : List (ℕ × Bool)

unfoldable pub new_fprintd : Fprintd
new_fprintd = record { active = none; fresh = 0; scans = []; buffered = [] }

abbrev pub shared : Fprintd → Option ℕ → Fprintd × ℕ
shared f (some c) = (f, c)
shared f none = (
  record f {
    active = some f.fresh;
    fresh = f.fresh + 1;
    scans = record { channel = f.fresh; phase = running } ∷ f.scans;
  },
  f.fresh,
)

-- `VerifyPresence`, with the channel that it returns; it never returns an error.
unfoldable pub verify_presence : Fprintd → Fprintd × ℕ
verify_presence f = shared f f.active

-- What is seen: a call with its channel, the end of a scan, a result that is received, or nothing.
pub data ShareEvent : Type 0 where
  asked : ℕ → ShareEvent
  ended : ℕ → Bool → ShareEvent
  received : ℕ → Bool → ShareEvent
  silent : ShareEvent

pub data ShareStep (f : Fprintd) : ShareEvent → Fprintd → Type 0 where
  calls : ShareStep f (asked (verify_presence f).1) (verify_presence f).0
  scan_ends :
      (c : ℕ) (ok : Bool) (rest : List SharedScan)
      → Pick (record { channel = c; phase = running }) f.scans rest
      → ShareStep f
          (ended c ok)
          (record f { scans = record { channel = c; phase = scanned ok } ∷ rest })
  unlocks :
      (c : ℕ) (ok : Bool) (rest : List SharedScan)
      → Pick (record { channel = c; phase = scanned ok }) f.scans rest
      → ShareStep f silent
          (record f { active = none; scans = record { channel = c; phase = unlocked ok } ∷ rest })
  sends :
      (c : ℕ) (ok : Bool) (rest : List SharedScan)
      → Pick (record { channel = c; phase = unlocked ok }) f.scans rest
      → ShareStep f silent (record f { scans = rest; buffered = (c, ok) ∷ f.buffered })
  receives :
      (c : ℕ) (ok : Bool) (left : List (ℕ × Bool))
      → Pick (c, ok) f.buffered left
      → ShareStep f (received c ok) (record f { buffered = left })

-- The states that are reached from a new reader, with the events, the newest first.
pub data ShareReached : List ShareEvent → Fprintd → Type 0 where
  started : ShareReached [] new_fprintd
  stepped :
      (es : List ShareEvent) (f : Fprintd) (e : ShareEvent) (g : Fprintd)
      → ShareReached es f
      → ShareStep f e g
      → ShareReached (e ∷ es) g
