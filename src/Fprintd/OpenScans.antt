-- ===== src/Fprintd/OpenScans.antt =====
-- fprintd/fprintd.go: the scan that `active` stands for, and what a call of `VerifyPresence` gets.
use mathlib.Core.Path.{subst}
use linux_id.Common.{
  ==_refl, ℕ, ◌+◌, ◌≤◌, ◌≡◌, refl, sym, ap, ◌∙◌, Bool, Option, none, some, List, [], ◌∷◌, Pick,
  first, further, Pick-none, Pick-only, arith,
}
use linux_id.Fprintd.Sharing.{
  ScanPhase, running, scanned, unlocked, SharedScan, Fprintd, new_fprintd, shared, verify_presence,
  ShareEvent, asked, ShareStep, calls, scan_ends, unlocks, sends, receives, ShareReached, started,
  stepped,
}
use linux_id.Fprintd.Counts.{one_if, is_made, to_come, in_buffer, in_events, ShareReached-is_made}

-- The channels of the scans that hold `active`.
abbrev add_open : ℕ → ScanPhase → List ℕ → List ℕ
add_open c running cs = c ∷ cs
add_open c (scanned ok) cs = c ∷ cs
add_open c (unlocked ok) cs = cs

abbrev open_channels : List SharedScan → List ℕ
open_channels [] = []
open_channels (s ∷ ss) = add_open s.channel s.phase (open_channels ss)

abbrev opened_by : Option ℕ → List ℕ
opened_by none = []
opened_by (some c) = c ∷ []

add_open-Pick :
    {c : ℕ} {cs rest : List ℕ} (d : ℕ) (p : ScanPhase)
    → Pick c cs rest
    → Pick c (add_open d p cs) (add_open d p rest)
add_open-Pick d running k = further _ d _ _ k
add_open-Pick d (scanned ok) k = further _ d _ _ k
add_open-Pick d (unlocked ok) k = k

-- A goroutine before the reset of `active`, and one behind it.
running-Pick :
    {c : ℕ} {p : ScanPhase} {ss rest : List SharedScan} {s : SharedScan}
    → Pick s ss rest
    → s ≡ record { channel = c; phase = p }
    → ((cs : List ℕ) → add_open c p cs ≡ c ∷ cs)
    → Pick c (open_channels ss) (open_channels rest)
running-Pick {c} (first s ss) e o =
    let cs = open_channels ss in
    subst (λ (x : SharedScan). Pick c (add_open x.channel x.phase cs) cs) (sym e)
      (subst (λ (xs : List ℕ). Pick c xs cs) (sym (o cs)) (first c cs))
running-Pick (further s y ss rest k) e o = add_open-Pick y.channel y.phase (running-Pick k e o)

unlocked-Pick :
    {c : ℕ} {ok : Bool} {ss rest : List SharedScan} {s : SharedScan}
    → Pick s ss rest
    → s ≡ record { channel = c; phase = unlocked ok }
    → open_channels ss ≡ open_channels rest
unlocked-Pick (first s ss) e =
    ap (λ (x : SharedScan). add_open x.channel x.phase (open_channels ss)) e
unlocked-Pick (further s y ss rest k) e = ap (add_open y.channel y.phase) (unlocked-Pick k e)

-- The one scan that is open is that of `active`.
IsOpen : Fprintd → Type 0
IsOpen f = open_channels f.scans ≡ opened_by f.active

picked_open :
    (c : ℕ) (o : Option ℕ) (cs rest : List ℕ)
    → cs ≡ opened_by o
    → Pick c cs rest
    → (o ≡ some c) × (rest ≡ [])
picked_open c none cs rest e p = absurd (Pick-none p e)
picked_open c (some d) cs rest e p =
    let (same, empty) = Pick-only p e in (ap some (sym same), empty)

shared-IsOpen : (f : Fprintd) (o : Option ℕ) → f.active ≡ o → IsOpen f → IsOpen (shared f o).0
unfolding IsOpen
shared-IsOpen f (some c) e h = h
shared-IsOpen f none e h = ap (λ (cs : List ℕ). f.fresh ∷ cs) (h ∙ ap opened_by e)

ShareStep-IsOpen : {f g : Fprintd} {e : ShareEvent} → ShareStep f e g → IsOpen f → IsOpen g
unfolding verify_presence IsOpen
ShareStep-IsOpen {f} calls h = shared-IsOpen f f.active refl h
ShareStep-IsOpen {f} (scan_ends c ok rest p) h =
    let (active, empty) =
      picked_open c f.active _ _ h (running-Pick {p = running} p refl (λ cs. refl)) in
    ap (λ (cs : List ℕ). c ∷ cs) empty ∙ sym (ap opened_by active)
ShareStep-IsOpen {f} (unlocks c ok rest p) h =
    (picked_open c f.active _ _ h (running-Pick {p = scanned ok} p refl (λ cs. refl))).1
ShareStep-IsOpen (sends c ok rest p) h = sym (unlocked-Pick p refl) ∙ h
ShareStep-IsOpen (receives c ok left p) h = h

ShareReached-IsOpen : {es : List ShareEvent} {f : Fprintd} → ShareReached es f → IsOpen f
unfolding new_fprintd IsOpen
ShareReached-IsOpen started = refl
ShareReached-IsOpen (stepped es f e g before s) = ShareStep-IsOpen s (ShareReached-IsOpen before)

one_if_refl : (c : ℕ) → one_if c c ≡ 1
unfolding one_if
one_if_refl c = rw (==_refl c) refl

is_made_le_one : (c n : ℕ) → is_made c n ≤ 1
unfolding is_made
is_made_le_one c n = ground arith

add_open-to_come :
    (c d : ℕ) (p : ScanPhase) (cs : List ℕ) (n : ℕ)
    → add_open d p cs ≡ c ∷ []
    → (cs ≡ c ∷ [] → 1 ≤ n)
    → 1 ≤ one_if c d + n
add_open-to_come c d running cs n e h =
    let same : d ≡ c = cc in omega (arith, one_if_refl c, ap (one_if c) same)
add_open-to_come c d (scanned ok) cs n e h =
    let same : d ≡ c = cc in omega (arith, one_if_refl c, ap (one_if c) same)
add_open-to_come c d (unlocked ok) cs n e h = omega (arith, h e)

-- A scan that is open has its result to come.
to_come-open_channels :
    (c : ℕ) (ss : List SharedScan) → open_channels ss ≡ c ∷ [] → 1 ≤ to_come c ss
to_come-open_channels c [] e = cc
to_come-open_channels c (s ∷ ss) e =
    add_open-to_come c s.channel s.phase (open_channels ss) (to_come c ss) e
      (to_come-open_channels c ss)

shared-active :
    (f : Fprintd) (o : Option ℕ) → f.active ≡ o → (shared f o).0.active ≡ some (shared f o).1
shared-active f (some c) e = e
shared-active f none e = refl

verify_presence-open_channels :
    (f : Fprintd)
    → IsOpen (verify_presence f).0
    → open_channels (verify_presence f).0.scans ≡ (verify_presence f).1 ∷ []
unfolding verify_presence IsOpen
verify_presence-open_channels f h = h ∙ ap opened_by (shared-active f f.active refl)

-- In any state that is reached, a call of `VerifyPresence` never gets a channel of a scan whose
-- result has gone: exactly one result is still to come on the channel that it returns, none waits
-- in its buffer, and none was received from it before.
pub verify_presence-to_come :
    (es : List ShareEvent) (f : Fprintd)
    → ShareReached es f
    → let c = (verify_presence f).1 in
      (to_come c (verify_presence f).0.scans ≡ 1)
      × (in_buffer c (verify_presence f).0.buffered ≡ 0)
      × (in_events c es ≡ 0)
verify_presence-to_come es f h =
    let c = (verify_presence f).1 in
    let g = (verify_presence f).0 in
    let after : ShareReached (asked c ∷ es) g = stepped es f (asked c) g h calls in
    let open_ = verify_presence-open_channels f (ShareReached-IsOpen after) in
    let all = ShareReached-is_made (asked c ∷ es) g c after in
    let some_ = to_come-open_channels c g.scans open_ in
    let most = is_made_le_one c g.fresh in
    (
      omega (arith, all, some_, most),
      omega (arith, all, some_, most),
      omega (arith, all, some_, most),
    )
