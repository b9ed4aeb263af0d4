-- ===== src/Fprintd/Counts.antt =====
-- fprintd/fprintd.go: where the one result of each channel of `VerifyPresence` is.
use linux_id.Common.{
  ℕ, ◌+◌, ◌≡◌, refl, Bool, Option, none, some, List, [], ◌∷◌, Pick, first, further, ◌==◌, ltb,
  if◌then◌else◌, arith,
}
use linux_id.Fprintd.Sharing.{
  SharedScan, Fprintd, new_fprintd, shared, verify_presence, ShareEvent, asked, ended, received,
  silent, ShareStep, calls, scan_ends, unlocks, sends, receives, ShareReached, started, stepped,
}

unfoldable pub one_if : ℕ → ℕ → ℕ
one_if c d = if c == d then 1 else 0

-- Whether a channel was made.
unfoldable pub is_made : ℕ → ℕ → ℕ
is_made c fresh = if ltb c fresh then 1 else 0

-- The results of a channel that a goroutine will send, that wait in its buffer, and that were received.
abbrev pub to_come : ℕ → List SharedScan → ℕ
to_come c [] = 0
to_come c (s ∷ ss) = one_if c s.channel + to_come c ss

abbrev pub in_buffer : ℕ → List (ℕ × Bool) → ℕ
in_buffer c [] = 0
in_buffer c ((d, ok) ∷ rs) = one_if c d + in_buffer c rs

abbrev pub in_events : ℕ → List ShareEvent → ℕ
in_events c [] = 0
in_events c (received d ok ∷ es) = one_if c d + in_events c es
in_events c (asked d ∷ es) = in_events c es
in_events c (ended d ok ∷ es) = in_events c es
in_events c (silent ∷ es) = in_events c es

abbrev total : ℕ → List ShareEvent → Fprintd → ℕ
total c es f = to_come c f.scans + (in_buffer c f.buffered + in_events c es)

one_if-is_made : (c n : ℕ) → one_if c n + is_made c n ≡ is_made c (n + 1)
unfolding one_if is_made
one_if-is_made c n = ground arith

to_come-Pick :
    {s : SharedScan} {ss rest : List SharedScan} (c : ℕ)
    → Pick s ss rest
    → to_come c ss ≡ one_if c s.channel + to_come c rest
to_come-Pick c (first s ss) = refl
to_come-Pick c (further s y ss rest p) = omega (arith, to_come-Pick c p)

in_buffer-Pick :
    {r : ℕ × Bool} {rs rest : List (ℕ × Bool)} (c : ℕ)
    → Pick r rs rest
    → in_buffer c rs ≡ one_if c r.0 + in_buffer c rest
in_buffer-Pick c (first (d, ok) rs) = refl
in_buffer-Pick c (further r (d, ok) rs rest p) = omega (arith, in_buffer-Pick c p)

-- What a call adds.
shared-total :
    (c : ℕ) (es : List ShareEvent) (f : Fprintd) (o : Option ℕ) (d : ℕ)
    → total c es f ≡ is_made c f.fresh
    → total c (asked d ∷ es) (shared f o).0 ≡ is_made c (shared f o).0.fresh
shared-total c es f (some x) d h = h
shared-total c es f none d h = omega (arith, one_if-is_made c f.fresh, h)

ShareStep-total :
    {f g : Fprintd} {e : ShareEvent} (c : ℕ) (es : List ShareEvent)
    → ShareStep f e g
    → total c es f ≡ is_made c f.fresh
    → total c (e ∷ es) g ≡ is_made c g.fresh
unfolding verify_presence
ShareStep-total {f} c es calls h = shared-total c es f f.active (shared f f.active).1 h
ShareStep-total c es (scan_ends d ok rest p) h = omega (arith, to_come-Pick c p, h)
ShareStep-total c es (unlocks d ok rest p) h = omega (arith, to_come-Pick c p, h)
ShareStep-total c es (sends d ok rest p) h = omega (arith, to_come-Pick c p, h)
ShareStep-total c es (receives d ok left p) h = omega (arith, in_buffer-Pick c p, h)

-- However many callers share a scan, and in whatever order calls and goroutines run: each channel that
-- was handed out has exactly one result, which is still to come, waits in the buffer, or was
-- received; a channel that was not made has none.
pub ShareReached-is_made :
    (es : List ShareEvent) (f : Fprintd) (c : ℕ)
    → ShareReached es f
    → to_come c f.scans + (in_buffer c f.buffered + in_events c es) ≡ is_made c f.fresh
unfolding is_made
ShareReached-is_made es f c started = unfold new_fprintd in ground arith
ShareReached-is_made es f c (stepped gs g e f' before s) =
    ShareStep-total c gs s (ShareReached-is_made gs g c before)
