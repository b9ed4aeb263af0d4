-- ===== src/Hid/Channels.antt =====
-- fidohid/fidohid.go: `allocateChan`, the closure of `Run` over the map of channels in use.
use linux_id.Common.{
  ℕ, zero, suc, ◌-◌, ◌^◌, Bool, true, false, ◌||◌, Option, none, some, List, [], ◌∷◌, ◌==◌,
}

-- The map's keys, newest first: a key is only ever set to true.
abbrev pub in_use : List ℕ → ℕ → Bool
in_use [] k = false
in_use (c ∷ cs) k = c == k || in_use cs k

-- `for k := 1; k < (1<<32)-1; k++`, with the number of candidates left.
unfoldable pub first_free : ℕ → ℕ → List ℕ → Option ℕ
first_free zero k cs = none
first_free (suc left) k cs = elim (in_use cs k) [
  | true ↦ first_free left (suc k) cs
  | false ↦ some k
]

abbrev pub channel_limit : ℕ
channel_limit = 2 ^ 32 - 1

-- The candidates are 1 to `channel_limit - 1`.
unfoldable pub scan_channels : List ℕ → Option ℕ
scan_channels cs = first_free (channel_limit - 1) 1 cs

abbrev pub mark_used : List ℕ → Option ℕ → List ℕ × Option ℕ
mark_used cs none = (cs, none)
mark_used cs (some k) = (k ∷ cs, some k)

-- `none` is the answer `0, false`.
unfoldable pub allocate_chan : List ℕ → List ℕ × Option ℕ
allocate_chan cs = mark_used cs (scan_channels cs)
