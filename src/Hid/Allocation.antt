-- ===== src/Hid/Allocation.antt =====
-- fidohid/fidohid.go: which channel ids `Run` hands out.
use linux_id.Common.{
  ℕ, zero, suc, ◌+◌, ◌-◌, ◌≤◌, ◌<◌, ◌≡◌, refl, Bool, true, false, Option, none, some, List, [], ◌∷◌,
  ◌==◌, Bool-cases, ◌⊎◌, inl, inr, arith, ap, ◌++◌, Bytes, if_cases,
}
use linux_id.Hid.Types.{Packet, cmd_init, cmd_msg, cmd_cbor, sw_ins_not_supported}
use linux_id.Hid.Write.{Input2Request, write_respose}
use linux_id.Hid.Frames.{new_init_response, init_response_marshal}
use linux_id.Hid.Channels.{
  in_use, first_free, channel_limit, scan_channels, mark_used, allocate_chan,
}
use linux_id.Hid.Run.{
  Token, Served, quiet, event, exhausted, AuthEvent, is_complete, absorb, serve, serve_init,
  nonce_of, run_packet, run_packets, after_packet,
}

eq_or_lt : (k j : ℕ) → k ≤ j → (k ≡ j) ⊎ (k < j)
eq_or_lt k j h = grind arith

some_eq : {k r : ℕ} → some k ≡ some r → k ≡ r
some_eq e = cc

-- The search returns the first id that is free among its candidates.
first_free-some :
    (left k : ℕ) (cs : List ℕ) (r : ℕ)
    → first_free left k cs ≡ some r
    → (in_use cs r ≡ false)
      × (k ≤ r)
      × (r < k + left)
      × ((j : ℕ) → k ≤ j → j < r → in_use cs j ≡ true)
unfolding first_free
first_free-some zero k cs r e = cc
first_free-some (suc left) k cs r e = elim (Bool-cases (in_use cs k)) [
  | inl used ↦
      let (free, lo, hi, below) = first_free-some left (suc k) cs r (rw (used, first_free) at e) in
      (
        free,
        omega arith,
        omega arith,
        λ j p q. elim (eq_or_lt k j p) [
          | inl same ↦ rw (← same) used
          | inr later ↦ below j later q
        ],
      )
  | inr free ↦
      let here : k ≡ r = some_eq (rw (free, first_free) at e) in
      (rw (← here) free, omega arith, omega arith, λ j p q. absurd (omega arith))
]

first_free-none :
    (left k : ℕ) (cs : List ℕ)
    → first_free left k cs ≡ none
    → (j : ℕ) → k ≤ j
    → j < k + left
    → in_use cs j ≡ true
unfolding first_free
first_free-none zero k cs e j p q = absurd (omega arith)
first_free-none (suc left) k cs e j p q = elim (Bool-cases (in_use cs k)) [
  | inl used ↦ elim (eq_or_lt k j p) [
    | inl same ↦ rw (← same) used
    | inr later ↦ first_free-none left (suc k) cs (rw (used, first_free) at e) j later (omega arith)
  ]
  | inr free ↦ elim_none (rw (free, first_free) at e)
]
  where
    elim_none : Option.some k ≡ none → in_use cs j ≡ true
    elim_none h = cc

-- What a call of `allocateChan` may answer.
pub data Allocated (cs : List ℕ) : List ℕ × Option ℕ → Type 0 where
  fresh :
      (k : ℕ)
      → in_use cs k ≡ false
      → 1 ≤ k
      → k < channel_limit
      → ((j : ℕ) → 1 ≤ j → j < k → in_use cs j ≡ true)
      → Allocated cs (k ∷ cs, some k)
  full : ((j : ℕ) → 1 ≤ j → j < channel_limit → in_use cs j ≡ true) → Allocated cs (cs, none)

allocated : (cs : List ℕ) (r : Option ℕ) → scan_channels cs ≡ r → Allocated cs (mark_used cs r)
unfolding scan_channels
allocated cs (some k) e =
    let (free, lo, hi, below) = first_free-some (channel_limit - 1) 1 cs k e in
    fresh k free lo hi below
allocated cs none e = full (λ j p q. first_free-none (channel_limit - 1) 1 cs e j p q)

-- `allocateChan` hands out the least channel id from 1 on that is not in use and marks it, and it
-- fails, changing nothing, only when every id from 1 to 2^32 - 2 is in use.
pub allocate_chan-Allocated : (cs : List ℕ) → Allocated cs (allocate_chan cs)
unfolding allocate_chan
allocate_chan-Allocated cs = allocated cs (scan_channels cs) refl

-- No id twice, and none is 0 or the broadcast id.
abbrev pub Distinct : List ℕ → Type 0
Distinct [] = Unit {0}
Distinct (c ∷ cs) = (in_use cs c ≡ false) × (1 ≤ c) × (c < channel_limit) × Distinct cs

module _ {Dev : Type 0} (write_event : Dev → Input2Request → Dev × Bool) where
  -- What `Run` wrote to a device: replies to `init` messages, each with an id, and refusals of other
  -- commands. The ids are listed, the newest first.
  pub data Replied (d₀ : Dev) : List ℕ → Dev → Type 0 where
    nothing_yet : Replied d₀ [] d₀
    grants :
        (ids : List ℕ) (d : Dev) (chan_id k : ℕ) (nonce : Bytes)
        → Replied d₀ ids d
        → Replied d₀
            (k ∷ ids)
            (write_respose write_event d chan_id cmd_init
              (init_response_marshal (new_init_response k nonce))
              0).0
    declines :
        (ids : List ℕ) (d : Dev) (chan_id cmd : ℕ)
        → (cmd == cmd_init) ≡ false
        → Replied d₀ ids d
        → Replied d₀ ids (write_respose write_event d chan_id cmd [] sw_ins_not_supported).0

  -- Since a first device and its ids in use: the ids of the replies are those that came into use.
  abbrev pub Granted : Dev → List ℕ → Token Dev → Type 0
  Granted d₀ cs₀ t =
      (ids : List ℕ) × Replied d₀ ids t.device × (t.channels ≡ ids ++ cs₀) × Distinct t.channels

  module _ (d₀ : Dev) (cs₀ : List ℕ) where
    serve_init-Granted :
        (t : Token Dev) (chan_id : ℕ) (msg : List ℕ) (r : List ℕ × Option ℕ)
        → Allocated t.channels r
        → Granted d₀ cs₀ t
        → Granted d₀ cs₀ (serve_init write_event t chan_id msg r).0
    unfolding serve_init
    serve_init-Granted t chan_id msg r (fresh k free lo hi below) (ids, h, e, d) = (
      k ∷ ids,
      grants ids t.device chan_id k (nonce_of msg) h,
      ap (λ (cs : List ℕ). k ∷ cs) e,
      (free, lo, hi, d),
    )
    serve_init-Granted t chan_id msg r (full none_left) g = g

    serve-Granted :
        (t : Token Dev) (chan_id cmd : ℕ) (msg : List ℕ)
        → Granted d₀ cs₀ t
        → Granted d₀ cs₀ (serve write_event t chan_id cmd msg).0
    unfolding serve
    serve-Granted t chan_id cmd msg g =
        if_cases Goal (cmd == cmd_init) _ _
          (λ _.
            serve_init-Granted t chan_id msg (allocate_chan t.channels)
              (allocate_chan-Allocated t.channels) g)
          λ other.
            if_cases Goal (cmd == cmd_msg) _ _ (λ _. g)
              λ _.
                if_cases Goal (cmd == cmd_cbor) _ _ (λ _. g)
                  (λ _.
                    let (ids, h, e, d) = g in
                    (ids, declines ids t.device chan_id cmd other h, e, d))
      where
        Goal : Token Dev × Served → Type 0
        Goal r = Granted d₀ cs₀ r.0

    run_packet-Granted :
        (t : Token Dev) (pkt : Packet)
        → Granted d₀ cs₀ t
        → Granted d₀ cs₀ (run_packet write_event t pkt).0
    unfolding run_packet
    run_packet-Granted t pkt g = elim (Bool-cases (is_complete (absorb t.assembly pkt))) [
      | inl e ↦ rw e (serve-Granted _ _ _ _ g)
      | inr e ↦ rw e g
    ]

    after_packet-Granted :
        (r : Token Dev × Served) (next : Token Dev → Token Dev × List AuthEvent)
        → Granted d₀ cs₀ r.0
        → ((t : Token Dev) → Granted d₀ cs₀ t → Granted d₀ cs₀ (next t).0)
        → Granted d₀ cs₀ (after_packet write_event r next).0
    after_packet-Granted (t, quiet) next g h = h t g
    after_packet-Granted (t, event e) next g h = h t g
    after_packet-Granted (t, exhausted) next g h = g

    run_packets-still_Granted :
        (t : Token Dev) (ps : List Packet)
        → Granted d₀ cs₀ t
        → Granted d₀ cs₀ (run_packets write_event t ps).0
    unfolding run_packets
    run_packets-still_Granted t [] g = g
    run_packets-still_Granted t (p ∷ ps) g =
        after_packet-Granted (run_packet write_event t p) _ (run_packet-Granted t p g)
          (λ t' g'. run_packets-still_Granted t' ps g')

  -- From a state in which the channel ids in use are distinct and each is from 1 to 2^32 - 2, and
  -- however the packets of the host come: what `Run` writes is replies to `init` messages and
  -- refusals of other commands, and the ids in the replies are exactly those that came into use. All
  -- ids in use are still distinct and from 1 to 2^32 - 2, so that no two replies give the same id,
  -- and none gives an id that was in use.
  pub run_packets-Granted :
      (t : Token Dev) (ps : List Packet)
      → Distinct t.channels
      → Granted t.device t.channels (run_packets write_event t ps).0
  run_packets-Granted t ps d =
      run_packets-still_Granted t.device t.channels t ps ([], nothing_yet, refl, d)
