-- ===== src/Tpm/Clock.antt =====
-- tpm/tpm.go: the signature counter, which is the time.
use linux_id.Common.{ℕ, ◌+◌, ◌-◌, ◌%◌, ◌^◌, ◌≤◌, ◌<◌, ◌≡◌, arith}
use linux_id.Tpm.Device.{Device, base_time, tpm_counter}

-- Seconds from the start of 2021, within 32 bits.
counted_seconds :
    (t : ℕ)
    → base_time ≤ t
    → t < base_time + 2 ^ 32
    → (t + (2 ^ 32 - base_time)) % 2 ^ 32 ≡ t - base_time
counted_seconds t lo hi = omega arith

module _ {W : Type 0} (dev : Device W) where
  -- While the clock is from 2021 on and less than 2 ^ 32 seconds later, the counter of the TPM signer
  -- counts the seconds: it fits 32 bits, it does not go back while the clock does not, and what it
  -- gains is the time that has passed.
  pub tpm_counter-bounds :
      (w v : W)
      → base_time ≤ (dev.unix_time w).1
      → (dev.unix_time w).1 ≤ (dev.unix_time v).1
      → (dev.unix_time v).1 < base_time + 2 ^ 32
      → ((tpm_counter dev v).1 < 2 ^ 32)
        × ((tpm_counter dev v).1
            ≡ (tpm_counter dev w).1 + ((dev.unix_time v).1 - (dev.unix_time w).1))
  unfolding tpm_counter
  tpm_counter-bounds w v lo le hi =
      let first_count = counted_seconds (dev.unix_time w).1 lo (omega (arith, le, hi)) in
      let second_count = counted_seconds (dev.unix_time v).1 (omega (arith, lo, le)) hi in
      (omega (arith, second_count, hi), omega (arith, first_count, second_count, lo, le))
