-- ===== src/Hid/Write.antt =====
-- fidohid/fidohid.go: `writeRespose`, `WriteResponse` and `WriteCtap2Response`. The uhid device is a
-- parameter: a state and what one `WriteEvent` does to it, with whether it succeeded.
use linux_id.Common.{
  ℕ, zero, suc, ◌+◌, ◌%◌, Bool, true, false, [], ◌∷◌, ◌++◌, Bytes, be16, bit_or, length, take, drop,
  ltb, if◌then◌else◌,
}
use linux_id.Hid.Types.{frame_type_init, initial_packet_data_len, cont_packet_data_len, cmd_cbor}
use linux_id.Hid.Frames.{frame_init_marshal, frame_cont_marshal}

-- uhid.Input2Request: its size field and the report that is copied into it.
pub record Input2Request : Type 0 where
  pub data_size : ℕ
  pub report : Bytes

abbrev pub request_of : Bytes → Input2Request
request_of payload = record { data_size = length payload % 65536; report = payload }

-- `out_of_fuel` is no value of the Go code: the loop bound of the model was reached.
pub data Written : Type 0 where
  sent write_error out_of_fuel : Written

module _ {Dev : Type 0} (write_event : Dev → Input2Request → Dev × Bool) where
  -- The loop goes on after a write that succeeded.
  abbrev pub after_write : Dev × Bool → (Dev → Dev × Written) → Dev × Written
  after_write (d, true) next = next d
  after_write (d, false) next = (d, write_error)

  -- `for len(data) > 0`, with the loop's variables `initial`, `pktSize`, `seqNo` and `data`.
  unfoldable pub write_loop : ℕ → Dev → ℕ → ℕ → ℕ → Bool → ℕ → ℕ → Bytes → Dev × Written
  write_loop fuel d chan_id cmd total_size initial pkt_size seq_no [] = (d, sent)
  write_loop zero d chan_id cmd total_size initial pkt_size seq_no (b ∷ bs) = (d, out_of_fuel)
  write_loop (suc fuel) d chan_id cmd total_size true pkt_size seq_no (b ∷ bs) =
      after_write
        (write_event d (
          request_of (
            frame_init_marshal (record {
              channel_id = chan_id;
              command = bit_or cmd frame_type_init;
              payload = take pkt_size (b ∷ bs);
              total_payload_len = total_size;
            }))))
        (λ d'.
          write_loop fuel d' chan_id cmd total_size false cont_packet_data_len seq_no
            (drop pkt_size (b ∷ bs)))
  write_loop (suc fuel) d chan_id cmd total_size false pkt_size seq_no (b ∷ bs) =
      after_write
        (write_event d (
          request_of (
            frame_cont_marshal (record {
              channel_id = chan_id;
              seq_no = seq_no;
              payload = take pkt_size (b ∷ bs);
            }))))
        (λ d'.
          write_loop fuel d' chan_id cmd total_size false pkt_size ((seq_no + 1) % 256)
            (drop pkt_size (b ∷ bs)))

  -- A status word other than 0 is appended; every round sends a byte at least, so the length of the
  -- data bounds the rounds.
  unfoldable pub write_respose : Dev → ℕ → ℕ → Bytes → ℕ → Dev × Written
  unfolding write_loop
  write_respose d chan_id cmd payload status =
      let body = if ltb 0 status then payload ++ be16 status else payload in
      write_loop (length body) d chan_id cmd (length body % 65536) true initial_packet_data_len 0
        body

  -- `WriteResponse` answers on the channel and with the command of the event.
  unfoldable pub write_response : Dev → ℕ → ℕ → Bytes → ℕ → Dev × Written
  unfolding write_respose
  write_response d chan_id cmd payload status = write_respose d chan_id cmd payload status

  -- `WriteCtap2Response` puts the status byte first, and no status word behind.
  unfoldable pub write_ctap2_response : Dev → ℕ → ℕ → Bytes → Dev × Written
  unfolding write_respose
  write_ctap2_response d chan_id status payload =
      write_respose d chan_id cmd_cbor (status ∷ payload) 0
