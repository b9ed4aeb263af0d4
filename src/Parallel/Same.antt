-- ===== src/Parallel/Same.antt =====
-- fidohid/fidohid.go: a packet in `Run`, on any device and on the recorder.
use linux_id.Common.{
  ℕ, ◌≡◌, refl, ap, Bool, Option, none, some, List, [], Bytes, Bool-cases, inl, inr, ◌==◌,
}
use linux_id.Hid.Types.{Packet, cmd_init, cmd_msg, cmd_cbor, sw_ins_not_supported}
use linux_id.Hid.Frames.{new_init_response, init_response_marshal}
use linux_id.Hid.Channels.{allocate_chan}
use linux_id.Hid.Write.{Input2Request}
use linux_id.Hid.Run.{
  empty_assembly, absorb, is_complete, Token, Served, quiet, nonce_of, serve_init, serve,
  run_packet,
}
use linux_id.Parallel.Recorder.{
  record_write, write_until, response_reports, write_respose-write_until,
}

-- The token with a recorder that has kept nothing yet.
abbrev pub bare : {Dev : Type 0} → Token Dev → Token (List Input2Request)
bare t = record { device = []; channels = t.channels; assembly = t.assembly }

module _ {Dev : Type 0} (write_event : Dev → Input2Request → Dev × Bool) where
  -- What was recorded, written to the device.
  abbrev pub on_device : Dev → Token (List Input2Request) × Served → Token Dev × Served
  on_device d (u, served) = (
    record {
      device = write_until write_event d u.device;
      channels = u.channels;
      assembly = u.assembly;
    },
    served,
  )

  serve_init-on_device :
      (t : Token Dev) (r : ℕ) (msg : Bytes) (o : List ℕ × Option ℕ)
      → serve_init write_event t r msg o
        ≡ on_device t.device (serve_init record_write (bare t) r msg o)
  unfolding serve_init response_reports write_until
  serve_init-on_device t r msg (cs, none) = refl
  serve_init-on_device t r msg (cs, some c) =
      ap (λ (d : Dev). (record { device = d; channels = cs; assembly = t.assembly }, quiet))
        (write_respose-write_until write_event t.device r cmd_init 0
          (init_response_marshal (new_init_response c (nonce_of msg))))

  serve-on_device :
      (t : Token Dev) (r cmd : ℕ) (msg : Bytes)
      → serve write_event t r cmd msg ≡ on_device t.device (serve record_write (bare t) r cmd msg)
  unfolding serve write_until response_reports
  serve-on_device t r cmd msg = elim (Bool-cases (cmd == cmd_init)) [
    | inl e ↦ rw e (serve_init-on_device t r msg (allocate_chan t.channels))
    | inr e ↦ elim (Bool-cases (cmd == cmd_msg)) [
      | inl f ↦ rw (e, f) refl
      | inr f ↦ elim (Bool-cases (cmd == cmd_cbor)) [
        | inl g ↦ rw (e, f, g) refl
        | inr g ↦
            rw (e, f, g)
              (ap (λ (d : Dev). (record t { device = d }, quiet))
                (write_respose-write_until write_event t.device r cmd sw_ins_not_supported []))
      ]
    ]
  ]

  -- A packet in `Run` does on any device what it does on the recorder, and writes the reports that
  -- were recorded, up to the first that the device refuses.
  pub run_packet-on_device :
      (t : Token Dev) (p : Packet)
      → run_packet write_event t p ≡ on_device t.device (run_packet record_write (bare t) p)
  unfolding run_packet write_until
  run_packet-on_device t p = elim (Bool-cases (is_complete (absorb t.assembly p))) [
    | inl e ↦ rw e (serve-on_device (record t { assembly = empty_assembly }) _ _ _)
    | inr e ↦ rw e refl
  ]
