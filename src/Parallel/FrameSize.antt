-- ===== src/Parallel/FrameSize.antt =====
-- fidohid/fidohid.go: the size of the reports of a response.
use linux_id.Common.{
  ℕ, zero, suc, ◌+◌, ◌%◌, ◌≡◌, sym, Bool-cases, inl, inr, Option, none, some, List, [], ◌∷◌, Bytes,
  map, length, take, drop, length-take, ◌==◌, arith,
}
use mathlib.Core.Path.{subst}
use linux_id.Hid.Types.{Packet, cmd_init, cmd_msg, cmd_cbor, report_len, sw_ins_not_supported}
use linux_id.Hid.Frames.{
  frame_init_marshal, frame_cont_marshal, new_init_response, init_response_marshal,
}
use linux_id.Hid.Channels.{allocate_chan}
use linux_id.Hid.Write.{Input2Request, request_of, write_response, write_ctap2_response}
use linux_id.Hid.FrameList.{cont_frame, cont_frames, init_frame, with_status}
use linux_id.Hid.ParseFrames.{length-padded}
use linux_id.Hid.Run.{
  AuthEvent, empty_assembly, absorb, is_complete, Token, nonce_of, serve_init, serve, run_packet,
}
use linux_id.Server.Types.{Signer, Services, Ending, replied, silent, fatal, panicked, u2f, ctap2}
use linux_id.Parallel.Recorder.{
  record_write, response_frames, response_reports, response_reports-map,
}
use linux_id.Parallel.Same.{bare}
use linux_id.Parallel.System.{reply_reports}

abbrev pub IsReport : Input2Request → Type 0
IsReport r = (r.data_size ≡ report_len) × (length r.report ≡ report_len)

abbrev pub AllReports : List Input2Request → Type 0
AllReports [] = Unit {0}
AllReports (r ∷ rs) = IsReport r × AllReports rs

-- The frames of a message have the size of a report.
abbrev AllFrames : List Bytes → Type 0
AllFrames [] = Unit {0}
AllFrames (f ∷ fs) = (length f ≡ report_len) × AllFrames fs

length-init_frame :
    (chan_id cmd total_size : ℕ) (b : Bytes)
    → length (init_frame chan_id cmd total_size (take 57 b)) ≡ report_len
unfolding frame_init_marshal
length-init_frame chan_id cmd total_size b =
    omega (arith, length-padded 57 (take 57 b) (omega (arith, length-take 57 b)))

length-cont_frame :
    (chan_id i : ℕ) (b : Bytes) → length (cont_frame chan_id i (take 59 b)) ≡ report_len
unfolding frame_cont_marshal
length-cont_frame chan_id i b =
    omega (arith, length-padded 59 (take 59 b) (omega (arith, length-take 59 b)))

cont_frames-AllFrames : (n chan_id i : ℕ) (b : Bytes) → AllFrames (cont_frames n chan_id i b)
cont_frames-AllFrames zero chan_id i b = tt
cont_frames-AllFrames (suc n) chan_id i b =
    (length-cont_frame chan_id (i % 256) b, cont_frames-AllFrames n chan_id (i + 1) (drop 59 b))

response_frames-AllFrames :
    (chan_id cmd : ℕ) (body : Bytes) → AllFrames (response_frames chan_id cmd body)
response_frames-AllFrames chan_id cmd [] = tt
response_frames-AllFrames chan_id cmd (b ∷ bs) =
    (length-init_frame chan_id cmd _ (b ∷ bs), cont_frames-AllFrames _ chan_id 0 (drop 57 (b ∷ bs)))

map-AllReports : (fs : List Bytes) → AllFrames fs → AllReports (map request_of fs)
map-AllReports [] a = tt
map-AllReports (f ∷ fs) (e, a) = ((omega (arith, e), e), map-AllReports fs a)

response_reports-AllReports :
    (chan_id cmd : ℕ) (payload : Bytes) (status : ℕ)
    → AllReports (response_reports chan_id cmd payload status)
response_reports-AllReports chan_id cmd payload status =
    subst AllReports (sym (response_reports-map chan_id cmd status payload))
      (map-AllReports _ (response_frames-AllFrames chan_id cmd (with_status payload status)))

serve_init-AllReports :
    (t : Token (List Input2Request)) (r : ℕ) (msg : Bytes) (o : List ℕ × Option ℕ)
    → AllReports (serve_init record_write (bare t) r msg o).0.device
unfolding serve_init response_reports
serve_init-AllReports t r msg (cs, none) = tt
serve_init-AllReports t r msg (cs, some c) =
    response_reports-AllReports r cmd_init
      (init_response_marshal (new_init_response c (nonce_of msg))) 0

serve-AllReports :
    (t : Token (List Input2Request)) (r cmd : ℕ) (msg : Bytes)
    → AllReports (serve record_write (bare t) r cmd msg).0.device
unfolding serve response_reports
serve-AllReports t r cmd msg = elim (Bool-cases (cmd == cmd_init)) [
  | inl e ↦ rw e (serve_init-AllReports t r msg (allocate_chan t.channels))
  | inr e ↦ elim (Bool-cases (cmd == cmd_msg)) [
    | inl f ↦ rw (e, f) tt
    | inr f ↦ elim (Bool-cases (cmd == cmd_cbor)) [
      | inl g ↦ rw (e, f, g) tt
      | inr g ↦ rw (e, f, g) (response_reports-AllReports r cmd [] sw_ins_not_supported)
    ]
  ]
]

pub run_packet-AllReports :
    (t : Token (List Input2Request)) (p : Packet)
    → AllReports (run_packet record_write (bare t) p).0.device
unfolding run_packet
run_packet-AllReports t p = elim (Bool-cases (is_complete (absorb t.assembly p))) [
  | inl e ↦ rw e (serve-AllReports (record t { assembly = empty_assembly }) _ _ _)
  | inr e ↦ rw e tt
]

pub reply_reports-AllReports :
    {S : Type 0} (signer : Signer S) (lib : Services) (evt : AuthEvent) (end : Ending)
    → AllReports (reply_reports signer lib evt end)
unfolding write_response write_ctap2_response response_reports
reply_reports-AllReports signer lib evt silent = tt
reply_reports-AllReports signer lib evt fatal = tt
reply_reports-AllReports signer lib evt panicked = tt
reply_reports-AllReports signer lib evt (replied (u2f payload status)) =
    response_reports-AllReports evt.chan_id evt.cmd payload status
reply_reports-AllReports signer lib evt (replied (ctap2 status payload)) =
    response_reports-AllReports evt.chan_id cmd_cbor (status ∷ payload) 0
