-- ===== src/Parallel/Recorder.antt =====
-- fidohid/fidohid.go: the reports that a stretch of code writes, taken apart from the device.
use linux_id.Common.{
  ℕ, ◌≡◌, refl, sym, ap, ◌∙◌, Bool, true, false, List, [], ◌∷◌, ◌++◌, Bytes, map, append-nil,
  append_assoc, length, arith,
}
use linux_id.Hid.Write.{
  Input2Request, request_of, Written, sent, after_write, write_loop, write_respose,
}
use linux_id.Hid.FrameList.{frames, with_status, write_all, write_respose-frames}

-- A device that takes every report and only keeps them, in order.
abbrev pub record_write : List Input2Request → Input2Request → List Input2Request × Bool
record_write d r = (d ++ (r ∷ []), true)

-- The frames of a response; an empty one has none.
abbrev pub response_frames : ℕ → ℕ → Bytes → List Bytes
response_frames chan_id cmd [] = []
response_frames chan_id cmd (b ∷ bs) = frames chan_id cmd (b ∷ bs)

abbrev pub refused_or : {Dev : Type 0} → Dev × Bool → (Dev → Dev) → Dev
refused_or (d, true) next = next d
refused_or (d, false) next = d

module _ {Dev : Type 0} (write_event : Dev → Input2Request → Dev × Bool) where
  -- Reports are written one after the other, up to the first that is refused.
  unfoldable pub write_until : Dev → List Input2Request → Dev
  write_until d [] = d
  write_until d (r ∷ rs) = refused_or (write_event d r) (λ d'. write_until d' rs)

  refused_or-after_write :
      (r : Dev × Bool) (f : Dev → Dev × Written) (g : Dev → Dev)
      → ((d : Dev) → (f d).0 ≡ g d)
      → (after_write write_event r f).0 ≡ refused_or r g
  refused_or-after_write (d, true) f g h = h d
  refused_or-after_write (d, false) f g h = refl

  write_all-write_until :
      (d : Dev) (fs : List Bytes)
      → (write_all write_event d fs).0 ≡ write_until d (map request_of fs)
  unfolding write_all write_until
  write_all-write_until d [] = refl
  write_all-write_until d (f ∷ fs) =
      refused_or-after_write (write_event d (request_of f)) _ _ (λ d'. write_all-write_until d' fs)

  write_respose-nothing :
      (d : Dev) (chan_id cmd status : ℕ) (payload : Bytes)
      → with_status payload status ≡ []
      → write_respose write_event d chan_id cmd payload status ≡ (d, sent)
  unfolding write_respose write_loop
  write_respose-nothing d chan_id cmd status payload e = rw e refl

  body_frames :
      (d : Dev) (chan_id cmd status : ℕ) (payload body : Bytes)
      → with_status payload status ≡ body
      → write_respose write_event d chan_id cmd payload status
        ≡ write_all write_event d (response_frames chan_id cmd body)
  unfolding write_all
  body_frames d chan_id cmd status payload [] e =
      write_respose-nothing d chan_id cmd status payload e
  body_frames d chan_id cmd status payload (b ∷ bs) e =
      write_respose-frames write_event d chan_id cmd payload status (omega (arith, ap length e))
      ∙ ap (λ (x : Bytes). write_all write_event d (frames chan_id cmd x)) e

  write_respose-write_all :
      (d : Dev) (chan_id cmd status : ℕ) (payload : Bytes)
      → write_respose write_event d chan_id cmd payload status
        ≡ write_all write_event d (response_frames chan_id cmd (with_status payload status))
  write_respose-write_all d chan_id cmd status payload =
      body_frames d chan_id cmd status payload (with_status payload status) refl

pub write_all-record_write :
    (d : List Input2Request) (fs : List Bytes)
    → (write_all record_write d fs).0 ≡ d ++ map request_of fs
unfolding write_all
write_all-record_write d [] = sym (append-nil d)
write_all-record_write d (f ∷ fs) =
    write_all-record_write (d ++ (request_of f ∷ [])) fs
    ∙ append_assoc d (request_of f ∷ []) (map request_of fs)

-- The reports of a response.
unfoldable pub response_reports : ℕ → ℕ → Bytes → ℕ → List Input2Request
response_reports chan_id cmd payload status =
    (write_respose record_write [] chan_id cmd payload status).0

pub response_reports-map :
    (chan_id cmd status : ℕ) (payload : Bytes)
    → response_reports chan_id cmd payload status
      ≡ map request_of (response_frames chan_id cmd (with_status payload status))
unfolding response_reports
response_reports-map chan_id cmd status payload =
    ap (λ (r : List Input2Request × Written). r.0)
      (write_respose-write_all record_write [] chan_id cmd status payload)
    ∙ write_all-record_write [] _

-- The recorder keeps the reports of a response behind those that it has.
pub write_respose-record_write :
    (d : List Input2Request) (chan_id cmd status : ℕ) (payload : Bytes)
    → (write_respose record_write d chan_id cmd payload status).0
      ≡ d ++ response_reports chan_id cmd payload status
write_respose-record_write d chan_id cmd status payload =
    ap (λ (r : List Input2Request × Written). r.0)
      (write_respose-write_all record_write d chan_id cmd status payload)
    ∙ write_all-record_write d _
    ∙ ap (λ (rs : List Input2Request). d ++ rs)
        (sym (response_reports-map chan_id cmd status payload))

-- On any device `writeRespose` writes the reports of the response, up to the first that is refused.
pub write_respose-write_until :
    {Dev : Type 0} (write_event : Dev → Input2Request → Dev × Bool) (d : Dev)
    (chan_id cmd status : ℕ) (payload : Bytes)
    → (write_respose write_event d chan_id cmd payload status).0
      ≡ write_until write_event d (response_reports chan_id cmd payload status)
write_respose-write_until {Dev} write_event d chan_id cmd status payload =
    ap (λ (r : Dev × Written). r.0)
      (write_respose-write_all write_event d chan_id cmd status payload)
    ∙ write_all-write_until write_event d _
    ∙ ap (write_until write_event d) (sym (response_reports-map chan_id cmd status payload))
