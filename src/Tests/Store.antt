-- ===== src/Tests/Store.antt =====
-- The theorems on the credential store and on the verifier's cache, applied.
use linux_id.Common.{ℕ, ◌≡◌, ◌-◌, ◌<◌, ◌⊎◌, refl, true, false, none, some, [], ◌∷◌, ok}
use linux_id.Ctap2.CredStore.{
  StoredCredential, Disk, rename_error, saved_list, load, store, save, save_loaded, write_encoded,
  write_file, replace_first,
}
use linux_id.Ctap2.CredStore.Files.{save_failed, load-save}
use linux_id.Verifier.{
  Prompt, fprintd, uv_cache_ttl, verify_user, new_caching_verifier, is_cached, wait_for,
  note_result,
}
use linux_id.Verifier.Laws.{
  IsOk, call, GaveOk, Any, verifier_run, verifier_step, verify_user-recent,
}
use linux_id.Tests.Data.{marshal, unmarshal, reads_back, empty_disk, confirmed}

abbrev ada : StoredCredential
ada = record {
  cred_id = 7 ∷ [];
  rp_id_hash = 1 ∷ 2 ∷ [];
  rp_id = 101 ∷ [];
  rp_name = [];
  user_id = 4 ∷ [];
  user_name = 97 ∷ [];
  display_name = 65 ∷ [];
}

abbrev bob : StoredCredential
bob = record ada { cred_id = 8 ∷ []; user_id = 5 ∷ [] }

abbrev full_disk : Disk
full_disk = record empty_disk { file = marshal (ada ∷ []) }

abbrev stuck_disk : Disk
stuck_disk = record full_disk { rename_denied = true }

abbrev stuck_after : Disk
stuck_after = record stuck_disk { tmp = marshal (ada ∷ bob ∷ []) }

rename_fails : save marshal unmarshal stuck_disk bob ≡ (stuck_after, some rename_error)
unfolding save save_loaded store write_encoded write_file load saved_list replace_first
rename_fails = refl

save_failed_example : stuck_after.file ≡ stuck_disk.file
save_failed_example =
    save_failed marshal unmarshal stuck_disk stuck_after bob rename_error rename_fails

abbrev saved_disk : Disk
saved_disk = record full_disk { file = marshal (ada ∷ bob ∷ []) }

full_disk_loads : load marshal unmarshal full_disk ≡ ok (ada ∷ [])
unfolding load
full_disk_loads = refl

bob_saved : save marshal unmarshal full_disk bob ≡ (saved_disk, none)
unfolding save save_loaded store write_encoded write_file load saved_list replace_first
bob_saved = refl

load-save_example :
    (load marshal unmarshal saved_disk ≡ ok (saved_list bob (ada ∷ []))) × (saved_disk.tmp ≡ none)
unfolding saved_list replace_first
load-save_example =
    load-save marshal unmarshal full_disk saved_disk bob (ada ∷ []) (reads_back (ada ∷ bob ∷ []))
      refl full_disk_loads bob_saved

-- A call after the one that was confirmed, which starts no dialog.
abbrev again : Prompt
again = record { now = 30; starts = false; result = none }

again-IsOk :
    IsOk (verify_user (verifier_run (new_caching_verifier fprintd) (call confirmed ∷ [])) again).1
unfolding verify_user verifier_run verifier_step new_caching_verifier is_cached wait_for note_result
again-IsOk = refl

verify_user-recent_example :
    ((t : ℕ) × GaveOk t (call again))
    ⊎ ((t : ℕ) × Any (GaveOk t) (call confirmed ∷ []) × (again.now - t < uv_cache_ttl))
verify_user-recent_example = verify_user-recent fprintd (call confirmed ∷ []) again again-IsOk
