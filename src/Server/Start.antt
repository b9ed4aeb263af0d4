-- ===== src/Server/Start.antt =====
-- main.go: `newServer`, by the flags `--backend` and `--auth` and by what `tpm.New` and `memory.New`
-- would give; `none` is an error of theirs. The credential store is the disk itself.
use linux_id.Common.{◌≡◌, false, Option, none, some, Bytes, codes, bytes_equal, if◌then◌else◌}
use linux_id.Verifier.{UserVerifier, pinentry, fprintd, CachingVerifier, new_caching_verifier}

-- The field `signer`; `no_signer` is the nil interface.
pub data ChosenSigner (T M : Type 0) : Type 0 where
  tpm_backend : T → ChosenSigner T M
  memory_backend : M → ChosenSigner T M
  no_signer : ChosenSigner T M

pub record NewServer (T M : Type 0) : Type 0 where
  pub verifier : CachingVerifier
  pub signer : ChosenSigner T M

abbrev pub chosen_verifier : Bytes → UserVerifier
chosen_verifier auth = if bytes_equal auth (codes "fprintd") then fprintd else pinentry

module _ {T M : Type 0} where
  abbrev pub started_with : CachingVerifier → Option (ChosenSigner T M) → Option (NewServer T M)
  started_with v none = none
  started_with v (some s) = some (record { verifier = v; signer = s })

  abbrev pub tpm_made : Option T → Option (ChosenSigner T M)
  tpm_made none = none
  tpm_made (some t) = some (tpm_backend t)

  abbrev pub memory_made : Option M → Option (ChosenSigner T M)
  memory_made none = none
  memory_made (some m) = some (memory_backend m)

  -- `none` is the panic.
  unfoldable pub new_server : Bytes → Bytes → Option T → Option M → Option (NewServer T M)
  new_server backend auth tpm memory = started_with (new_caching_verifier (chosen_verifier auth)) (
      if bytes_equal backend (codes "tpm")
      then tpm_made tpm
      else if bytes_equal backend (codes "memory")
      then memory_made memory
      else some no_signer)

  -- With a backend of another name the server starts without a signer, and no error is reported.
  new_server-no_signer :
      (backend auth : Bytes) (tpm : Option T) (memory : Option M)
      → bytes_equal backend (codes "tpm") ≡ false
      → bytes_equal backend (codes "memory") ≡ false
      → new_server backend auth tpm memory
        ≡ some
            (record { verifier = new_caching_verifier (chosen_verifier auth); signer = no_signer })
  unfolding new_server
  new_server-no_signer backend auth tpm memory t m = rw (t, m)
