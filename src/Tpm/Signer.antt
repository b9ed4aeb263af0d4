-- ===== src/Tpm/Signer.antt =====
-- tpm/tpm.go: `RegisterKey` and `SignASN1`. Deferred calls run behind the rest of a function, on every path.
use linux_id.Common.{ℕ, Bool, true, false, Option, none, some, Bytes, from_be}
use linux_id.Server.Types.{RegisteredKey, Signer}
use linux_id.Tpm.Handle.{HandleParts, encode_handle, decode_handle}
use linux_id.Tpm.Device.{
  Device, Loaded, primary_key_template, child_template, tpm_counter, seed_size_bytes,
}

module _ {W : Type 0} (dev : Device W) where
  -- The TPM, and the result or an error.
  abbrev pub Run : Type 0 → Type 0
  Run A = W × Option A

  abbrev pub failed_run : {A : Type 0} → W → Run A
  failed_run w = (w, none)

  abbrev pub finish_run : {A : Type 0} → W → Option A → Run A
  finish_run w r = (w, r)

  abbrev pub closing : {A : Type 0} → Run A → Run A
  closing (w, r) = (dev.close_device w, r)

  -- `open` and the deferred `Close`.
  abbrev pub connected : {A : Type 0} → W × Bool → (W → Run A) → Run A
  connected (w, false) body = failed_run w
  connected (w, true) body = closing (body w)

  abbrev pub flushing : {A : Type 0} → ℕ → Run A → Run A
  flushing h (w, r) = (dev.flush w h, r)

  -- A command that makes an object, and the deferred `FlushContext`.
  abbrev pub holding : {A : Type 0} → W × Option Loaded → (W → Loaded → Run A) → Run A
  holding (w, none) body = failed_run w
  holding (w, some o) body = flushing o.handle (body w o)

  abbrev pub public_key : HandleParts → Option (Bytes × Bytes) → Option RegisteredKey
  public_key parts none = none
  public_key parts (some (x, y)) =
      some (record { key_handle = encode_handle parts; x = from_be 0 x; y = from_be 0 y })

  abbrev pub public_area_read : HandleParts → W × Option Bytes → Run RegisteredKey
  public_area_read parts (w, none) = failed_run w
  public_area_read parts (w, some area) = finish_run w (public_key parts (dev.ecc_point area))

  abbrev pub created : Loaded → Bytes → W × Option (Bytes × Bytes) → Run RegisteredKey
  created parent seed (w, none) = failed_run w
  created parent seed (w, some (private_area, public_area)) =
      holding (dev.load w parent private_area public_area) λ w' key.
        public_area_read
          (record { private_area = private_area; public_area = public_area; seed = seed })
          (dev.read_public w' key.handle)

  abbrev pub seeded : Bytes → W × Bytes → Run RegisteredKey
  seeded application_param (w, seed) =
      holding (dev.create_primary w (primary_key_template dev seed application_param))
        λ w' parent. created parent seed (dev.create w' parent child_template)

  unfoldable pub tpm_register_key : W → Bytes → Run RegisteredKey
  tpm_register_key w application_param =
      connected (dev.open_device w) λ w'. seeded application_param (dev.random w' seed_size_bytes)

  abbrev pub asn1 : Option (Bytes × Bytes) → Option Bytes
  asn1 none = none
  asn1 (some (r, s)) = dev.der (from_be 0 r) (from_be 0 s)

  abbrev pub signed : W × Option Bytes → Run Bytes
  signed (w, none) = failed_run w
  signed (w, some sig) = finish_run w (asn1 (dev.ecdsa sig))

  abbrev pub with_parts : W → Bytes → Bytes → Option HandleParts → Run Bytes
  with_parts w application_param digest none = failed_run w
  with_parts w application_param digest (some parts) =
      holding (dev.create_primary w (primary_key_template dev parts.seed application_param))
        λ w' parent.
          holding (dev.load w' parent parts.private_area parts.public_area)
            λ w'' key. signed (dev.sign w'' key digest)

  unfoldable pub tpm_sign_asn1 : W → Bytes → Bytes → Bytes → Run Bytes
  tpm_sign_asn1 w key_handle application_param digest =
      connected (dev.open_device w)
        λ w'. with_parts w' application_param digest (decode_handle key_handle)

  -- The interface that the server uses.
  abbrev pub tpm_signer : Signer W
  tpm_signer = record {
    register_key = tpm_register_key;
    sign_asn1 = tpm_sign_asn1;
    counter = tpm_counter dev;
  }
