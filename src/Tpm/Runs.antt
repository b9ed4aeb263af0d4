-- ===== src/Tpm/Runs.antt =====
-- tpm/tpm.go: the result of code between taking something from the TPM and giving it back.
use linux_id.Common.{◌≡◌, ◌∙◌, refl, ap, Bool, true, false, Option, none, some}
use linux_id.Tpm.Device.{Device, Loaded}
use linux_id.Tpm.Signer.{Run, connected, holding}

module _ {W : Type 0} (dev : Device W) where
  -- Every result of a stretch of code has a property.
  abbrev pub Each : {A : Type 0} → (A → Type 0) → Run dev A → Type 0
  Each {A} P r = (x : A) → r.1 ≡ some x → P x

  -- It has a result.
  abbrev pub Gives : {A : Type 0} → Run dev A → Type 0
  Gives {A} r = (x : A) × (r.1 ≡ some x)

  pub none-Each : {A : Type 0} (P : A → Type 0) (w : W) → Each P (w, none)
  none-Each P w x e = absurd (clash e)
    where
      clash : none ≡ some x → ⊥
      clash z = cc

  pub connected-Each :
      {A : Type 0} (P : A → Type 0) (r : W × Bool) (body : W → Run dev A)
      → ((w : W) → Each P (body w))
      → Each P (connected dev r body)
  connected-Each P (w, false) body each = none-Each P w
  connected-Each P (w, true) body each = each w

  pub holding-Each :
      {A : Type 0} (P : A → Type 0) (r : W × Option Loaded) (body : W → Loaded → Run dev A)
      → ((w : W) (o : Loaded) → r ≡ (w, some o) → Each P (body w o))
      → Each P (holding dev r body)
  holding-Each P (w, none) body each = none-Each P w
  holding-Each P (w, some o) body each = each w o refl

  pub connected-Gives :
      {A : Type 0} (r : W × Bool) (body : W → Run dev A)
      → r.1 ≡ true
      → ((w : W) → Gives (body w))
      → Gives (connected dev r body)
  connected-Gives (w, false) body e gives = cc
  connected-Gives (w, true) body e gives = gives w

  pub holding-Gives :
      {A : Type 0} (r : W × Option Loaded) (body : W → Loaded → Run dev A) (v : W) (o : Loaded)
      → r ≡ (v, some o)
      → Gives (body v o)
      → Gives (holding dev r body)
  holding-Gives r body v o e (x, given) =
      (x, ap (λ (s : W × Option Loaded). (holding dev s body).1) e ∙ given)

  pub refused_with-none :
      {A : Type 0} (r : W × Option Loaded) (body : W → Loaded → Run dev A)
      → r.1 ≡ none
      → (holding dev r body).1 ≡ none
  refused_with-none (w, none) body e = refl
  refused_with-none (w, some o) body e = cc

  pub holding-none :
      {A : Type 0} (r : W × Option Loaded) (body : W → Loaded → Run dev A) (v : W) (o : Loaded)
      → r ≡ (v, some o)
      → (body v o).1 ≡ none
      → (holding dev r body).1 ≡ none
  holding-none r body v o e bad = ap (λ (s : W × Option Loaded). (holding dev s body).1) e ∙ bad

  pub connected-none :
      {A : Type 0} (r : W × Bool) (body : W → Run dev A)
      → ((w : W) → (body w).1 ≡ none)
      → (connected dev r body).1 ≡ none
  connected-none (w, false) body e = refl
  connected-none (w, true) body e = e w
