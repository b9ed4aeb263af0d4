-- ===== src/Pinentry/Binary.antt =====
-- pinentry/pinentry.go: the dialog program. `exec.LookPath` is a parameter, and the empty string stands
-- for a program that is not found, as in the code.
use linux_id.Common.{
  ◌≡◌, sym, ap, ◌∙◌, true, false, not, ◌&&◌, List, [], ◌∷◌, Bytes, codes, bytes_equal,
  bytes_equal→eq, Bool-cases, inl, inr, All, if◌then◌else◌,
}

abbrev pub candidates : List Bytes
candidates =
    codes "pinentry"
    ∷ codes "pinentry-gtk"
    ∷ codes "pinentry-qt"
    ∷ codes "pinentry-qt5"
    ∷ codes "pinentry-qt4"
    ∷ codes "pinentry-x11"
    ∷ codes "pinentry-fltk"
    ∷ []

module _ (look_path : Bytes → Bytes) where
  unfoldable pub first_found : List Bytes → Bytes
  first_found [] = []
  first_found (c ∷ cs) =
      let rest = first_found cs in if not (bytes_equal (look_path c) []) then look_path c else rest

  -- `FindPinentryGUIPath` by the value of `PINENTRY_PATH`.
  unfoldable pub find_pinentry_gui_path : Bytes → Bytes
  find_pinentry_gui_path path =
      if not (bytes_equal path []) && not (bytes_equal (look_path path) [])
      then look_path path
      else first_found candidates

  -- The program that `prompt` starts.
  unfoldable pub client_binary : Bytes → Bytes
  client_binary path =
      if bytes_equal (find_pinentry_gui_path path) []
      then codes "pinentry"
      else find_pinentry_gui_path path

  -- The search fails only if no candidate is found.
  first_found-All : (cs : List Bytes) → first_found cs ≡ [] → All (λ c. look_path c ≡ []) cs
  unfolding first_found
  first_found-All [] e = tt
  first_found-All (c ∷ cs) e = elim (Bool-cases (bytes_equal (look_path c) [])) [
    | inl h ↦ (bytes_equal→eq (look_path c) [] h, first_found-All cs (rw h at e))
    | inr h ↦
        let missing : look_path c ≡ [] = rw h at e in
        absurd (clash (sym h ∙ ap (λ (p : Bytes). bytes_equal p []) missing))
  ]
    where
      clash : false ≡ true → ⊥
      clash z = cc
