-- ===== src/Ctap2/CredStore/Laws.antt =====
-- ctap2/credstore.go: what `Save` does to the list of credentials.
use linux_id.Common.{
  ◌≡◌, refl, sym, ap, ◌∙◌, inl, inr, true, false, Option, none, some, List, [], ◌∷◌, Bytes,
  bytes_equal, bytes_equal→eq, bytes_equal_refl, Bool-cases, Option-cases, if◌then◌else◌, arith,
}
use linux_id.Ctap2.CredStore.{StoredCredential, replace_first, saved_list}

-- The entry that a credential id names: the first with it.
abbrev pub lookup_id : Bytes → List StoredCredential → Option StoredCredential
lookup_id i [] = none
lookup_id i (c ∷ cs) = if bytes_equal c.cred_id i then some c else lookup_id i cs

-- No two entries share a credential id.
abbrev pub DistinctIds : List StoredCredential → Type 0
DistinctIds [] = Unit {0}
DistinctIds (c ∷ cs) = (lookup_id c.cred_id cs ≡ none) × DistinctIds cs

bytes_equal_sym : (a b : Bytes) → bytes_equal a b ≡ bytes_equal b a
bytes_equal_sym a b = elim (Bool-cases (bytes_equal a b)) [
  | inl e ↦ rw (bytes_equal→eq a b e)
  | inr n ↦ elim (Bool-cases (bytes_equal b a)) [
    | inl e ↦ rw (bytes_equal→eq b a e)
    | inr m ↦ n ∙ sym m
  ]
]

pub saved_list-hit :
    (c x : StoredCredential) (xs : List StoredCredential)
    → bytes_equal x.cred_id c.cred_id ≡ true
    → saved_list c (x ∷ xs) ≡ c ∷ xs
unfolding saved_list replace_first
saved_list-hit c x xs h = rw h

pub saved_list-miss :
    (c x : StoredCredential) (xs : List StoredCredential)
    → bytes_equal x.cred_id c.cred_id ≡ false
    → saved_list c (x ∷ xs) ≡ x ∷ saved_list c xs
unfolding saved_list replace_first
saved_list-miss c x xs h = elim (Option-cases (replace_first c xs)) [
  | inl e ↦ rw (h, e)
  | inr (ys, e) ↦ rw (h, e)
]

-- What the saved list holds under each id: the new credential under its own, and what was there
-- under any other.
pub lookup_id-saved_list :
    (i : Bytes) (c : StoredCredential) (cs : List StoredCredential)
    → lookup_id i (saved_list c cs) ≡ (if bytes_equal c.cred_id i then some c else lookup_id i cs)
lookup_id-saved_list i c [] = unfold saved_list replace_first in refl
lookup_id-saved_list i c (x ∷ xs) = elim (Bool-cases (bytes_equal x.cred_id c.cred_id)) [
  | inl e ↦
      rw (saved_list-hit c x xs e)
        (ground (arith, ap (λ (b : Bytes). bytes_equal b i) (bytes_equal→eq x.cred_id c.cred_id e)))
  | inr e ↦ rw (saved_list-miss c x xs e) (
      ground (
        arith,
        lookup_id-saved_list i c xs,
        e,
        bytes_equal→eq x.cred_id i,
        bytes_equal→eq c.cred_id i,
        bytes_equal_refl i,
      ))
]

-- Saving keeps the ids of the list distinct.
saved_list-DistinctIds :
    (c : StoredCredential) (cs : List StoredCredential)
    → DistinctIds cs
    → DistinctIds (saved_list c cs)
saved_list-DistinctIds c [] d = unfold saved_list replace_first in (refl, tt)
saved_list-DistinctIds c (x ∷ xs) d = elim (Bool-cases (bytes_equal x.cred_id c.cred_id)) [
  | inl e ↦ rw (saved_list-hit c x xs e) (rw (← bytes_equal→eq x.cred_id c.cred_id e) d.0, d.1)
  | inr e ↦ rw (saved_list-miss c x xs e) (
    rw (lookup_id-saved_list x.cred_id c xs, bytes_equal_sym c.cred_id x.cred_id, e) d.0,
    saved_list-DistinctIds c xs d.1,
  )
]
