-- ===== src/Verifier/Laws.antt =====
-- main.go: what an answer of the caching verifier rests on.
use linux_id.Common.{
  ℕ, ◌-◌, ◌<◌, ◌≡◌, ◌⊎◌, inl, inr, refl, true, Option, none, some, List, [], ◌∷◌, Bool-cases,
  Option-cases, ltb→lt, ◌∙◌, arith,
}
use linux_id.Verifier.{
  CachingVerifier, VerifyResult, Prompt, Answer, answered, could_not_start, timed_out, is_cached,
  note_result, wait_for, verify_user, new_caching_verifier, UserVerifier, uv_cache_ttl,
}

-- The answer to a call is a success.
abbrev pub IsOk : Answer → Type 0
IsOk (answered r) = r.ok ≡ true
IsOk could_not_start = ⊥
IsOk timed_out = ⊥

-- One call, or a result that arrives after its handler gave up.
pub data VerifierEvent : Type 0 where
  call : Prompt → VerifierEvent
  late : ℕ → VerifyResult → VerifierEvent

unfoldable pub verifier_step : CachingVerifier → VerifierEvent → CachingVerifier
verifier_step v (call p) = (verify_user v p).0
verifier_step v (late t r) = note_result v t r

unfoldable pub verifier_run : CachingVerifier → List VerifierEvent → CachingVerifier
verifier_run v [] = v
verifier_run v (e ∷ es) = verifier_run (verifier_step v e) es

-- The user gave a success at time `t` in this event.
abbrev pub GaveOk : ℕ → VerifierEvent → Type 0
GaveOk t (call p) =
    (p.starts ≡ true) × ((r : VerifyResult) × (p.result ≡ some (t, r)) × (r.ok ≡ true))
GaveOk t (late u r) = (u ≡ t) × (r.ok ≡ true)

-- Some event of the history satisfies the predicate.
abbrev pub Any : (VerifierEvent → Type 0) → List VerifierEvent → Type 0
Any P [] = ⊥
Any P (e ∷ es) = P e ⊎ Any P es

noted :
    (v : CachingVerifier) (u : ℕ) (r : VerifyResult) (t : ℕ)
    → (note_result v u r).last_ok ≡ some t
    → ((u ≡ t) × (r.ok ≡ true)) ⊎ (v.last_ok ≡ some t)
unfolding note_result
noted v u r t h = ground arith

waited :
    (v : CachingVerifier) (o : Option (ℕ × VerifyResult)) (t : ℕ)
    → (wait_for v o).0.last_ok ≡ some t
    → ((r : VerifyResult) × (o ≡ some (t, r)) × (r.ok ≡ true)) ⊎ (v.last_ok ≡ some t)
unfolding wait_for
waited v none t h = inr h
waited v (some (u, r)) t h = elim (noted v u r t h) [
  | inl (e, k) ↦ inl (r, rw e, k)
  | inr k ↦ inr k
]

-- A noted success is that of the event, or was noted before.
verifier_step-last_ok :
    (v : CachingVerifier) (e : VerifierEvent) (t : ℕ)
    → (verifier_step v e).last_ok ≡ some t
    → GaveOk t e ⊎ (v.last_ok ≡ some t)
unfolding verifier_step verify_user
verifier_step-last_ok v (late u r) t h = noted v u r t h
verifier_step-last_ok v (call p) t h = elim (Bool-cases (is_cached v p.now)) [
  | inl hit ↦ inr (rw (hit, verify_user, verifier_step) at h)
  | inr miss ↦ elim (Bool-cases p.starts) [
    | inl starts ↦ elim (waited v p.result t (rw (miss, starts, verify_user, verifier_step) at h)) [
      | inl given ↦ inl (starts, given)
      | inr old ↦ inr old
    ]
    | inr refused ↦ inr (rw (miss, refused, verify_user, verifier_step) at h)
  ]
]

verifier_run-last_ok :
    (v : CachingVerifier) (es : List VerifierEvent) (t : ℕ)
    → (verifier_run v es).last_ok ≡ some t
    → Any (GaveOk t) es ⊎ (v.last_ok ≡ some t)
unfolding verifier_run
verifier_run-last_ok v [] t h = inr h
verifier_run-last_ok v (e ∷ es) t h = elim (verifier_run-last_ok (verifier_step v e) es t h) [
  | inl later ↦ inl (inr later)
  | inr now ↦ elim (verifier_step-last_ok v e t now) [
    | inl here ↦ inl (inl here)
    | inr before ↦ inr before
  ]
]

verifier_step-ttl : (v : CachingVerifier) (e : VerifierEvent) → (verifier_step v e).ttl ≡ v.ttl
unfolding verifier_step verify_user wait_for note_result
verifier_step-ttl v (call p) = ground arith
verifier_step-ttl v (late t r) = ground arith

verifier_run-ttl : (v : CachingVerifier) (es : List VerifierEvent) → (verifier_run v es).ttl ≡ v.ttl
unfolding verifier_run
verifier_run-ttl v [] = refl
verifier_run-ttl v (e ∷ es) = verifier_run-ttl (verifier_step v e) es ∙ verifier_step-ttl v e

cached_recent :
    (v : CachingVerifier) (now : ℕ)
    → is_cached v now ≡ true
    → (t : ℕ) × (v.last_ok ≡ some t) × (now - t < v.ttl)
unfolding is_cached
cached_recent v now h = elim (Option-cases v.last_ok) [
  | inl e ↦ absurd (ground arith)
  | inr (t, e) ↦ (t, e, ltb→lt (now - t) v.ttl (rw (e, is_cached) at h))
]

wait_for_ok :
    (v : CachingVerifier) (o : Option (ℕ × VerifyResult))
    → IsOk (wait_for v o).1
    → (t : ℕ) × (r : VerifyResult) × (o ≡ some (t, r)) × (r.ok ≡ true)
unfolding wait_for
wait_for_ok v none h = absurd h
wait_for_ok v (some (t, r)) h = (t, r, refl, h)

verify_user_ok :
    (v : CachingVerifier) (p : Prompt)
    → IsOk (verify_user v p).1
    → ((t : ℕ) × GaveOk t (call p)) ⊎ ((t : ℕ) × (v.last_ok ≡ some t) × (p.now - t < v.ttl))
unfolding verify_user
verify_user_ok v p h = elim (Bool-cases (is_cached v p.now)) [
  | inl hit ↦ inr (cached_recent v p.now hit)
  | inr miss ↦ elim (Bool-cases p.starts) [
    | inl starts ↦
        let (t, r, e, k) = wait_for_ok v p.result (rw (miss, starts, verify_user) at h) in
        inl (t, (starts, (r, e, k)))
    | inr refused ↦ absurd (rw (miss, refused, verify_user) at h)
  ]
]

-- A success that the cache still holds was given in the history.
cached_given :
    (inner : UserVerifier) (es : List VerifierEvent) (t : ℕ)
    → (verifier_run (new_caching_verifier inner) es).last_ok ≡ some t
    → Any (GaveOk t) es
unfolding new_caching_verifier
cached_given inner es t h = elim (verifier_run-last_ok (new_caching_verifier inner) es t h) [
  | inl given ↦ given
  | inr start ↦ absurd (none_some start)
]
  where
    none_some : Option.none ≡ some t → ⊥
    none_some e = cc

-- After any history of calls and late results, starting with an empty cache, a call is answered
-- with success only if the user confirmed in this very call, or confirmed at some time of the
-- history that is less than the five seconds of the cache before the call, or not before it.
pub verify_user-recent :
    (inner : UserVerifier) (es : List VerifierEvent) (p : Prompt)
    → IsOk (verify_user (verifier_run (new_caching_verifier inner) es) p).1
    → ((t : ℕ) × GaveOk t (call p)) ⊎ ((t : ℕ) × Any (GaveOk t) es × (p.now - t < uv_cache_ttl))
unfolding new_caching_verifier
verify_user-recent inner es p h =
    elim (verify_user_ok (verifier_run (new_caching_verifier inner) es) p h) [
      | inl now ↦ inl now
      | inr (t, e, recent) ↦ inr (
        t,
        cached_given inner es t e,
        omega (arith, verifier_run-ttl (new_caching_verifier inner) es),
      )
    ]
