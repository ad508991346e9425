-- ===== src/Signal/Real/Resolves.antt =====
-- src/signal/real.rs: when `next` resolves.
use condrun.Prelude.{
  ℕ, zero, suc, ◌+◌, ◌≤◌, ◌≡◌, refl, ◌⊎◌, inl, inr, Bool-cases, Option-cases, none, some, List, [],
  ◌∷◌, ◌++◌, leb, arith, if◌then◌else◌,
}
use condrun.Async.{Async, Runtime, IsRuntime}
use condrun.Async.Select.{IsPrompt}
use condrun.Signal.{SignalKind, interrupt, terminate}
use condrun.Signal.Real.{
  Streams, RealSignals, earliest_of, first_of, rotate, select_from, arm, arms, next, stream_of,
}

module _ {A : Type 0} where
  -- One of the arms resolves by this instant.
  abbrev pub ResolvesBy : ℕ → List (Async A) → Type 0
  ResolvesBy t [] = ⊥
  ResolvesBy t (a ∷ as') = ((u : ℕ) × (x : A) × (a ≡ some (u, x)) × (u ≤ t)) ⊎ ResolvesBy t as'

  ResolvesBy-append :
      (t : ℕ) (a : Async A) (as' : List (Async A))
      → ResolvesBy t (a ∷ as')
      → ResolvesBy t (as' ++ a ∷ [])
  ResolvesBy-append t a [] h = h
  ResolvesBy-append t a (b ∷ as') (inl own) = inr (ResolvesBy-append t a as' (inl own))
  ResolvesBy-append t a (b ∷ as') (inr (inl next)) = inl next
  ResolvesBy-append t a (b ∷ as') (inr (inr later)) = inr (ResolvesBy-append t a as' (inr later))

  ResolvesBy-rotate :
      (t n : ℕ) (as' : List (Async A)) → ResolvesBy t as' → ResolvesBy t (rotate n as')
  ResolvesBy-rotate t zero as' h = h
  ResolvesBy-rotate t (suc n) [] h = h
  ResolvesBy-rotate t (suc n) (a ∷ as') h =
      ResolvesBy-rotate t n (as' ++ a ∷ []) (ResolvesBy-append t a as' h)

  -- The poll at an instant by which an arm resolves finds one.
  first_of_ready :
      (t p : ℕ) (as' : List (Async A))
      → ResolvesBy t as'
      → t ≤ p
      → (x : A) × (first_of p as' ≡ some (p, x))
  first_of_ready t p [] found h = elim found [ ]
  first_of_ready t p (none ∷ as') (inl (u, x, e, le)) h = absurd (cc)
  first_of_ready t p (none ∷ as') (inr later) h = first_of_ready t p as' later h
  first_of_ready t p (some (u, x) ∷ as') (inl (v, y, e, le)) h = (x, ground (arith, e))
  first_of_ready t p (some (u, x) ∷ as') (inr later) h = elim (Bool-cases (leb u p)) [
    | inl early ↦ (x, ground (arith, early))
    | inr late ↦ let (y, q) = first_of_ready t p as' later h in (y, ground (arith, late, q))
  ]

  -- The earliest end of the arms is one of theirs.
  earliest_of_own : (v : ℕ) (as' : List (Async A)) → earliest_of as' ≡ some v → ResolvesBy v as'
  earliest_of_own v [] e = absurd (cc)
  earliest_of_own v (none ∷ as') e = inr (earliest_of_own v as' e)
  earliest_of_own v (some (u, x) ∷ as') e = elim (Option-cases (earliest_of as')) [
    | inl alone ↦ inl (u, x, refl, ground (arith, e, alone))
    | inr (t, also) ↦ elim (Bool-cases (leb u t)) [
      | inl first ↦ inl (u, x, refl, ground (arith, e, also, first))
      | inr later ↦ inr (earliest_of_own v as' (ground (arith, e, also, later)))
    ]
  ]

  -- And it comes no later than any.
  earliest_of_le :
      (t : ℕ) (as' : List (Async A))
      → ResolvesBy t as'
      → (v : ℕ) × (earliest_of as' ≡ some v) × (v ≤ t)
  earliest_of_le t [] h = elim h [ ]
  earliest_of_le t (none ∷ as') (inl (u, x, e, le)) = absurd (cc)
  earliest_of_le t (none ∷ as') (inr later) = earliest_of_le t as' later
  earliest_of_le t (some (u, x) ∷ as') (inl (v, y, e, le)) = elim (Option-cases (earliest_of as')) [
    | inl alone ↦ (u, rw alone refl, ground (arith, e))
    | inr (w, also) ↦ (if leb u w then u else w, rw also refl, ground (arith, e))
  ]
  earliest_of_le t (some (u, x) ∷ as') (inr later) =
      let (w, also, le) = earliest_of_le t as' later in
      (if leb u w then u else w, rw also refl, ground arith)

arm_ready :
    (st : Streams) (kind : SignalKind) (put : st.Stream → RealSignals st) (a : Async st.Stream)
    (u : ℕ) (x : st.Stream)
    → a ≡ some (u, x)
    → (v : ℕ) × (y : SignalKind × RealSignals st) × (arm st kind put a ≡ some (v, y)) × (v ≤ u)
arm_ready st kind put a u x e = (u, (kind, put x), rw e refl, omega arith)

-- A `next` whose stream of some kind has a signal by an instant returns a signal, of that or another
-- kind, at the latest when the runtime polls its task after that instant.
pub next_resolves :
    (st : Streams) (rt : Runtime) (starts : ℕ → ℕ) (s : RealSignals st) (now u late : ℕ)
    (kind : SignalKind) (x : st.Stream)
    → IsRuntime rt
    → IsPrompt rt late
    → st.recv (stream_of st rt starts kind s) now ≡ some (u, x)
    → (t : ℕ) × (k : SignalKind) × (s' : RealSignals st) × (next st rt starts s now
        ≡ some (t, (k, s')))
      × (t ≤ u + late)
unfolding next select_from
next_resolves st rt starts s now u late kind x sane prompt e =
    let waits = arms st rt starts s now in
    let found : ResolvesBy u waits = ready kind e in
    let (v, first, le) = earliest_of_le u waits found in
    let turned = ResolvesBy-rotate v (starts s.draws) waits (earliest_of_own v waits first) in
    let ((k, s'), q) = first_of_ready v (rt.wakes v) _ turned (sane.wakes_late v) in
    (rt.wakes v, k, s', rw (first, select_from) q, omega (arith, prompt.wakes_soon v))
  where
    ready :
        (k : SignalKind)
        → st.recv (stream_of st rt starts k s) now ≡ some (u, x)
        → ResolvesBy u (arms st rt starts s now)
    ready interrupt q = inl (arm_ready st _ _ _ u x q)
    ready terminate q = inr (inl (arm_ready st _ _ _ u x q))
    ready SignalKind.quit q = inr (inr (inl (arm_ready st _ _ _ u x q)))
    ready SignalKind.hup q = inr (inr (inr (inl (arm_ready st _ _ _ u x q))))
