-- ===== src/Signal/Real/Takes.antt =====
-- src/signal/real.rs: what `next` takes from the streams.
use mathlib.Core.Path.{subst}
use condrun.Prelude.{
  ℕ, zero, suc, ◌+◌, ◌≤◌, ◌≡◌, ◌≢◌, ◌∙◌, inl, inr, refl, Bool-cases, Option-cases, none, some, List,
  [], ◌∷◌, ◌++◌, leb, arith,
}
use condrun.Async.{Async, Runtime}
use condrun.Signal.{SignalKind, interrupt, terminate}
use condrun.Signal.Real.{
  Streams, RealSignals, earliest_of, first_of, rotate, select_from, arm, arms, next, stream_of,
}

-- The lemmas on `select!` are about what holds of each of its arms.
abbrev Each {ℓ} : {A : Type ℓ} → (Async A → Type ℓ) → List (Async A) → Type ℓ
Each P [] = Unit
Each P (a ∷ arms) = P a × Each P arms

module _ {A : Type 0} (P : Async A → Type 0) where
  Each-append : (xs : List (Async A)) (a : Async A) → Each P xs → P a → Each P (xs ++ a ∷ [])
  Each-append [] a h p = (p, tt)
  Each-append (b ∷ xs) a h p = (h.0, Each-append xs a h.1 p)

  Each-rotate : (n : ℕ) (xs : List (Async A)) → Each P xs → Each P (rotate n xs)
  Each-rotate zero xs h = h
  Each-rotate (suc n) [] h = tt
  Each-rotate (suc n) (a ∷ xs) h = Each-rotate n (xs ++ a ∷ []) (Each-append xs a h.1 h.0)

  Each-first_of :
      (p t : ℕ) (x : A) (xs : List (Async A))
      → Each P xs
      → first_of p xs ≡ some (t, x)
      → (u : ℕ) × P (some (u, x)) × (u ≤ t)
  Each-first_of p t x [] h e = cc
  Each-first_of p t x (none ∷ xs) h e = Each-first_of p t x xs h.1 e
  Each-first_of p t x (some (u, y) ∷ xs) h e = elim (Bool-cases (leb u p)) [
    | inl early ↦
        let same : y ≡ x = ground (arith, early, e) in
        (u, subst (λ z. P (some (u, z))) same h.0, ground (arith, early, e))
    | inr late ↦ Each-first_of p t x xs h.1 (ground (arith, late, e))
  ]

module _ (st : Streams) (rt : Runtime) (starts : ℕ → ℕ) (s : RealSignals st) (now : ℕ) where
  abbrev stream : SignalKind → RealSignals st → st.Stream
  stream = stream_of st rt starts

  -- The streams of the other kinds are as they were.
  abbrev pub KeepsOthers : SignalKind → RealSignals st → Type 0
  KeepsOthers kind s' = (k : SignalKind) → k ≢ kind → stream k s' ≡ stream k s

  -- What an arm resolves to came from the stream of its kind, and is taken from that stream alone.
  abbrev Genuine : Async (SignalKind × RealSignals st) → Type 0
  Genuine a =
      (u : ℕ) (kind : SignalKind) (s' : RealSignals st)
      → a ≡ some (u, (kind, s'))
      → (st.recv (stream kind s) now ≡ some (u, stream kind s')) × KeepsOthers kind s'

  arm-Genuine :
      (kind : SignalKind) (put : st.Stream → RealSignals st)
      → ((x : st.Stream) → stream kind (put x) ≡ x)
      → ((x : st.Stream) → KeepsOthers kind (put x))
      → Genuine (arm st kind put (st.recv (stream kind s) now))
  arm-Genuine kind put puts keeps u kind' s' e = elim (Option-cases (st.recv (stream kind s) now)) [
    | inl none_yet ↦ absurd (cc (rw none_yet at e))
    | inr ((v, x), got) ↦
        let told : ◌≡◌ {A = Async (SignalKind × RealSignals st)} (some (v, (kind, put x)))
            (some (u, (kind', s'))) =
          rw got at e in
        let same : kind ≡ kind' = cc in
        let after : put x ≡ s' = cc in (cc (puts x), λ k ne. cc (keeps x k (λ q. ne (q ∙ same))))
  ]

  drawn : RealSignals st
  drawn = record s { draws = s.draws + 1 }

  keeps_int : (x : st.Stream) → KeepsOthers interrupt (record drawn { int = x })
  unfolding drawn
  keeps_int x interrupt ne = absurd (ne refl)
  keeps_int x _ ne = refl

  keeps_term : (x : st.Stream) → KeepsOthers terminate (record drawn { term = x })
  unfolding drawn
  keeps_term x terminate ne = absurd (ne refl)
  keeps_term x _ ne = refl

  keeps_quit : (x : st.Stream) → KeepsOthers SignalKind.quit (record drawn { quit = x })
  unfolding drawn
  keeps_quit x SignalKind.quit ne = absurd (ne refl)
  keeps_quit x _ ne = refl

  keeps_hup : (x : st.Stream) → KeepsOthers SignalKind.hup (record drawn { hup = x })
  unfolding drawn
  keeps_hup x SignalKind.hup ne = absurd (ne refl)
  keeps_hup x _ ne = refl

  arms-Genuine : Each Genuine (arms st rt starts s now)
  unfolding drawn
  arms-Genuine = (
    arm-Genuine interrupt _ (λ x. refl) keeps_int,
    (
      arm-Genuine terminate _ (λ x. refl) keeps_term,
      (
        arm-Genuine SignalKind.quit _ (λ x. refl) keeps_quit,
        (arm-Genuine SignalKind.hup _ (λ x. refl) keeps_hup, tt),
      ),
    ),
  )

-- A signal that `next` reports is one that the process got: the stream of its kind had received it
-- by the instant of the report. It is taken from that stream, and the other streams are left as they
-- were, so a signal that has come on one of them as well is not lost.
pub next_takes :
    (st : Streams) (rt : Runtime) (starts : ℕ → ℕ) (s s' : RealSignals st) (now t : ℕ)
    (kind : SignalKind)
    → next st rt starts s now ≡ some (t, (kind, s'))
    → (u : ℕ) × (st.recv (stream_of st rt starts kind s) now
        ≡ some (u, stream_of st rt starts kind s'))
      × (u ≤ t)
      × ((k : SignalKind) → k ≢ kind → stream_of st rt starts k s' ≡ stream_of st rt starts k s)
unfolding next select_from
next_takes st rt starts s s' now t kind h =
    elim (Option-cases (earliest_of (arms st rt starts s now))) [
      | inl e ↦ cc (rw (e, select_from) at h)
      | inr (w, e) ↦
          let (u, genuine, early) =
            Each-first_of (Genuine st rt starts s now) (rt.wakes w) t (kind, s') _
              (Each-rotate (Genuine st rt starts s now) (starts s.draws) _
                (arms-Genuine st rt starts s now))
              (rw (e, select_from) at h) in
          let (got, others) = genuine u kind s' refl in (u, got, early, others)
    ]
