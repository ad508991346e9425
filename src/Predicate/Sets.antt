-- ===== src/Predicate/Sets.antt =====
-- What a set of predicates decides, and which of its predicates it reads.
use mathlib.Core.List.{append_assoc, append-nil}
use condrun.Prelude.{
  ℕ, String, ◌≡◌, ◌≢◌, ◌⊎◌, ◌↔◌, inl, inr, refl, ◌∙◌, none, some, List, [], ◌∷◌, ◌++◌, arith,
}
use condrun.Async.{Async}
use condrun.State.{NetworkState}
use condrun.Predicate.{
  Predicate, PredicateResult, pass, fail, and_set, or_set, join, evaluate_and, evaluate_or,
  evaluate,
}

verdict :
    (o : Async PredicateResult)
    → (o ≡ none)
      ⊎ (((v : ℕ) × (o ≡ some (v, pass))) ⊎ ((v : ℕ) × (r : String) × (o ≡ some (v, fail r))))
verdict none = inl refl
verdict (some (v, pass)) = inr (inl (v, refl))
verdict (some (v, fail r)) = inr (inr (v, r, refl))

module _ (state : NetworkState) where
  -- The predicates pass one after the other, from the instant `t` to the instant `u`.
  abbrev pub AllPass : ℕ → List Predicate → ℕ → Type 0
  AllPass t [] u = t ≡ u
  AllPass t (p ∷ ps) u = (v : ℕ) × (p.evaluate state t ≡ some (v, pass)) × AllPass v ps u

  -- One fails at `u` for `reason`, and those before it pass; those behind it are not read.
  abbrev pub FirstFail : ℕ → List Predicate → String → ℕ → Type 0
  FirstFail t [] reason u = ⊥
  FirstFail t (p ∷ ps) reason u =
      (p.evaluate state t ≡ some (u, fail reason))
      ⊎ ((v : ℕ) × (p.evaluate state t ≡ some (v, pass)) × FirstFail v ps reason u)

  -- One passes at `u`, and those before it fail.
  abbrev pub FirstPass : ℕ → List Predicate → ℕ → Type 0
  FirstPass t [] u = ⊥
  FirstPass t (p ∷ ps) u =
      (p.evaluate state t ≡ some (u, pass))
      ⊎ ((v : ℕ) × (reason : String) × (p.evaluate state t ≡ some (v, fail reason))
          × FirstPass v ps u)

  -- All fail, for these reasons.
  abbrev pub AllFail : ℕ → List Predicate → List String → ℕ → Type 0
  AllFail t [] reasons u = (reasons ≡ []) × (t ≡ u)
  AllFail t (p ∷ ps) reasons u =
      (v : ℕ) × (r : String) × (rs : List String) × (p.evaluate state t ≡ some (v, fail r))
      × (reasons ≡ r ∷ rs)
      × AllFail v ps rs u

  and_pass :
      (ps : List Predicate) (t u : ℕ) → AllPass t ps u → evaluate_and ps state t ≡ some (u, pass)
  unfolding evaluate_and
  and_pass [] t u h = ground arith
  and_pass (p ∷ ps) t u (v, e, rest) = rw e (and_pass ps v u rest)

  pass_and :
      (ps : List Predicate) (t u : ℕ) → evaluate_and ps state t ≡ some (u, pass) → AllPass t ps u
  unfolding evaluate_and
  pass_and [] t u h = ground arith
  pass_and (p ∷ ps) t u h = elim (verdict (p.evaluate state t)) [
    | inl e ↦ cc (rw (e, evaluate_and) at h)
    | inr (inl (v, e)) ↦ (v, e, pass_and ps v u (rw (e, evaluate_and) at h))
    | inr (inr (v, r, e)) ↦ cc (rw (e, evaluate_and) at h)
  ]

  and_fail :
      (ps : List Predicate) (r : String) (t u : ℕ)
      → FirstFail t ps r u
      → evaluate_and ps state t ≡ some (u, fail r)
  unfolding evaluate_and
  and_fail [] r t u h = absurd h
  and_fail (p ∷ ps) r t u (inl e) = rw e
  and_fail (p ∷ ps) r t u (inr (v, e, rest)) = rw e (and_fail ps r v u rest)

  fail_and :
      (ps : List Predicate) (r : String) (t u : ℕ)
      → evaluate_and ps state t ≡ some (u, fail r)
      → FirstFail t ps r u
  unfolding evaluate_and
  fail_and [] r t u h = cc
  fail_and (p ∷ ps) r t u h = elim (verdict (p.evaluate state t)) [
    | inl e ↦ cc (rw (e, evaluate_and) at h)
    | inr (inl (v, e)) ↦ inr (v, e, fail_and ps r v u (rw (e, evaluate_and) at h))
    | inr (inr (v, s, e)) ↦ inl (e ∙ (rw (e, evaluate_and) at h))
  ]

  or_pass :
      (ps : List Predicate) (seen : List String) (t u : ℕ)
      → FirstPass t ps u
      → evaluate_or ps state t seen ≡ some (u, pass)
  unfolding evaluate_or
  or_pass [] seen t u h = absurd h
  or_pass (p ∷ ps) seen t u (inl e) = rw e
  or_pass (p ∷ ps) seen t u (inr (v, r, e, rest)) = rw e (or_pass ps (seen ++ r ∷ []) v u rest)

  pass_or :
      (ps : List Predicate) (seen : List String) (t u : ℕ)
      → evaluate_or ps state t seen ≡ some (u, pass)
      → FirstPass t ps u
  unfolding evaluate_or
  pass_or [] seen t u h = cc
  pass_or (p ∷ ps) seen t u h = elim (verdict (p.evaluate state t)) [
    | inl e ↦ cc (rw (e, evaluate_or) at h)
    | inr (inl (v, e)) ↦ inl (e ∙ (rw (e, evaluate_or) at h))
    | inr (inr (v, r, e)) ↦
        inr (v, r, e, pass_or ps (seen ++ r ∷ []) v u (rw (e, evaluate_or) at h))
  ]

  or_fail :
      (ps : List Predicate) (seen reasons : List String) (t u : ℕ)
      → AllFail t ps reasons u
      → evaluate_or ps state t seen ≡ some (u, fail (join (seen ++ reasons)))
  unfolding evaluate_or
  or_fail [] seen reasons t u (none_left, e) = rw (none_left, e, append-nil)
  or_fail (p ∷ ps) seen reasons t u (v, r, rs, e, split, rest) =
      rw (e, split) (or_fail ps (seen ++ r ∷ []) rs v u rest ∙ rw append_assoc)

-- An AND set passes exactly when all its predicates pass, one after the other; an empty one does.
pub and-pass_iff :
    (state : NetworkState) (ps : List Predicate) (t u : ℕ)
    → (evaluate (and_set ps) state t ≡ some (u, pass)) ↔ AllPass state t ps u
unfolding evaluate
and-pass_iff state [] t u = (λ h. ground arith, λ h. ground arith)
and-pass_iff state (p ∷ ps) t u = (pass_and state (p ∷ ps) t u, and_pass state (p ∷ ps) t u)

-- An AND set fails exactly when one of its predicates fails after those before it have passed, and
-- its reason is that predicate's. The predicates behind it have no part in this.
pub and-fail_iff :
    (state : NetworkState) (ps : List Predicate) (r : String) (t u : ℕ)
    → (evaluate (and_set ps) state t ≡ some (u, fail r)) ↔ FirstFail state t ps r u
unfolding evaluate
and-fail_iff state [] r t u = (λ h. cc, λ h. absurd h)
and-fail_iff state (p ∷ ps) r t u = (fail_and state (p ∷ ps) r t u, and_fail state (p ∷ ps) r t u)

-- An OR set passes exactly when one of its predicates passes after those before it have failed; so
-- an empty one never does.
pub or-pass_iff :
    (state : NetworkState) (ps : List Predicate) (t u : ℕ)
    → (evaluate (or_set ps) state t ≡ some (u, pass)) ↔ FirstPass state t ps u
unfolding evaluate
or-pass_iff state [] t u = (λ h. cc, λ h. absurd h)
or-pass_iff state (p ∷ ps) t u = (pass_or state (p ∷ ps) [] t u, or_pass state (p ∷ ps) [] t u)

-- Where all predicates of a non-empty OR set fail, the set fails for all their reasons, in order.
pub or-AllFail :
    (state : NetworkState) (ps : List Predicate) (reasons : List String) (t u : ℕ)
    → ps ≢ []
    → AllFail state t ps reasons u
    → evaluate (or_set ps) state t ≡ some (u, fail (join reasons))
unfolding evaluate
or-AllFail state [] reasons t u ne h = absurd (ne refl)
or-AllFail state (p ∷ ps) reasons t u ne h = or_fail state (p ∷ ps) [] reasons t u h
