-- ===== src/Predicate.antt =====
-- src/predicate/mod.rs: predicates over the network state, and sets of them.
pub mod Metered
pub mod Sets
pub mod Order
mod Tests
mod Cases
use Prim.Native.String
use condrun.Prelude.{ℕ, String, Option, none, some, List, [], ◌∷◌, ◌++◌}
use condrun.Async.{Async}
use condrun.State.{NetworkState}

pub data PredicateResult : Type 0 where
  pass : PredicateResult
  fail : String → PredicateResult

-- The trait: an evaluation starts at an instant and resolves at a later one.
pub record Predicate : Type 0 where
  pub name : String
  pub evaluate : NetworkState → ℕ → Async PredicateResult

pub data Composition : Type 0 where
  and or : Composition

pub record PredicateSet : Type 0 where
  pub predicates : List Predicate
  pub composition : Composition

abbrev pub new : List Predicate → Composition → PredicateSet
new predicates composition = record { predicates = predicates; composition = composition }

abbrev pub and_set : List Predicate → PredicateSet
and_set predicates = new predicates and

abbrev pub or_set : List Predicate → PredicateSet
or_set predicates = new predicates or

-- `reasons.join("; ")`
unfoldable pub join : List String → String
join [] = ""
join (r ∷ []) = r
join (r ∷ s ∷ rs) = String.◌++◌ r (String.◌++◌ "; " (join (s ∷ rs)))

-- The loop of the `And` arm.
unfoldable pub evaluate_and : List Predicate → NetworkState → ℕ → Async PredicateResult
evaluate_and [] state now = some (now, pass)
evaluate_and (p ∷ ps) state now = elim (p.evaluate state now) [
  | none ↦ none
  | some (t, pass) ↦ evaluate_and ps state t
  | some (t, fail reason) ↦ some (t, fail reason)
]

-- The loop of the `Or` arm, with the vector of reasons.
unfoldable pub evaluate_or : List Predicate → NetworkState → ℕ → List String → Async PredicateResult
unfolding join
evaluate_or [] state now reasons = some (now, fail (join reasons))
evaluate_or (p ∷ ps) state now reasons = elim (p.evaluate state now) [
  | none ↦ none
  | some (t, pass) ↦ some (t, pass)
  | some (t, fail reason) ↦ evaluate_or ps state t (reasons ++ reason ∷ [])
]

-- `PredicateSet::evaluate` by its two arms, each with its test for an empty set.
abbrev evaluate_by : Composition → List Predicate → NetworkState → ℕ → Async PredicateResult
evaluate_by and [] state now = some (now, pass)
evaluate_by and (p ∷ ps) state now = evaluate_and (p ∷ ps) state now
evaluate_by or [] state now = some (now, fail "no predicates")
evaluate_by or (p ∷ ps) state now = evaluate_or (p ∷ ps) state now []

unfoldable pub evaluate : PredicateSet → NetworkState → ℕ → Async PredicateResult
unfolding evaluate_and evaluate_or
evaluate set state now = evaluate_by set.composition set.predicates state now
