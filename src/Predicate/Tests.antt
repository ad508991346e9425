-- ===== src/Predicate/Tests.antt =====
-- The sets of predicates at concrete networks, as in the tests of src/predicate/mod.rs, and the
-- theorems on sets at these networks.
use mathlib.Core.List.{Permᴰ}
use condrun.Prelude.{◌≡◌, ◌≢◌, ◌↔◌, refl, String, true, false, some, List, [], ◌∷◌}
use condrun.State.{NetworkState}
use condrun.Predicate.Order.{outcome, evaluate-Perm}
use condrun.Predicate.{
  Predicate, pass, fail, new, and, and_set, or_set, join, evaluate, evaluate_or,
}
use condrun.Predicate.Metered.{reject_expensive, reject_low_data}
use condrun.Predicate.Sets.{FirstFail, FirstPass, AllFail, and-fail_iff, or-pass_iff}

-- An expensive network, and one that is in Low Data Mode too.
abbrev tethered : NetworkState
tethered = record { is_expensive = λ now. true; is_low_data_mode = λ now. false }

abbrev metered_twice : NetworkState
metered_twice = record { is_expensive = λ now. true; is_low_data_mode = λ now. true }

abbrev both : List Predicate
both = reject_low_data ∷ reject_expensive ∷ []

abbrev expensive_reason : String
expensive_reason = "current connection is expensive (Personal Hotspot or cellular)"

abbrev low_data_reason : String
low_data_reason = "current connection has Low Data Mode enabled"

empty_and_passes : evaluate (and_set []) tethered 7 ≡ some (7, pass)
unfolding evaluate
empty_and_passes = refl

empty_or_fails : evaluate (or_set []) tethered 7 ≡ some (7, fail "no predicates")
unfolding evaluate
empty_or_fails = refl

or_all_fail_joins_reasons :
    evaluate (or_set both) metered_twice 7
    ≡ some (
      7,
      fail
          "current connection has Low Data Mode enabled; current connection is expensive (Personal Hotspot or cellular)",
    )
unfolding evaluate evaluate_or join
or_all_fail_joins_reasons = refl

and-fail_iff_example :
    (evaluate (and_set both) tethered 7 ≡ some (7, fail expensive_reason))
    ↔ FirstFail tethered 7 both expensive_reason 7
and-fail_iff_example = and-fail_iff tethered both expensive_reason 7 7

or-pass_iff_example :
    (evaluate (or_set both) tethered 7 ≡ some (7, pass)) ↔ FirstPass tethered 7 both 7
or-pass_iff_example = or-pass_iff tethered both 7 7

both_fail : AllFail metered_twice 7 both (low_data_reason ∷ expensive_reason ∷ []) 7
both_fail = (
  7,
  low_data_reason,
  expensive_reason ∷ [],
  refl,
  refl,
  (7, expensive_reason, [], refl, refl, (refl, refl)),
)

both-nonempty : both ≢ []
both-nonempty e = cc

abbrev both_reversed : List Predicate
both_reversed = reject_expensive ∷ reject_low_data ∷ []

evaluate-Perm_example :
    outcome (evaluate (new both and) tethered 7)
    ≡ outcome (evaluate (new both_reversed and) tethered 7)
evaluate-Perm_example =
    evaluate-Perm tethered 7 and both both_reversed (pass, refl, (fail expensive_reason, refl, tt))
      (Permᴰ.swap refl refl)
