-- ===== src/Predicate/Order.antt =====
-- The verdict of a set of src/predicate/mod.rs as a function of its predicates without their order: a
-- quotient of the lists by permutation.
use mathlib.Core.List.{Permᴰ}
use mathlib.Core.Bool.{Bool-set}
use mathlib.Core.Quot
use mathlib.Core.Quot.{Quot, Quot-set}
use condrun.Prelude.{
  ℕ, ◌≡◌, refl, sym, ap, ◌∙◌, Bool, true, false, ◌&&◌, ◌||◌, Option, none, some, String, List, [],
  ◌∷◌, ◌++◌, arith,
}
use condrun.Async.{Async}
use condrun.State.{NetworkState}
use condrun.Predicate.{
  Predicate, PredicateResult, Composition, pass, fail, new, and, or, evaluate, evaluate_and,
  evaluate_or,
}

-- When an evaluation resolves, and whether to a pass.
abbrev pub outcome : Async PredicateResult → Option (ℕ × Bool)
outcome none = none
outcome (some (t, pass)) = some (t, true)
outcome (some (t, fail reason)) = some (t, false)

and_swap : (a b c : Bool) → a && (b && c) ≡ b && (a && c)
and_swap a b c = ground arith

or_swap : (a b c : Bool) → a || (b || c) ≡ b || (a || c)
or_swap a b c = ground arith

-- A set without the order of its predicates.
abbrev pub Bag : Type 0
Bag = Quot (Permᴰ {A = Predicate})

module _ (state : NetworkState) (t : ℕ) where
  -- Each predicate answers at `t` when it is asked at `t`.
  abbrev pub AtOnce : List Predicate → Type 0
  AtOnce [] = Unit {0}
  AtOnce (p ∷ ps) = (r : PredicateResult) × (p.evaluate state t ≡ some (t, r)) × AtOnce ps

  abbrev holds : Async PredicateResult → Bool
  holds none = false
  holds (some (u, pass)) = true
  holds (some (u, fail reason)) = false

  abbrev decides : Composition → List Predicate → Bool
  decides and [] = true
  decides and (p ∷ ps) = holds (p.evaluate state t) && decides and ps
  decides or [] = false
  decides or (p ∷ ps) = holds (p.evaluate state t) || decides or ps

  decides-Perm :
      (c : Composition) (ps qs : List Predicate) → Permᴰ ps qs → decides c ps ≡ decides c qs
  decides-Perm c ps qs Permᴰ.nil = refl
  decides-Perm and (p ∷ ps) (q ∷ qs) (Permᴰ.cons e d) = rw (e, decides-Perm and ps qs d)
  decides-Perm or (p ∷ ps) (q ∷ qs) (Permᴰ.cons e d) = rw (e, decides-Perm or ps qs d)
  decides-Perm and ps qs (Permᴰ.swap {a' = p} {b' = q} {l} e f) =
      rw (e, f) (and_swap (holds (q.evaluate state t)) (holds (p.evaluate state t)) (decides and l))
  decides-Perm or ps qs (Permᴰ.swap {a' = p} {b' = q} {l} e f) =
      rw (e, f) (or_swap (holds (q.evaluate state t)) (holds (p.evaluate state t)) (decides or l))
  decides-Perm c ps qs (Permᴰ.trans d d') = decides-Perm c ps _ d ∙ decides-Perm c _ qs d'

  -- Whether a set without order passes.
  pub verdict : Composition → Bag → Bool
  verdict c = Quot.lift Bool-set (decides c) (decides-Perm c)

  and-AtOnce :
      (ps : List Predicate)
      → AtOnce ps
      → outcome (evaluate_and ps state t) ≡ some (t, decides and ps)
  unfolding evaluate_and
  and-AtOnce [] h = refl
  and-AtOnce (p ∷ ps) (pass, e, rest) = rw e (and-AtOnce ps rest)
  and-AtOnce (p ∷ ps) (fail reason, e, rest) = rw e refl

  or-AtOnce :
      (ps : List Predicate) (reasons : List String)
      → AtOnce ps
      → outcome (evaluate_or ps state t reasons) ≡ some (t, decides or ps)
  unfolding evaluate_or
  or-AtOnce [] reasons h = refl
  or-AtOnce (p ∷ ps) reasons (pass, e, rest) = rw e refl
  or-AtOnce (p ∷ ps) reasons (fail reason, e, rest) =
      rw e (or-AtOnce ps (reasons ++ reason ∷ []) rest)

  -- Where each predicate answers at once, so does the set, by the verdict on it without order.
  evaluate_unordered :
      (c : Composition) (ps : List Predicate)
      → AtOnce ps
      → outcome (evaluate (new ps c) state t) ≡ some (t, verdict c (Quot.mk ps))
  unfolding evaluate verdict
  evaluate_unordered and [] h = refl
  evaluate_unordered and (p ∷ ps) h = and-AtOnce (p ∷ ps) h
  evaluate_unordered or [] h = refl
  evaluate_unordered or (p ∷ ps) h = or-AtOnce (p ∷ ps) [] h

  AtOnce-Perm : (ps qs : List Predicate) → Permᴰ ps qs → AtOnce ps → AtOnce qs
  AtOnce-Perm ps qs Permᴰ.nil h = h
  AtOnce-Perm (p ∷ ps) (q ∷ qs) (Permᴰ.cons e d) (r, answers, rest) =
      (r, rw (← e) answers, AtOnce-Perm ps qs d rest)
  AtOnce-Perm ps qs (Permᴰ.swap e f) (r, answers, (r', answers', rest)) =
      (r', rw (← f) answers', (r, rw (← e) answers, rest))
  AtOnce-Perm ps qs (Permᴰ.trans d d') h = AtOnce-Perm _ qs d' (AtOnce-Perm ps _ d h)

  -- Where each predicate answers at once, a set of the same predicates in another order, with the same
  -- composition, resolves at the same instant and passes exactly if this one does.
  pub evaluate-Perm :
      (c : Composition) (ps qs : List Predicate)
      → AtOnce ps
      → Permᴰ ps qs
      → outcome (evaluate (new ps c) state t) ≡ outcome (evaluate (new qs c) state t)
  evaluate-Perm c ps qs h d =
      evaluate_unordered c ps h
      ∙ ap (λ (bag : Bag). some (t, verdict c bag)) (Quot.sound d)
      ∙ sym (evaluate_unordered c qs (AtOnce-Perm ps qs d h))
