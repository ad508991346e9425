-- ===== src/Signal/Fake/Shared/Wakeups.antt =====
-- src/signal/fake.rs: the signals and the wake-ups between the clones of a fake.
use condrun.Prelude.{
  ◌<◌, ◌≡◌, ◌≢◌, refl, sym, ap, ◌∙◌, ◌⊎◌, inl, inr, Bool, true, false, List, [], ◌∷◌, ◌++◌,
  append_assoc, arith, if◌then◌else◌,
}
use condrun.Signal.{SignalKind}
use condrun.Signal.Fake.Shared.{
  Notify, IsNotify, Place, outside, checking, waiting, Shared, new, push, notify, look, go_on,
  next_step, Step, calls, goes_on, drops, pushes, notifies, Reaches, here, after,
}

module _ (nt : Notify) where
  -- It has returned the head of the queue, and left the rest.
  pub record HasReturned (k : SignalKind) (rest : List SignalKind) (s t : Shared nt) : Type 0 where
    pub place : t.place ≡ outside
    pub received : t.received ≡ s.received ++ k ∷ []
    pub queue : t.queue ≡ rest

module _ (nt : Notify) (law : IsNotify nt) where
  -- A task that waits with a signal in the queue is about to be notified, or has been.
  abbrev IsWoken : Place → Shared nt → Type 0
  IsWoken waiting s = (s.queue ≡ []) ⊎ (0 < s.notifying) ⊎ ((nt.poll s.permits).0 ≡ true)
  IsWoken _ s = Unit

  pub record IsSound (s : Shared nt) : Type 0 where
    pub woken : IsWoken s.place s
    pub ordered : s.received ++ s.queue ≡ s.injected

  look-IsSound :
      (q : List SignalKind) (s : Shared nt) → s.queue ≡ q → IsSound s → IsSound (look nt q s)
  unfolding look
  look-IsSound [] s e v = record { woken = inl e; ordered = v.ordered }
  look-IsSound (k ∷ ks) s e v = record {
    woken = tt;
    ordered = append_assoc s.received (k ∷ []) ks ∙ ap (λ q. s.received ++ q) (sym e) ∙ v.ordered;
  }

  -- A poll that does not complete leaves the task waiting, but not for a notification that has been.
  polled-IsWoken :
      (done : Bool) (p : nt.Permits) (q : Place) (s : Shared nt)
      → (nt.poll s.permits).0 ≡ done
      → IsWoken waiting s
      → IsWoken (if done then checking else waiting) (record s { permits = p; place = q })
  polled-IsWoken true p q s e w = tt
  polled-IsWoken false p q s e (inl empty) = inl empty
  polled-IsWoken false p q s e (inr (inl soon)) = inr (inl soon)
  polled-IsWoken false p q s e (inr (inr ready)) = cc

  go_on-IsSound : (p : Place) (s : Shared nt) → s.place ≡ p → IsSound s → IsSound (go_on nt p s)
  unfolding go_on
  go_on-IsSound outside s e v = v
  go_on-IsSound checking s e v = look-IsSound s.queue s refl v
  go_on-IsSound waiting s e v = record {
    woken = polled-IsWoken _ _ _ s refl (rw e at (v.woken));
    ordered = v.ordered;
  }

  pushed-IsWoken : (p : Place) (k : SignalKind) (s : Shared nt) → IsWoken p (push nt k s)
  pushed-IsWoken outside k s = tt
  pushed-IsWoken checking k s = tt
  pushed-IsWoken waiting k s = inr (inl (omega arith))

  notified-IsWoken : (p : Place) (s : Shared nt) → IsWoken p (notify nt s)
  notified-IsWoken outside s = tt
  notified-IsWoken checking s = tt
  notified-IsWoken waiting s = inr (inr (law.notified s.permits))

  Step-IsSound : (s t : Shared nt) → Step nt s t → IsSound s → IsSound t
  unfolding next_step
  Step-IsSound s t (calls e) v = record { woken = tt; ordered = v.ordered }
  Step-IsSound s t goes_on v = go_on-IsSound s.place s refl v
  Step-IsSound s t (drops e) v = record { woken = tt; ordered = v.ordered }
  Step-IsSound s t (pushes k) v = record {
    woken = pushed-IsWoken s.place k s;
    ordered = sym (append_assoc s.received s.queue (k ∷ [])) ∙ ap (λ q. q ++ k ∷ []) v.ordered;
  }
  Step-IsSound s t (notifies e) v = record {
    woken = notified-IsWoken s.place s;
    ordered = v.ordered;
  }

  Reaches-IsSound : (s : Shared nt) → Reaches nt (new nt) s → IsSound s
  Reaches-IsSound s here = record { woken = tt; ordered = refl }
  Reaches-IsSound s (after {s = r} way step) = Step-IsSound r s step (Reaches-IsSound r way)

  -- However the calls of `inject` on the clones of a fresh fake come between the steps of `next`, with
  -- one clone at a time inside `next`, the signals that `next` has returned, and behind them those in
  -- the queue, are those that were pushed, in their order: none is lost, doubled or overtaken, also
  -- where a `next` that waits is dropped.
  pub keeps_order : (s : Shared nt) → Reaches nt (new nt) s → s.received ++ s.queue ≡ s.injected
  keeps_order s way = (Reaches-IsSound s way).ordered

  woken-HasReturned :
      (p : Place) (s : Shared nt) (k : SignalKind) (rest : List SignalKind)
      → s.place ≡ p
      → p ≢ outside
      → s.queue ≡ k ∷ rest
      → s.notifying ≡ 0
      → IsWoken p s
      → HasReturned nt k rest s (next_step nt (next_step nt s))
  unfolding next_step go_on look
  woken-HasReturned outside s k rest e out q still w = absurd (out refl)
  woken-HasReturned checking s k rest e out q still w =
      rw (e, q) (record { place = refl; received = refl; queue = refl })
  woken-HasReturned waiting s k rest e out q still (inl empty) = cc
  woken-HasReturned waiting s k rest e out q still (inr (inl soon)) = absurd (omega arith)
  woken-HasReturned waiting s k rest e out q still (inr (inr ready)) =
      rw (e, ready) (rw q (record { place = refl; received = refl; queue = refl }))

  -- No wake-up is lost to a single consumer: where never more than one clone at a time has been inside
  -- `next`, the task that is inside it, wherever the calls of `inject` on the clones have come in
  -- between, returns the signal at the head of the queue after two more steps of its loop, without a
  -- further `inject`, once those that pushed a signal have also notified.
  pub wakes_up :
      (s : Shared nt) (k : SignalKind) (rest : List SignalKind)
      → Reaches nt (new nt) s
      → s.place ≢ outside
      → s.queue ≡ k ∷ rest
      → s.notifying ≡ 0
      → HasReturned nt k rest s (next_step nt (next_step nt s))
  wakes_up s k rest way inside q still =
      woken-HasReturned s.place s k rest refl inside q still (Reaches-IsSound s way).woken
