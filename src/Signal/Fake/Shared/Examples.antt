-- ===== src/Signal/Fake/Shared/Examples.antt =====
-- src/signal/fake.rs: a signal that is injected while the task waits, on a `Notify` of one permit, and
-- a permit that is left over.
use condrun.Prelude.{◌≡◌, refl, Bool, true, false, [], ◌∷◌, ◌++◌, arith}
use condrun.Signal.{interrupt}
use condrun.Signal.Fake.Shared.{
  Notify, IsNotify, waiting, Shared, new, look, go_on, next_step, calls, goes_on, drops, pushes,
  notifies, Reaches, here, after,
}
use condrun.Signal.Fake.Shared.Wakeups.{keeps_order, wakes_up, HasReturned}

abbrev one_permit : Notify
one_permit = record {
  Permits = Bool;
  fresh = false;
  notify_one = λ p. true;
  poll = λ p. (p, false);
  give_up = λ p. p;
}

one_permit-IsNotify : IsNotify one_permit
one_permit-IsNotify = record { notified = λ p. refl }

abbrev World : Type 0
World = Shared one_permit

-- The task waits, gives up and waits again; then the signal comes.
abbrev injected : World
injected = record {
  queue = interrupt ∷ [];
  permits = true;
  place = waiting;
  notifying = 0;
  injected = interrupt ∷ [];
  received = [];
}

injected-Reaches : Reaches one_permit (new one_permit) injected
unfolding next_step go_on look
injected-Reaches =
    let asked : Reaches one_permit (new one_permit) _ = after here (calls refl) in
    let parked : Reaches one_permit (new one_permit) _ = after (after asked goes_on) goes_on in
    let again : Reaches one_permit (new one_permit) _ =
      after (after parked (drops refl)) (calls refl) in
    after (after (after again goes_on) (pushes interrupt)) (notifies (omega arith))

wakes_up_example :
    HasReturned one_permit interrupt [] injected
      (next_step one_permit (next_step one_permit injected))
wakes_up_example =
    wakes_up one_permit one_permit-IsNotify injected interrupt [] injected-Reaches (λ e. cc) refl
      refl

keeps_order_example : injected.received ++ injected.queue ≡ injected.injected
keeps_order_example = keeps_order one_permit one_permit-IsNotify injected injected-Reaches

-- The permit of a signal that was found at once is left: the next wait ends, finds nothing, and waits.
abbrev left_over : World
left_over = record injected { queue = []; place = waiting; received = interrupt ∷ [] }

waits_again : (next_step one_permit (next_step one_permit left_over)).place ≡ waiting
unfolding next_step go_on look
waits_again = refl
