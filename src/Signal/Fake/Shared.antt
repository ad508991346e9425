-- ===== src/Signal/Fake/Shared.antt =====
-- src/signal/fake.rs: the queue and the `Notify` that the clones of a fake share, where one clone at a
-- time is asked for signals, as by a supervisor, while all may inject them. `tokio::sync::Notify` is a
-- parameter. Two clones inside `next` at once are not modelled: where both have found the queue empty
-- before they wait, two notifications leave one permit, and one of them can wait for ever.
pub mod Wakeups
pub mod Timed
mod Examples
use condrun.Prelude.{ℕ, ◌+◌, ◌-◌, ◌<◌, ◌≡◌, ◌≢◌, Bool, true, List, [], ◌∷◌, ◌++◌, if◌then◌else◌}
use condrun.Signal.{SignalKind}

-- A `Notify` as the only task that waits on it finds it: `poll` polls its `Notified`, with whether that
-- completes, and `give_up` drops it.
pub record Notify : Type 1 where
  pub Permits : Type 0
  pub fresh : Permits
  pub notify_one : Permits → Permits
  pub poll : Permits → Bool × Permits
  pub give_up : Permits → Permits

-- `notify_one` notifies the task that waits, or else stores a permit for the next that does.
pub record IsNotify (nt : Notify) : Type 0 where
  pub notified : (p : nt.Permits) → (nt.poll (nt.notify_one p)).0 ≡ true

-- Where the one task that calls `next` is in it: outside of it, before the look at the queue, or at `notified.await`.
pub data Place : Type 0 where
  outside checking waiting : Place

module _ (nt : Notify) where
  open nt use {Permits, fresh, notify_one, poll, give_up}

  -- `notifying` counts the calls of `inject` that have pushed their signal and not yet notified. What
  -- was injected, and what `next` returned, are kept in their order.
  pub record Shared : Type 0 where
    pub queue : List SignalKind
    pub permits : Permits
    pub place : Place
    pub notifying : ℕ
    pub injected : List SignalKind
    pub received : List SignalKind

  abbrev pub new : Shared
  new = record {
    queue = [];
    permits = fresh;
    place = outside;
    notifying = 0;
    injected = [];
    received = [];
  }

  -- The two halves of `inject`: the push under the lock, and then the notification.
  abbrev pub push : SignalKind → Shared → Shared
  push kind s = record s {
    queue = s.queue ++ kind ∷ [];
    notifying = s.notifying + 1;
    injected = s.injected ++ kind ∷ [];
  }

  abbrev pub notify : Shared → Shared
  notify s = record s { permits = notify_one s.permits; notifying = s.notifying - 1 }

  -- The look at the queue, under the lock: `next` returns its head.
  look : List SignalKind → Shared → Shared
  look [] s = record s { place = waiting }
  look (kind ∷ rest) s = record s {
    queue = rest;
    place = outside;
    received = s.received ++ kind ∷ [];
  }

  -- The next thing that the loop of `next` does from this place.
  go_on : Place → Shared → Shared
  unfolding look
  go_on outside s = s
  go_on checking s = look s.queue s
  go_on waiting s =
      let (completes, p) = poll s.permits in
      record s { permits = p; place = if completes then checking else waiting }

  unfoldable pub next_step : Shared → Shared
  unfolding go_on
  next_step s = go_on s.place s

  -- The task and the clones that inject take turns in any order. The task may also drop a `next` that
  -- waits, as `select!` does.
  pub data Step : Shared → Shared → Type 0 where
    calls : {s : Shared} → s.place ≡ outside → Step s (record s { place = checking })
    goes_on : {s : Shared} → Step s (next_step s)
    drops :
        {s : Shared}
        → s.place ≡ waiting
        → Step s (record s { permits = give_up s.permits; place = outside })
    pushes : {s : Shared} (kind : SignalKind) → Step s (push kind s)
    notifies : {s : Shared} → 0 < s.notifying → Step s (notify s)

  pub data Reaches (r : Shared) : Shared → Type 0 where
    here : Reaches r r
    after : {s t : Shared} → Reaches r s → Step s t → Reaches r t
