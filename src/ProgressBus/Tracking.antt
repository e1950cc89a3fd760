-- ===== src/ProgressBus/Tracking.antt =====
-- progress/bus.py: what the open phases and the pending ticks have to do with each other on every
-- run of the bus.
use text.Mathlib.Text.{◌==◌}
use text.Mathlib.TextEquality.{eq_iff}
use strategy_gpt.Prelude.{
  String, Option, List, [], ◌∷◌, ◌≡◌, refl, none, some, Bool-cases, Option-cases, inl, inr, arith,
  ◌∙◌,
}
use strategy_gpt.Prelude.Int.{ℤ}
use strategy_gpt.Prelude.Floats.{Float}
use strategy_gpt.Prelude.Dict.{
  Dict, lookup, assign, remove, remove_all, remove_all-keys, lookup-assign-none,
  lookup-assign_other, lookup-remove-none, lookup-remove_self, lookup-remove_other, lookup-none,
  values,
}
use strategy_gpt.ProgressBus.{
  ProgressSink, OpenPhase, Bus, new_bus, add_sink, open_paths, close, tick_phase, bookkeep, emit,
  begin, tick_event, tick, end_phase, is_early,
}
use strategy_gpt.ProgressEvents.{
  PhaseStatus, PhaseProgress, ProgressEvent, phase_begin, phase_progress, phase_end, heartbeat,
}
use strategy_gpt.ProgressBus.Sweeps.{
  flush_each, flush, end_each, cancel_all_open, scan_phase, scan_each, scan_heartbeats, is_active,
}

-- Only an open phase has a pending tick.
abbrev Covered : {A B : Type 0} → Dict A → Dict B → Type 0
Covered phases ticks = (p : String) → lookup p phases ≡ none → lookup p ticks ≡ none

module _ {A B : Type 0} (phases : Dict A) (ticks : Dict B) (covered : Covered phases ticks) where
  Covered-open : (k : String) (v : A) → Covered (assign k v phases) ticks
  Covered-open k v p h = covered p (lookup-assign-none p k v phases h)

  Covered-end : (k : String) → Covered (remove k phases) (remove k ticks)
  Covered-end k p h = elim (Bool-cases (k == p)) [
    | inl e ↦ rw ((eq_iff k p).0 e) (lookup-remove_self p ticks)
    | inr e ↦ lookup-remove-none p k ticks (covered p (rw (lookup-remove_other p k phases e) at h))
  ]

  Covered-drop : (k : String) → Covered phases (remove k ticks)
  Covered-drop k p h = lookup-remove-none p k ticks (covered p h)

  Covered-wait :
      (k : String) (u : A) (v : B) → lookup k phases ≡ some u → Covered phases (assign k v ticks)
  Covered-wait k u v found p h = elim (Bool-cases (k == p)) [
    | inl e ↦ absurd (ground (arith, (eq_iff k p).0 e, found, h))
    | inr e ↦ rw (lookup-assign_other p k v ticks e) (covered p h)
  ]

module _ {F W : Type 0} (f : Float F) (monotonic : W → F × W) where
  abbrev Tracked : Bus F W → Type 0
  Tracked bus = Covered bus.open_phases bus.pending_tick

  tick_phase-Covered :
      {B : Type 0} (path : String) (at : F) (current : ℤ) (phases : Dict (OpenPhase F))
      (ticks : Dict B)
      → Covered phases ticks
      → Covered (tick_phase f monotonic path at current phases) ticks
  tick_phase-Covered path at current phases ticks c = elim (Option-cases (lookup path phases)) [
    | inl e ↦ rw (e, tick_phase) c
    | inr (phase, e) ↦ rw (e, tick_phase) (Covered-open phases ticks c path _)
  ]

  bookkeep-Tracked :
      (now : F) (event : ProgressEvent F) (bus : Bus F W) (w : W)
      → Tracked bus
      → Tracked (bookkeep f monotonic now event bus w).0
  unfolding bookkeep
  bookkeep-Tracked now (phase_begin e) bus w c = Covered-open _ _ c e.path _
  bookkeep-Tracked now (phase_progress e) bus w c = tick_phase-Covered e.path _ e.current _ _ c
  bookkeep-Tracked now (phase_end e) bus w c = Covered-end _ _ c e.path
  bookkeep-Tracked now (heartbeat e) bus w c = c

  emit-Tracked :
      (event : ProgressEvent F) (bus : Bus F W) (w : W)
      → Tracked bus
      → Tracked (emit f monotonic event bus w).0
  unfolding emit
  emit-Tracked event bus w c = bookkeep-Tracked (monotonic w).0 event bus (monotonic w).1 c

  tick_event-Tracked :
      (now : F) (event : PhaseProgress F) (bus : Bus F W) (w : W)
      → Tracked bus
      → Tracked (tick_event f monotonic now event bus w).0
  unfolding tick_event
  tick_event-Tracked now event bus w c = elim (Option-cases (lookup event.path bus.open_phases)) [
    | inl e ↦ rw (e, tick_event) c
    | inr (phase, e) ↦ elim (Bool-cases (is_early f monotonic now phase)) [
      | inl b ↦ rw (e, b, tick_event) (Covered-wait _ _ c event.path phase _ e)
      | inr b ↦
          rw (e, b, tick_event) (Covered-open _ _ (Covered-drop _ _ c event.path) event.path _)
    ]
  ]

  flush_each-Tracked :
      (events : List (PhaseProgress F)) (bus : Bus F W) (w : W)
      → Tracked bus
      → Tracked (flush_each f monotonic events bus w).0
  unfolding flush_each
  flush_each-Tracked [] bus w c = c
  flush_each-Tracked (event ∷ events) bus w c =
      flush_each-Tracked events _ _
        (tick_phase-Covered event.path event.emitted_at event.current bus.open_phases _ c)

  end_each-Tracked :
      (paths : List String) (msg : Option String) (bus : Bus F W) (w : W)
      → Tracked bus
      → Tracked (end_each f monotonic paths msg bus w).0
  unfolding end_each end_phase emit bookkeep
  end_each-Tracked [] msg bus w c = c
  end_each-Tracked (path ∷ paths) msg bus w c =
      end_each-Tracked paths msg _ _ (Covered-end _ _ c path)

  scan_phase-Tracked :
      (now : F) (path : String) (phase : OpenPhase F) (bus : Bus F W) (w : W)
      → Tracked bus
      → Tracked (scan_phase f monotonic now path phase bus w).0
  unfolding scan_phase
  scan_phase-Tracked now path phase bus w c = elim (Bool-cases (is_active f monotonic now phase)) [
    | inl b ↦ rw (b, scan_phase) c
    | inr b ↦ rw (b, scan_phase) (Covered-open _ _ c path _)
  ]

  scan_each-Tracked :
      (now : F) (phases : Dict (OpenPhase F)) (bus : Bus F W) (w : W)
      → Tracked bus
      → Tracked (scan_each f monotonic now phases bus w).0
  unfolding scan_each
  scan_each-Tracked now [] bus w c = c
  scan_each-Tracked now ((path, phase) ∷ phases) bus w c =
      scan_each-Tracked now phases _ _ (scan_phase-Tracked now path phase bus w c)

  -- The buses that calls of the public operations lead to; the world may change between the calls.
  pub data Reachable : Bus F W → Type 0 where
    created : (sinks : List (ProgressSink F W)) → Reachable (new_bus sinks)
    sink_added :
        {bus : Bus F W} (sink : ProgressSink F W) → Reachable bus → Reachable (add_sink sink bus)
    emitted :
        {bus : Bus F W} (event : ProgressEvent F) (w : W)
        → Reachable bus
        → Reachable (emit f monotonic event bus w).0
    begun :
        {bus : Bus F W} (path : String) (total : Option ℤ) (unit msg : Option String) (w : W)
        → Reachable bus
        → Reachable (begin f monotonic path total unit msg bus w).0
    ticked :
        {bus : Bus F W} (path : String) (current : ℤ) (total : Option ℤ) (msg : Option String)
        (metrics : Option (Dict F)) (w : W)
        → Reachable bus
        → Reachable (tick f monotonic path current total msg metrics bus w).0
    ended :
        {bus : Bus F W} (path : String) (status : PhaseStatus) (msg : Option String)
        (metrics : Option (Dict F)) (w : W)
        → Reachable bus
        → Reachable (end_phase f monotonic path status msg metrics bus w).0
    flushed : {bus : Bus F W} (w : W) → Reachable bus → Reachable (flush f monotonic bus w).0
    cancelled :
        {bus : Bus F W} (msg : Option String) (w : W)
        → Reachable bus
        → Reachable (cancel_all_open f monotonic msg bus w).0
    scanned :
        {bus : Bus F W} (w : W) → Reachable bus → Reachable (scan_heartbeats f monotonic bus w).0
    shut : {bus : Bus F W} (w : W) → Reachable bus → Reachable (close bus w).0

  tick-Tracked :
      (path : String) (current : ℤ) (total : Option ℤ) (msg : Option String)
      (metrics : Option (Dict F)) (bus : Bus F W) (w : W)
      → Tracked bus
      → Tracked (tick f monotonic path current total msg metrics bus w).0
  unfolding tick
  tick-Tracked path current total msg metrics bus w c =
      tick_event-Tracked (monotonic w).0
        (record {
          path = path;
          emitted_at = (monotonic w).0;
          current = current;
          total = total;
          msg = msg;
          metrics = metrics;
        })
        bus (monotonic w).1 c

  flush-Tracked : (bus : Bus F W) (w : W) → Tracked (flush f monotonic bus w).0
  unfolding flush lookup
  flush-Tracked bus w =
      flush_each-Tracked (values bus.pending_tick) (record bus { pending_tick = [] }) w
        (λ p h. refl)

  cancel_all_open-Tracked :
      (msg : Option String) (bus : Bus F W) (w : W)
      → Tracked bus
      → Tracked (cancel_all_open f monotonic msg bus w).0
  unfolding cancel_all_open
  cancel_all_open-Tracked msg bus w = end_each-Tracked (open_paths bus) msg bus w

  scan_heartbeats-Tracked :
      (bus : Bus F W) (w : W) → Tracked bus → Tracked (scan_heartbeats f monotonic bus w).0
  unfolding scan_heartbeats
  scan_heartbeats-Tracked bus w =
      scan_each-Tracked (monotonic w).0 bus.open_phases bus (monotonic w).1

  Reachable-Tracked : {bus : Bus F W} → Reachable bus → Tracked bus
  unfolding add_sink emit bookkeep begin end_phase close lookup
  Reachable-Tracked (created sinks) = λ p h. refl
  Reachable-Tracked (sink_added sink r) = Reachable-Tracked r
  Reachable-Tracked (emitted event w r) = emit-Tracked event _ w (Reachable-Tracked r)
  Reachable-Tracked (begun path total unit msg w r) = Covered-open _ _ (Reachable-Tracked r) path _
  Reachable-Tracked (ticked path current total msg metrics w r) =
      tick-Tracked path current total msg metrics _ w (Reachable-Tracked r)
  Reachable-Tracked (ended path status msg metrics w r) = Covered-end _ _ (Reachable-Tracked r) path
  Reachable-Tracked (flushed w r) = flush-Tracked _ w
  Reachable-Tracked (cancelled msg w r) = cancel_all_open-Tracked msg _ w (Reachable-Tracked r)
  Reachable-Tracked (scanned w r) = scan_heartbeats-Tracked _ w (Reachable-Tracked r)
  Reachable-Tracked (shut w r) = Reachable-Tracked r

  -- On every bus that calls of its operations lead to, a tick is pending only for a phase that is
  -- open.
  pub pending_tick-open :
      {bus : Bus F W}
      → Reachable bus
      → (path : String) → lookup path bus.open_phases ≡ none
      → lookup path bus.pending_tick ≡ none
  pending_tick-open r = Reachable-Tracked r

  end_each-open :
      (paths : List String) (msg : Option String) (bus : Bus F W) (w : W)
      → (end_each f monotonic paths msg bus w).0.open_phases ≡ remove_all paths bus.open_phases
  unfolding end_each end_phase emit bookkeep
  end_each-open [] msg bus w = refl
  end_each-open (path ∷ paths) msg bus w = end_each-open paths msg _ _

  -- After `cancel_all_open`, on every bus that calls of its operations lead to, no phase is open and
  -- no tick is pending.
  pub cancel_all_open-empty :
      {bus : Bus F W} (msg : Option String) (w : W)
      → Reachable bus
      → ((cancel_all_open f monotonic msg bus w).0.open_phases ≡ [])
        × ((cancel_all_open f monotonic msg bus w).0.pending_tick ≡ [])
  unfolding cancel_all_open
  cancel_all_open-empty {bus = bus} msg w r =
      let closed = end_each-open (open_paths bus) msg bus w ∙ remove_all-keys bus.open_phases in
      let tracked = end_each-Tracked (open_paths bus) msg bus w (Reachable-Tracked r) in
      (closed, lookup-none _ (λ k. tracked k (rw closed refl)))
