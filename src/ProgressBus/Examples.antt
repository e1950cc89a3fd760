-- ===== src/ProgressBus/Examples.antt =====
-- Tests of the bus, and its theorems with a clock in milliseconds that moves on by
-- 100 at each call.
use strategy_gpt.Prelude.Dict.{lookup, assign, remove}
use strategy_gpt.Prelude.{ℕ, ◌+◌, ◌≡◌, refl, none, some, List, [], ◌∷◌, String, ◌^◌}
use strategy_gpt.Prelude.Int.{ℤ, pos, ◌*ℤ◌}
use strategy_gpt.Prelude.Result.{Error}
use strategy_gpt.Prelude.Floats.{Float}
use strategy_gpt.Prelude.Samples.{whole, whole_arith, div_ℤ}
use strategy_gpt.ProgressBus.{
  ProgressSink, OpenPhase, Bus, new_bus, begin, tick, emit, tick_event, deliver, lookup, assign,
  remove,
}
use strategy_gpt.ProgressEvents.{
  ProgressEvent, PhaseProgress, PhaseEnd, phase_begin, phase_progress, phase_end, heartbeat,
  PhaseStatus,
}
use strategy_gpt.ProgressBus.Sweeps.{cancel_all_open, scan_heartbeats, scan_each, scan_phase}
use strategy_gpt.ProgressBus.Tracking.{
  Reachable, created, begun, ticked, pending_tick-open, cancel_all_open-empty,
}
use strategy_gpt.ProgressBus.Coalescing.{tick_events, emit-tick_events}
use strategy_gpt.ProgressBus.Scan.{scan_heartbeats_lem, IsDistinct}

-- The world: the time, and what the sinks have seen, the last event first.
abbrev World : Type 0
World = ℕ × List String

abbrev clock : World → ℤ × World
clock w = (pos w.0, (w.0 + 100, w.1))

-- Milliseconds.
abbrev milli : Float ℤ
milli = record whole { literal = λ m k. div_ℤ (m *ℤ pos 1000) (pos (10 ^ k)) }

abbrev label : ProgressEvent ℤ → String
label (phase_begin e) = "begin"
label (phase_progress e) = "tick"
label (phase_end e) = "end"
label (heartbeat e) = "heartbeat"

-- One sink that raises, and one that records.
abbrev sinks : List (ProgressSink ℤ World)
sinks =
    record {
      handle = λ e w. (some Error.runtime_error, w);
      close = λ w. (some Error.runtime_error, w);
    }
    ∷ record { handle = λ e w. (none, (w.0, label e ∷ w.1)); close = λ w. (none, w) }
    ∷ []

abbrev opened : Bus ℤ World × World
opened = begin milli clock "study" none none none (new_bus sinks) (1000, [])

abbrev study : OpenPhase ℤ
study = record {
  path = "study";
  started_at = pos 1000;
  last_event_at = pos 1200;
  last_tick_current = pos 1;
  last_tick_emitted_at = pos 1200;
}

abbrev progress : ℕ → ℕ → PhaseProgress ℤ
progress at current = record {
  path = "study";
  emitted_at = pos at;
  current = pos current;
  total = none;
  msg = none;
  metrics = none;
}

-- The first tick comes long after the zero that a phase starts from, and is delivered.
abbrev once : Bus ℤ World × World
once = tick milli clock "study" (pos 1) none none none opened.0 opened.1

once_delivered : once.1.1 ≡ "tick" ∷ "begin" ∷ []
unfolding begin emit tick tick_event deliver lookup assign remove whole_arith
once_delivered = refl

-- Two ticks within the window are held back until the end, and only the higher is delivered.
abbrev stop : PhaseEnd ℤ
stop = record {
  path = "study";
  emitted_at = pos 1300;
  status = PhaseStatus.ok;
  wall_secs = pos 300;
  msg = none;
  metrics = none;
}

once_open : lookup "study" once.0.open_phases ≡ some study
unfolding begin emit tick tick_event deliver lookup assign remove whole_arith
once_open = refl

ended_events :
    (let (held, w) =
        tick_events milli clock study
          ((pos 1250, progress 1250 7) ∷ (pos 1300, progress 1300 4) ∷ [])
          once.0
          once.1 in
      (emit milli clock (phase_end stop) held w).1.1)
    ≡ "end" ∷ "tick" ∷ "tick" ∷ "begin" ∷ []
unfolding begin emit tick tick_event tick_events deliver lookup assign remove whole_arith
ended_events = refl

emit-tick_events_example :
    let held =
      tick_events milli clock study
        ((pos 1250, progress 1250 7) ∷ (pos 1300, progress 1300 4) ∷ [])
        once.0
        once.1 in
    held.1 ≡ once.1
unfolding begin emit tick tick_event deliver lookup assign remove whole_arith
emit-tick_events_example =
    (emit-tick_events milli clock study "study" (pos 1250) (progress 1250 7)
      ((pos 1300, progress 1300 4) ∷ []) stop once.0 once.1 refl refl
      ((refl, refl), ((refl, refl), tt)) refl).0

once-Reachable : Reachable milli clock once.0
once-Reachable =
    ticked "study" (pos 1) none none none opened.1
      (begun "study" none none none (1000, []) (created sinks))

pending_tick-open_example : lookup "fold" once.0.pending_tick ≡ none
unfolding begin emit tick tick_event deliver lookup assign remove whole_arith
pending_tick-open_example = pending_tick-open milli clock once-Reachable "fold" refl

cancel_all_open-empty_example :
    ((cancel_all_open milli clock none once.0 once.1).0.open_phases ≡ [])
    × ((cancel_all_open milli clock none once.0 once.1).0.pending_tick ≡ [])
cancel_all_open-empty_example = cancel_all_open-empty milli clock none once.1 once-Reachable

-- A scan 5800 ms after the tick.
scan_heartbeats_lem_example : (scan_heartbeats milli clock once.0 (7000, [])).0.pending_tick ≡ []
unfolding begin emit tick tick_event deliver lookup assign remove IsDistinct whole_arith
scan_heartbeats_lem_example = (scan_heartbeats_lem milli clock once.0 (7000, []) (refl, tt)).2

scan_delivers : (scan_heartbeats milli clock once.0 (7000, [])).1.1 ≡ "heartbeat" ∷ []
unfolding begin emit tick tick_event scan_heartbeats scan_each scan_phase deliver lookup assign
    remove whole_arith
scan_delivers = refl
