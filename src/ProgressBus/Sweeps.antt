-- ===== src/ProgressBus/Sweeps.antt =====
-- python/strategy_gpt/progress/bus.py: the operations over all the open phases or pending ticks.
use strategy_gpt.Prelude.{String, Bool, Option, none, List, [], ◌∷◌, if◌then◌else◌}
use strategy_gpt.Prelude.Floats.{Float}
use strategy_gpt.Prelude.Dict.{Dict, lookup, assign, values}
use strategy_gpt.ProgressBus.{
  OpenPhase, Bus, open_paths, deliver, tick_phase, heartbeat_idle_threshold_secs, end_phase,
  phase_progress, heartbeat,
}
use strategy_gpt.ProgressEvents.{PhaseProgress, cancelled}

module _ {F W : Type 0} (f : Float F) (monotonic : W → F × W) where
  -- The loop of `flush`, over the ticks that were pending.
  unfoldable pub flush_each : List (PhaseProgress F) → Bus F W → W → Bus F W × W
  unfolding deliver lookup assign
  flush_each [] bus w = (bus, w)
  flush_each (event ∷ events) bus w =
      flush_each events
        (record bus {
          open_phases =
              tick_phase f monotonic event.path event.emitted_at event.current bus.open_phases;
        })
        (deliver bus.sinks (phase_progress event) w)

  unfoldable pub flush : Bus F W → W → Bus F W × W
  unfolding flush_each
  flush bus w = flush_each (values bus.pending_tick) (record bus { pending_tick = [] }) w

  unfoldable pub end_each : List String → Option String → Bus F W → W → Bus F W × W
  unfolding end_phase
  end_each [] msg bus w = (bus, w)
  end_each (path ∷ paths) msg bus w =
      let (bus', w') = end_phase f monotonic path cancelled msg none bus w in
      end_each paths msg bus' w'

  unfoldable pub cancel_all_open : Option String → Bus F W → W → Bus F W × W
  unfolding end_each
  cancel_all_open msg bus w = end_each (open_paths bus) msg bus w

  abbrev pub is_active : F → OpenPhase F → Bool
  is_active now phase =
      f.lt (f.sub now phase.last_event_at) (heartbeat_idle_threshold_secs f monotonic)

  -- One phase of a scan: its heartbeat, if it has been silent for the threshold.
  unfoldable pub scan_phase : F → String → OpenPhase F → Bus F W → W → Bus F W × W
  unfolding deliver assign
  scan_phase now path phase bus w =
      let idle = f.sub now phase.last_event_at in
      if f.lt idle (heartbeat_idle_threshold_secs f monotonic) then (bus, w) else (
        record bus {
          open_phases = assign path (record phase { last_event_at = now }) bus.open_phases;
        },
        deliver bus.sinks
            (heartbeat (record {
              path = path;
              emitted_at = now;
              wall_secs = f.sub now phase.started_at;
              since_last_event_secs = f.sub now phase.last_event_at;
              msg = none;
            }))
            w,
      )

  unfoldable pub scan_each : F → Dict (OpenPhase F) → Bus F W → W → Bus F W × W
  unfolding scan_phase
  scan_each now [] bus w = (bus, w)
  scan_each now ((path, phase) ∷ phases) bus w =
      let (bus', w') = scan_phase now path phase bus w in scan_each now phases bus' w'

  unfoldable pub scan_heartbeats : Bus F W → W → Bus F W × W
  unfolding scan_each
  scan_heartbeats bus w = let (now, w') = monotonic w in scan_each now bus.open_phases bus w'
