-- ===== src/ProgressBus.antt =====
-- python/strategy_gpt/progress/bus.py: the bus that fans the progress events out. The clock and the sinks are the caller's, and may change the outside world `W`;
-- times are the caller's floats `F`.
pub mod Sweeps
pub mod Tracking
pub mod Coalescing
pub mod Scan
mod Examples
use strategy_gpt.ProgressEvents.{
  PhaseStatus, PhaseBegin, PhaseProgress, PhaseEnd, Heartbeat, ProgressEvent, phase_begin,
  phase_progress, phase_end, heartbeat,
}
use strategy_gpt.Prelude.{
  String, Bool, true, false, Option, none, some, List, [], ◌∷◌, ◌++◌, if◌then◌else◌,
}
use strategy_gpt.Prelude.Int.{ℤ, pos, ltb_ℤ}
use strategy_gpt.Prelude.Floats.{Float, of_ℕ}
use strategy_gpt.Prelude.Result.{Error}
use strategy_gpt.Prelude.Dict.{Dict, lookup, assign, remove, keys, values}

-- `handle` and `close`, which may raise.
pub record ProgressSink (F W : Type 0) : Type 0 where
  pub handle : ProgressEvent F → W → Option Error × W
  pub close : W → Option Error × W

pub record OpenPhase (F : Type 0) : Type 0 where
  pub path : String
  pub started_at : F
  pub last_event_at : F
  pub last_tick_current : ℤ
  pub last_tick_emitted_at : F

-- The attributes of the bus, `_open` and `_pending_tick` among them.
pub record Bus (F W : Type 0) : Type 0 where
  pub sinks : List (ProgressSink F W)
  pub open_phases : Dict (OpenPhase F)
  pub pending_tick : Dict (PhaseProgress F)
  pub closed : Bool

abbrev pub new_bus : {F W : Type 0} → List (ProgressSink F W) → Bus F W
new_bus sinks = record { sinks = sinks; open_phases = []; pending_tick = []; closed = false }

unfoldable pub add_sink : {F W : Type 0} → ProgressSink F W → Bus F W → Bus F W
add_sink sink bus = record bus { sinks = bus.sinks ++ sink ∷ [] }

abbrev pub open_paths : {F W : Type 0} → Bus F W → List String
open_paths bus = keys bus.open_phases

-- The loop over the sinks: what a sink raises is dropped.
unfoldable pub deliver : {F W : Type 0} → List (ProgressSink F W) → ProgressEvent F → W → W
deliver [] event w = w
deliver (sink ∷ sinks) event w = let (raised, w') = sink.handle event w in deliver sinks event w'

unfoldable pub close_sinks : {F W : Type 0} → List (ProgressSink F W) → W → W
close_sinks [] w = w
close_sinks (sink ∷ sinks) w = let (raised, w') = sink.close w in close_sinks sinks w'

unfoldable pub close : {F W : Type 0} → Bus F W → W → Bus F W × W
unfolding close_sinks
close bus w = (record bus { closed = true }, close_sinks bus.sinks w)

-- `max(a, b)`
abbrev pub max_ℤ : ℤ → ℤ → ℤ
max_ℤ a b = if ltb_ℤ a b then b else a

-- `existing is None or current > existing.current`
abbrev pub keep_highest :
    {F : Type 0} → PhaseProgress F → Option (PhaseProgress F) → PhaseProgress F
keep_highest event none = event
keep_highest event (some existing) =
    if ltb_ℤ existing.current event.current then event else existing

module _ {F W : Type 0} (f : Float F) (monotonic : W → F × W) where
  -- 250 ms and 5 s.
  abbrev pub coalesce_window_secs : F
  coalesce_window_secs = f.literal (pos 25) 2

  abbrev pub heartbeat_idle_threshold_secs : F
  heartbeat_idle_threshold_secs = f.literal (pos 50) 1

  -- `a or b`, for floats.
  abbrev or_else : F → F → F
  or_else a b = if f.eq a (of_ℕ f 0) then b else a

  -- What a delivered tick leaves in its open phase.
  abbrev ticked : F → ℤ → OpenPhase F → OpenPhase F
  ticked at current phase = record phase {
    last_event_at = at;
    last_tick_current = max_ℤ phase.last_tick_current current;
    last_tick_emitted_at = at;
  }

  abbrev pub tick_phase : String → F → ℤ → Dict (OpenPhase F) → Dict (OpenPhase F)
  tick_phase path at current phases = elim (lookup path phases) [
    | none ↦ phases
    | some phase ↦ assign path (ticked at current phase) phases
  ]

  abbrev deliver_pending : Bus F W → String → W → W
  deliver_pending bus path w = elim (lookup path bus.pending_tick) [
    | none ↦ w
    | some event ↦ deliver bus.sinks (phase_progress event) w
  ]

  -- The bookkeeping of `emit`, before the event itself is delivered; an end first delivers what
  -- is pending for its path.
  pub bookkeep : F → ProgressEvent F → Bus F W → W → Bus F W × W
  unfolding deliver assign remove
  bookkeep now (phase_begin e) bus w = (
    record bus {
      open_phases =
          assign e.path
            (record {
              path = e.path;
              started_at = or_else (or_else e.started_at e.emitted_at) now;
              last_event_at = or_else e.emitted_at now;
              last_tick_current = pos 0;
              last_tick_emitted_at = of_ℕ f 0;
            })
            bus.open_phases;
    },
    w,
  )
  bookkeep now (phase_progress e) bus w = (
    record bus {
      open_phases = tick_phase e.path (or_else e.emitted_at now) e.current bus.open_phases;
    },
    w,
  )
  bookkeep now (phase_end e) bus w = (
    record bus {
      open_phases = remove e.path bus.open_phases;
      pending_tick = remove e.path bus.pending_tick;
    },
    deliver_pending bus e.path w,
  )
  bookkeep now (heartbeat e) bus w = (bus, w)

  unfoldable pub emit : ProgressEvent F → Bus F W → W → Bus F W × W
  unfolding bookkeep
  emit event bus w =
      let (now, w₁) = monotonic w in
      let (bus', w₂) = bookkeep now event bus w₁ in (bus', deliver bus'.sinks event w₂)

  unfoldable pub begin :
      (path : String) (total : Option ℤ) (unit msg : Option String) → Bus F W → W → Bus F W × W
  unfolding emit
  begin path total unit msg bus w =
      let (now, w') = monotonic w in
      emit
        (phase_begin (record {
          path = path;
          emitted_at = now;
          started_at = now;
          total = total;
          unit = unit;
          msg = msg;
        }))
        bus w'

  -- Within the window after the last tick that was delivered.
  abbrev pub is_early : F → OpenPhase F → Bool
  is_early now phase = f.lt (f.sub now phase.last_tick_emitted_at) coalesce_window_secs

  -- A tick, once its event and its time are known.
  unfoldable pub tick_event : F → PhaseProgress F → Bus F W → W → Bus F W × W
  unfolding deliver assign remove lookup
  tick_event now event bus w = elim (lookup event.path bus.open_phases) [
    | none ↦ (bus, deliver bus.sinks (phase_progress event) w)
    | some phase ↦
        if is_early now phase
        then (
          record bus {
            pending_tick =
                assign event.path (keep_highest event (lookup event.path bus.pending_tick))
                  bus.pending_tick;
          },
          w,
        )
        else (
          record bus {
            open_phases = assign event.path (ticked now event.current phase) bus.open_phases;
            pending_tick = remove event.path bus.pending_tick;
          },
          deliver bus.sinks (phase_progress event) w,
        )
  ]

  unfoldable pub tick :
      (path : String) (current : ℤ) (total : Option ℤ) (msg : Option String)
      (metrics : Option (Dict F))
      → Bus F W
      → W
      → Bus F W × W
  unfolding tick_event
  tick path current total msg metrics bus w =
      let (now, w') = monotonic w in
      tick_event now
        (record {
          path = path;
          emitted_at = now;
          current = current;
          total = total;
          msg = msg;
          metrics = metrics;
        })
        bus w'

  abbrev pub wall_of : F → Option (OpenPhase F) → F
  wall_of now none = of_ℕ f 0
  wall_of now (some phase) = f.sub now phase.started_at

  unfoldable pub end_phase :
      (path : String) (status : PhaseStatus) (msg : Option String) (metrics : Option (Dict F))
      → Bus F W
      → W
      → Bus F W × W
  unfolding emit lookup
  end_phase path status msg metrics bus w =
      let (now, w') = monotonic w in
      emit
        (phase_end (record {
          path = path;
          emitted_at = now;
          status = status;
          wall_secs = wall_of now (lookup path bus.open_phases);
          msg = msg;
          metrics = metrics;
        }))
        bus w'
