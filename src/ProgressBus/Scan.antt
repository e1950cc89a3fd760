-- ===== src/ProgressBus/Scan.antt =====
-- progress/bus.py: what the heartbeat scan delivers and what it leaves.
use mathlib.Core.Option
use text.Mathlib.Text.{◌==◌}
use text.Mathlib.TextEquality.{eq_iff}
use strategy_gpt.Prelude.{
  String, Bool, Option, List, [], ◌∷◌, ◌≡◌, refl, none, some, false, not, map, filter,
  if◌then◌else◌, Bool-cases, inl, inr, ap, sym, ◌∙◌,
}
use strategy_gpt.Prelude.Floats.{Float}
use strategy_gpt.Prelude.Dict.{
  Dict, lookup, lookup-assign_self, lookup-assign_other, among, keys, lookup-among,
}
use strategy_gpt.ProgressBus.{ProgressSink, OpenPhase, Bus, deliver}
use strategy_gpt.ProgressEvents.{ProgressEvent, heartbeat}
use strategy_gpt.ProgressBus.Sweeps.{is_active, scan_phase, scan_each, scan_heartbeats}

-- The keys of a dict are distinct.
unfoldable pub IsDistinct : {A : Type 0} → Dict A → Type 0
IsDistinct [] = Unit
IsDistinct ((k, v) ∷ d) = (among k (keys d) ≡ false) × IsDistinct d

module _ {F W : Type 0} (f : Float F) (monotonic : W → F × W) where
  abbrev pub deliver_each : List (ProgressSink F W) → List (ProgressEvent F) → W → W
  deliver_each sinks [] w = w
  deliver_each sinks (event ∷ events) w = deliver_each sinks events (deliver sinks event w)

  abbrev pub heartbeat_of : F → String × OpenPhase F → ProgressEvent F
  heartbeat_of now (path, phase) = heartbeat (record {
    path = path;
    emitted_at = now;
    wall_secs = f.sub now phase.started_at;
    since_last_event_secs = f.sub now phase.last_event_at;
    msg = none;
  })

  abbrev pub is_silent : F → String × OpenPhase F → Bool
  is_silent now (path, phase) = not (is_active f monotonic now phase)

  -- An open phase after a scan.
  abbrev pub refreshed : F → OpenPhase F → OpenPhase F
  refreshed now phase =
      if is_active f monotonic now phase then phase else record phase { last_event_at = now }

  scan_each-world :
      (now : F) (phases : Dict (OpenPhase F)) (bus : Bus F W) (w : W)
      → (scan_each f monotonic now phases bus w).1
        ≡ deliver_each bus.sinks (map (heartbeat_of now) (filter (is_silent now) phases)) w
  unfolding scan_each scan_phase
  scan_each-world now [] bus w = refl
  scan_each-world now ((path, phase) ∷ phases) bus w =
      elim (Bool-cases (is_active f monotonic now phase)) [
        | inl e ↦ rw (e, scan_each, scan_phase) (scan_each-world now phases bus w)
        | inr e ↦ rw (e, scan_each, scan_phase) (scan_each-world now phases _ _)
      ]

  scan_each-pending :
      (now : F) (phases : Dict (OpenPhase F)) (bus : Bus F W) (w : W)
      → (scan_each f monotonic now phases bus w).0.pending_tick ≡ bus.pending_tick
  unfolding scan_each scan_phase
  scan_each-pending now [] bus w = refl
  scan_each-pending now ((path, phase) ∷ phases) bus w =
      elim (Bool-cases (is_active f monotonic now phase)) [
        | inl e ↦ rw (e, scan_each, scan_phase) (scan_each-pending now phases bus w)
        | inr e ↦ rw (e, scan_each, scan_phase) (scan_each-pending now phases _ _)
      ]

  -- What a scan of a phase, if it is scanned, leaves of what the bus holds for its path.
  abbrev scanned : F → Option (OpenPhase F) → Option (OpenPhase F) → Option (OpenPhase F)
  scanned now none held = held
  scanned now (some phase) held =
      if is_active f monotonic now phase then held else some (record phase { last_event_at = now })

  scan_phase_self :
      (now : F) (path : String) (phase : OpenPhase F) (bus : Bus F W) (w : W)
      → lookup path (scan_phase f monotonic now path phase bus w).0.open_phases
        ≡ scanned now (some phase) (lookup path bus.open_phases)
  unfolding scan_phase
  scan_phase_self now path phase bus w = elim (Bool-cases (is_active f monotonic now phase)) [
    | inl e ↦ rw (e, scan_phase)
    | inr e ↦ rw (e, scan_phase) (lookup-assign_self path _ bus.open_phases)
  ]

  scan_phase-other :
      (now : F) (path p : String) (phase : OpenPhase F) (bus : Bus F W) (w : W)
      → (path == p) ≡ false
      → lookup p (scan_phase f monotonic now path phase bus w).0.open_phases
        ≡ lookup p bus.open_phases
  unfolding scan_phase
  scan_phase-other now path p phase bus w h = elim (Bool-cases (is_active f monotonic now phase)) [
    | inl e ↦ rw (e, scan_phase)
    | inr e ↦ rw (e, scan_phase) (lookup-assign_other p path _ bus.open_phases h)
  ]

  scan_each-lookup :
      (now : F) (phases : Dict (OpenPhase F)) (bus : Bus F W) (w : W) (p : String)
      → IsDistinct phases
      → lookup p (scan_each f monotonic now phases bus w).0.open_phases
        ≡ scanned now (lookup p phases) (lookup p bus.open_phases)
  unfolding scan_each lookup IsDistinct
  scan_each-lookup now [] bus w p d = refl
  scan_each-lookup now ((path, phase) ∷ phases) bus w p (fresh, d) =
      let next = scan_phase f monotonic now path phase bus w in
      let rest = scan_each-lookup now phases next.0 next.1 p d in
      elim (Bool-cases (path == p)) [
        | inl e ↦
            let named = (eq_iff path p).0 e in
            let later =
              ap (λ (s : String). lookup s phases) (sym named) ∙ lookup-among path phases fresh in
            let first =
              ap (λ (s : String). lookup s next.0.open_phases) (sym named)
              ∙ scan_phase_self now path phase bus w
              ∙ ap (λ (s : String). scanned now (some phase) (lookup s bus.open_phases)) named in
            rw e (rest ∙ ap (λ o. scanned now o (lookup p next.0.open_phases)) later ∙ first)
        | inr e ↦
            rw e (
              rest ∙ ap (scanned now (lookup p phases)) (scan_phase-other now path p phase bus w e))
      ]

  refreshed_lem :
      (now : F) (held : Option (OpenPhase F))
      → scanned now held held ≡ Option.map (refreshed now) held
  refreshed_lem now none = refl
  refreshed_lem now (some phase) = elim (Bool-cases (is_active f monotonic now phase)) [
    | inl e ↦ rw e refl
    | inr e ↦ rw e refl
  ]

  -- With distinct keys, as in every dict, a scan delivers one heartbeat for each open phase that has
  -- been silent for the threshold, in the order of the open phases and with the age of its last
  -- event at the time that the scan reads once; it then counts the scan as the last event of these
  -- phases, changes no other phase and leaves the pending ticks.
  pub scan_heartbeats_lem :
      (bus : Bus F W) (w : W)
      → IsDistinct bus.open_phases
      → let (now, w₁) = monotonic w in
        let (bus', w₂) = scan_heartbeats f monotonic bus w in
        (w₂
          ≡ deliver_each bus.sinks
              (map (heartbeat_of now) (filter (is_silent now) bus.open_phases))
              w₁)
        × ((p : String)
            → lookup p bus'.open_phases ≡ Option.map (refreshed now) (lookup p bus.open_phases))
        × (bus'.pending_tick ≡ bus.pending_tick)
  unfolding scan_heartbeats
  scan_heartbeats_lem bus w d =
      let (now, w₁) = monotonic w in
      (
        scan_each-world now bus.open_phases bus w₁,
        λ p.
            scan_each-lookup now bus.open_phases bus w₁ p d
            ∙ refreshed_lem now (lookup p bus.open_phases),
        scan_each-pending now bus.open_phases bus w₁,
      )
