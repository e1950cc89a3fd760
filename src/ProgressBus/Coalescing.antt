-- ===== src/ProgressBus/Coalescing.antt =====
-- progress/bus.py: the ticks that come too early are held back, and the highest of them reaches the
-- sinks before the end of their phase.
use strategy_gpt.Prelude.{
  String, ℕ, List, [], ◌∷◌, ◌≡◌, refl, none, some, Bool-cases, inl, inr, arith, true, All, ap, ◌∙◌,
  ◌⊎◌, sym, get_elem?, if_true, suc, if_false,
}
use strategy_gpt.Prelude.Int.{◌≤ℤ◌, ltb_ℤ}
use strategy_gpt.Prelude.Floats.{Float}
use strategy_gpt.Prelude.Dict.{Dict, lookup, assign, lookup-assign_self, lookup-remove_self}
use strategy_gpt.ProgressBus.{
  OpenPhase, Bus, is_early, keep_highest, tick_event, deliver, emit, bookkeep, deliver_pending,
}
use strategy_gpt.ProgressEvents.{PhaseProgress, PhaseEnd, phase_progress, phase_end}

module _ {F W : Type 0} (f : Float F) (monotonic : W → F × W) (phase : OpenPhase F) where
  -- Ticks of one path, with their times, in their order.
  unfoldable pub tick_events : List (F × PhaseProgress F) → Bus F W → W → Bus F W × W
  tick_events [] bus w = (bus, w)
  tick_events ((now, event) ∷ events) bus w =
      let (bus', w') = tick_event f monotonic now event bus w in tick_events events bus' w'

  -- The first of the highest of some ticks.
  unfoldable pub highest : PhaseProgress F → List (F × PhaseProgress F) → PhaseProgress F
  highest best [] = best
  highest best ((now, event) ∷ events) = highest (keep_highest event (some best)) events

  keep_highest-above :
      (best event : PhaseProgress F) → event.current ≤ℤ (keep_highest event (some best)).current
  keep_highest-above best event = ground arith

  keep_highest-keeps :
      (best event : PhaseProgress F) → best.current ≤ℤ (keep_highest event (some best)).current
  keep_highest-keeps best event = ground arith

  keep_highest-either :
      (best event : PhaseProgress F)
      → (keep_highest event (some best) ≡ event) ⊎ (keep_highest event (some best) ≡ best)
  keep_highest-either best event = elim (Bool-cases (ltb_ℤ best.current event.current)) [
    | inl e ↦ inl (if_true event best e)
    | inr e ↦ inr (if_false event best e)
  ]

  highest-above_first :
      (best : PhaseProgress F) (events : List (F × PhaseProgress F))
      → best.current ≤ℤ (highest best events).current
  unfolding highest
  highest-above_first best [] = omega arith
  highest-above_first best ((now, event) ∷ events) = omega (
    arith,
    keep_highest-keeps best event,
    highest-above_first (keep_highest event (some best)) events,
  )

  highest-step :
      (best : PhaseProgress F) (now : F) (event : PhaseProgress F)
      (events : List (F × PhaseProgress F))
      → event.current ≤ℤ (highest (keep_highest event (some best)) events).current
  highest-step best now event events = omega (
    arith,
    keep_highest-above best event,
    highest-above_first (keep_highest event (some best)) events,
  )

  pub highest-above :
      (best : PhaseProgress F) (events : List (F × PhaseProgress F))
      → All (λ (e : F × PhaseProgress F). e.1.current ≤ℤ (highest best events).current) events
  unfolding highest
  highest-above best [] = tt
  highest-above best ((now, event) ∷ events) =
      (highest-step best now event events, highest-above (keep_highest event (some best)) events)

  tick_event-early :
      (now : F) (event : PhaseProgress F) (bus : Bus F W) (w : W)
      → lookup event.path bus.open_phases ≡ some phase
      → is_early f monotonic now phase ≡ true
      → tick_event f monotonic now event bus w ≡ (
        record bus {
          pending_tick =
              assign event.path
                (keep_highest event (lookup event.path bus.pending_tick))
                bus.pending_tick;
        },
        w,
      )
  unfolding tick_event
  tick_event-early now event bus w found early = rw (found, early, tick_event)

  pub highest-member :
      (best : PhaseProgress F) (events : List (F × PhaseProgress F))
      → (highest best events ≡ best)
        ⊎ ((i : ℕ) × (at : F) × (get_elem? events i ≡ some (at, highest best events)))
  unfolding highest
  highest-member best [] = inl refl
  highest-member best ((now, event) ∷ events) =
      let kept = keep_highest event (some best) in
      elim (highest-member kept events) [
        | inl h ↦ elim (keep_highest-either best event) [
          | inl k ↦ inr (0, now, ap (λ (x : PhaseProgress F). some (now, x)) (sym k ∙ sym h))
          | inr k ↦ inl (h ∙ k)
        ]
        | inr (i, at, h) ↦ inr (suc i, at, h)
      ]

  -- Every tick is for the path and within the window.
  abbrev pub AreEarly : String → List (F × PhaseProgress F) → Type 0
  AreEarly path events =
      All (λ (e : F × PhaseProgress F). (e.1.path ≡ path) × (is_early f monotonic e.0 phase ≡ true))
        events

  tick_events-AreEarly :
      (path : String) (best : PhaseProgress F) (events : List (F × PhaseProgress F)) (bus : Bus F W)
      (w : W)
      → lookup path bus.open_phases ≡ some phase
      → lookup path bus.pending_tick ≡ some best
      → AreEarly path events
      → (pending : Dict (PhaseProgress F)) × (tick_events events bus w
          ≡ (record bus { pending_tick = pending }, w))
        × (lookup path pending ≡ some (highest best events))
  unfolding tick_events highest
  tick_events-AreEarly path best [] bus w found waiting early = (bus.pending_tick, refl, waiting)
  tick_events-AreEarly path best ((now, event) ∷ events) bus w found waiting
        ((named, soon), early) =
      let held =
        assign event.path (keep_highest event (lookup event.path bus.pending_tick))
          bus.pending_tick in
      let step = tick_event-early now event bus w (rw named found) soon in
      let kept =
        lookup-assign_self event.path (keep_highest event (lookup event.path bus.pending_tick))
          bus.pending_tick in
      let (pending, run, final) =
        tick_events-AreEarly path (keep_highest event (some best)) events
          (record bus { pending_tick = held }) w found
          (ap (λ (s : String). lookup s held) (sym named)
            ∙ kept
            ∙ ap (λ o. some (keep_highest event o))
                (ap (λ (s : String). lookup s bus.pending_tick) named ∙ waiting))
          early in
      (pending, ap (λ (s : Bus F W × W). tick_events events s.0 s.1) step ∙ run, final)

  emit-end :
      (path : String) (best : PhaseProgress F) (stop : PhaseEnd F) (bus : Bus F W) (w : W)
      → stop.path ≡ path
      → lookup path bus.pending_tick ≡ some best
      → (emit f monotonic (phase_end stop) bus w).1
        ≡ deliver bus.sinks
            (phase_end stop)
            (deliver bus.sinks (phase_progress best) (monotonic w).1)
  unfolding emit bookkeep
  emit-end path best stop bus w named waiting =
      ap (deliver bus.sinks (phase_end stop)) (rw (named, waiting, deliver_pending) refl)

  -- Where the first tick is held back for an open phase that has nothing pending, and more ticks
  -- within the window follow, no sink is called before the phase ends; the end then delivers one
  -- tick, a highest of them all, and after it the end itself, and closes the phase.
  pub emit-tick_events :
      (path : String) (now : F) (first : PhaseProgress F) (events : List (F × PhaseProgress F))
      (stop : PhaseEnd F) (bus : Bus F W) (w : W)
      → lookup path bus.open_phases ≡ some phase
      → lookup path bus.pending_tick ≡ none
      → AreEarly path ((now, first) ∷ events)
      → stop.path ≡ path
      → let best = highest first events in
        let (held, w₁) = tick_events ((now, first) ∷ events) bus w in
        let (ended, w₂) = emit f monotonic (phase_end stop) held w₁ in
        (w₁ ≡ w)
        × (w₂
            ≡ deliver bus.sinks
                (phase_end stop)
                (deliver bus.sinks (phase_progress best) (monotonic w).1))
        × (first.current ≤ℤ best.current)
        × All (λ (e : F × PhaseProgress F). e.1.current ≤ℤ best.current) events
        × ((best ≡ first) ⊎ ((i : ℕ) × (now' : F) × (get_elem? events i ≡ some (now', best))))
        × (lookup path ended.open_phases ≡ none)
        × (lookup path ended.pending_tick ≡ none)
  unfolding tick_events emit bookkeep
  emit-tick_events path now first events stop bus w found idle (soon, early) named =
      let held =
        assign first.path (keep_highest first (lookup first.path bus.pending_tick))
          bus.pending_tick in
      let step = tick_event-early now first bus w (rw soon.0 found) soon.1 in
      let kept =
        ap (λ (s : String). lookup s held) (sym soon.0)
        ∙ lookup-assign_self first.path (keep_highest first (lookup first.path bus.pending_tick))
            bus.pending_tick
        ∙ ap (λ o. some (keep_highest first o))
            (ap (λ (s : String). lookup s bus.pending_tick) soon.0 ∙ idle) in
      let (pending, run, final) =
        tick_events-AreEarly path first events (record bus { pending_tick = held }) w found kept
          early in
      let all = ap (λ (s : Bus F W × W). tick_events events s.0 s.1) step ∙ run in
      let ended =
        emit-end path (highest first events) stop (record bus { pending_tick = pending }) w named
          final in
      (
        ap (λ (s : Bus F W × W). s.1) all,
        ap (λ (s : Bus F W × W). (emit f monotonic (phase_end stop) s.0 s.1).1) all ∙ ended,
        highest-above_first first events,
        highest-above first events,
        highest-member first events,
        rw named (lookup-remove_self path _),
        rw named (lookup-remove_self path _),
      )
