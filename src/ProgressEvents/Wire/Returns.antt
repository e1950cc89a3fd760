-- ===== src/ProgressEvents/Wire/Returns.antt =====
-- An event that is written as a dict is read back.
use text.Mathlib.Text.{◌==◌}
use strategy_gpt.Prelude.Dict.{Dict, lookup, ne_false}
use strategy_gpt.Prelude.Int.{ℤ}
use strategy_gpt.Prelude.Result.{Result}
use strategy_gpt.Prelude.{false, [], ◌∷◌, Option, some, none, String, ◌≡◌, ◌≢◌, refl, ap}
use strategy_gpt.ProgressEvents.{
  ProgressEvent, PhaseStatus, ok, fail, skip, cancelled, phase_begin, phase_progress, phase_end,
  heartbeat,
}
use strategy_gpt.ProgressEvents.Wire.{
  str, Casts, IsCast, optional, metrics_entry, entries_of, event_to_dict, status_value,
}
use strategy_gpt.ProgressEvents.Wire.Reading.{
  event_from_dict, event_of, kind_of, status_named, floats_of, opt_str, opt_metrics, value_at,
}

module _ {F : Type 0} where
  abbrev pub path_of : ProgressEvent F → String
  path_of (phase_begin e) = e.path
  path_of (phase_progress e) = e.path
  path_of (phase_end e) = e.path
  path_of (heartbeat e) = e.path

  abbrev pub kept : Option (Dict F) → Option (Dict F)
  kept none = none
  kept (some []) = none
  kept (some (e ∷ metrics)) = some (e ∷ metrics)

  -- The event, without its metrics if these are an empty dict.
  abbrev pub as_written : ProgressEvent F → ProgressEvent F
  as_written (phase_begin e) = phase_begin e
  as_written (phase_progress e) = phase_progress (record {
    path = e.path;
    emitted_at = e.emitted_at;
    current = e.current;
    total = e.total;
    msg = e.msg;
    metrics = kept e.metrics;
  })
  as_written (phase_end e) = phase_end (record {
    path = e.path;
    emitted_at = e.emitted_at;
    status = e.status;
    wall_secs = e.wall_secs;
    msg = e.msg;
    metrics = kept e.metrics;
  })
  as_written (heartbeat e) = heartbeat e

module _ {F : Type 0} (c : Casts F) (law : IsCast c) where
  floats-entries_of : (m : Dict F) → floats_of c (entries_of m) ≡ Result.ok m
  floats-entries_of [] = refl
  floats-entries_of ((k, x) ∷ m) = rw (law.float_real x, floats-entries_of m) refl

  pub status_returns : (s : PhaseStatus) → status_named (status_value s) ≡ Result.ok s
  unfolding status_named
  status_returns ok = refl
  status_returns fail = refl
  status_returns skip = refl
  status_returns cancelled = refl

  -- The last entries of a record, which are written if there is something to write.
  msg_returns :
      (m : Option String) → opt_str c (value_at c "msg" (optional {F = F} "msg" str m)) ≡ m
  unfolding lookup
  msg_returns none = refl
  msg_returns (some m) = ap some (law.str_text m)

  unit_not_msg : (m : Option String) → lookup "unit" (optional {F = F} "msg" str m) ≡ none
  unfolding lookup
  unit_not_msg none = refl
  unit_not_msg (some m) = refl

  total_not_msg : (m : Option String) → lookup "total" (optional {F = F} "msg" str m) ≡ none
  unfolding lookup
  total_not_msg none = refl
  total_not_msg (some m) = refl

  metrics_return :
      (m : Option (Dict F))
      → opt_metrics c (value_at c "metrics" (metrics_entry m)) ≡ Result.ok (kept m)
  unfolding lookup
  metrics_return none = refl
  metrics_return (some []) = refl
  metrics_return (some ((k, x) ∷ m)) = rw (law.float_real x, floats-entries_of m) refl

  msg_not_metrics : (m : Option (Dict F)) → lookup "msg" (metrics_entry m) ≡ none
  unfolding lookup
  msg_not_metrics none = refl
  msg_not_metrics (some []) = refl
  msg_not_metrics (some (e ∷ m)) = refl

  total_not_metrics : (m : Option (Dict F)) → lookup "total" (metrics_entry m) ≡ none
  unfolding lookup
  total_not_metrics none = refl
  total_not_metrics (some []) = refl
  total_not_metrics (some (e ∷ m)) = refl

  ruleset reading = (
    msg_returns, unit_not_msg, total_not_msg, metrics_return, msg_not_metrics, total_not_metrics,
    status_returns,
  )

  abbrev Reads : ProgressEvent F → Type 0
  Reads e = event_from_dict c (event_to_dict e) ≡ Result.ok (as_written e)

  heartbeat_returns :
      (p : String) (t w s : F) (m : Option String)
      → (p == "") ≡ false
      → Reads (
          heartbeat (record {
            path = p;
            emitted_at = t;
            wall_secs = w;
            since_last_event_secs = s;
            msg = m;
          }))
  unfolding event_from_dict event_to_dict event_of kind_of lookup
  heartbeat_returns p t w s m h = simp (h, law.float_real, reading) refl

  begin_returns :
      (p : String) (t s : F) (total : Option ℤ) (unit m : Option String)
      → (p == "") ≡ false
      → Reads (
          phase_begin (record {
            path = p;
            emitted_at = t;
            started_at = s;
            total = total;
            unit = unit;
            msg = m;
          }))
  unfolding event_from_dict event_to_dict event_of kind_of lookup
  begin_returns p t s none none m h = simp (h, law.float_real, reading) refl
  begin_returns p t s none (some u) m h = simp (h, law.float_real, law.str_text, reading) refl
  begin_returns p t s (some n) none m h = simp (h, law.float_real, law.int_integer, reading) refl
  begin_returns p t s (some n) (some u) m h =
      simp (h, law.float_real, law.int_integer, law.str_text, reading) refl

  progress_returns :
      (p : String) (t : F) (current : ℤ) (total : Option ℤ) (m : Option String)
      (metrics : Option (Dict F))
      → (p == "") ≡ false
      → Reads (
          phase_progress (record {
            path = p;
            emitted_at = t;
            current = current;
            total = total;
            msg = m;
            metrics = metrics;
          }))
  unfolding event_from_dict event_to_dict event_of kind_of lookup
  progress_returns p t current none none metrics h =
      simp (h, law.float_real, law.int_integer, reading) refl
  progress_returns p t current none (some m) metrics h =
      simp (h, law.float_real, law.int_integer, law.str_text, reading) refl
  progress_returns p t current (some n) none metrics h =
      simp (h, law.float_real, law.int_integer, reading) refl
  progress_returns p t current (some n) (some m) metrics h =
      simp (h, law.float_real, law.int_integer, law.str_text, reading) refl

  end_returns :
      (p : String) (t : F) (status : PhaseStatus) (wall : F) (m : Option String)
      (metrics : Option (Dict F))
      → (p == "") ≡ false
      → Reads (
          phase_end (record {
            path = p;
            emitted_at = t;
            status = status;
            wall_secs = wall;
            msg = m;
            metrics = metrics;
          }))
  unfolding event_from_dict event_to_dict event_of kind_of lookup
  end_returns p t status wall none metrics h = simp (h, law.float_real, reading) refl
  end_returns p t status wall (some m) metrics h =
      simp (h, law.float_real, law.str_text, reading) refl

  -- Where the builtins pass on a value of their type, an event with a path is read back from the
  -- dict that it is written as, without its metrics if these are an empty dict.
  pub event_from_dict-event_to_dict :
      (e : ProgressEvent F)
      → path_of e ≢ ""
      → event_from_dict c (event_to_dict e) ≡ Result.ok (as_written e)
  event_from_dict-event_to_dict (phase_begin e) h =
      begin_returns e.path e.emitted_at e.started_at e.total e.unit e.msg (ne_false e.path "" h)
  event_from_dict-event_to_dict (phase_progress e) h =
      progress_returns e.path e.emitted_at e.current e.total e.msg e.metrics (ne_false e.path "" h)
  event_from_dict-event_to_dict (phase_end e) h =
      end_returns e.path e.emitted_at e.status e.wall_secs e.msg e.metrics (ne_false e.path "" h)
  event_from_dict-event_to_dict (heartbeat e) h =
      heartbeat_returns e.path e.emitted_at e.wall_secs e.since_last_event_secs e.msg
        (ne_false e.path "" h)
