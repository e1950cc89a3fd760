-- ===== src/ProgressEvents/Wire/Reading.antt =====
-- python/strategy_gpt/progress/events.py: an event from a dict. An unknown kind raises a subclass of
-- ValueError.
use text.Mathlib.Text.{◌==◌}
use strategy_gpt.Prelude.Dict.{Dict, lookup}
use strategy_gpt.Prelude.Int.{ℤ, pos}
use strategy_gpt.Prelude.Result.{Result, raise, value_error, type_error, ◌>>=◌}
use strategy_gpt.Prelude.{[], ◌∷◌, Option, some, none, String, if◌then◌else◌}
use strategy_gpt.ProgressEvents.{
  ProgressEvent, PhaseStatus, ok, fail, skip, cancelled, phase_begin, phase_progress, phase_end,
  heartbeat,
}
use strategy_gpt.ProgressEvents.Wire.{
  Value, Entries, null, boolean, integer, real, str, array, mapping, end, entry, Casts, EventKind,
  begin_kind, progress_kind, end_kind, heartbeat_kind,
}

-- `EventKind(kind_raw)` and `PhaseStatus(status)`
unfoldable pub kind_of : String → Option EventKind
kind_of raw =
    if raw == "phase_begin"
    then some begin_kind
    else if raw == "phase_progress"
    then some progress_kind
    else if raw == "phase_end"
    then some end_kind
    else if raw == "heartbeat"
    then some heartbeat_kind
    else none

unfoldable pub status_named : String → Result PhaseStatus
status_named raw =
    if raw == "ok"
    then Result.ok ok
    else if raw == "fail"
    then Result.ok fail
    else if raw == "skip"
    then Result.ok skip
    else if raw == "cancelled"
    then Result.ok cancelled
    else raise value_error

module _ {F : Type 0} (c : Casts F) where
  abbrev pub status_of : Value F → Result PhaseStatus
  status_of (str raw) = status_named raw
  status_of null = raise value_error
  status_of (boolean b) = raise value_error
  status_of (integer z) = raise value_error
  status_of (real x) = raise value_error
  status_of (array entries) = raise value_error
  status_of (mapping entries) = raise value_error

  -- `record.get(key, default)`
  abbrev pub get_or : Value F → Option (Value F) → Value F
  get_or default none = default
  get_or default (some v) = v

  abbrev pub some_of : {A : Type 0} → Result A → Result (Option A)
  some_of r = r >>= λ a. Result.ok (some a)

  -- `_opt_int` and `_opt_str`
  abbrev pub opt_int : Value F → Result (Option ℤ)
  opt_int null = Result.ok none
  opt_int (boolean b) = some_of (c.to_int (boolean b))
  opt_int (integer z) = some_of (c.to_int (integer z))
  opt_int (real x) = some_of (c.to_int (real x))
  opt_int (str s) = some_of (c.to_int (str s))
  opt_int (array entries) = some_of (c.to_int (array entries))
  opt_int (mapping entries) = some_of (c.to_int (mapping entries))

  abbrev pub opt_str : Value F → Option String
  opt_str null = none
  opt_str (boolean b) = some (c.to_str (boolean b))
  opt_str (integer z) = some (c.to_str (integer z))
  opt_str (real x) = some (c.to_str (real x))
  opt_str (str s) = some (c.to_str (str s))
  opt_str (array entries) = some (c.to_str (array entries))
  opt_str (mapping entries) = some (c.to_str (mapping entries))

  -- `{str(k): float(val) for k, val in v.items()}`; the keys are strings that differ.
  abbrev pub floats_of : Entries F → Result (Dict F)
  floats_of end = Result.ok []
  floats_of (entry k v entries) =
      c.to_float v >>= λ x. floats_of entries >>= λ rest. Result.ok ((k, x) ∷ rest)

  -- `_opt_metrics`
  abbrev pub opt_metrics : Value F → Result (Option (Dict F))
  opt_metrics null = Result.ok none
  opt_metrics (mapping entries) = some_of (floats_of entries)
  opt_metrics (boolean b) = raise type_error
  opt_metrics (integer z) = raise type_error
  opt_metrics (real x) = raise type_error
  opt_metrics (str s) = raise type_error
  opt_metrics (array entries) = raise type_error

  abbrev pub value_at : String → Dict (Value F) → Value F
  value_at key record' = get_or null (lookup key record')

  abbrev pub float_at : String → F → Dict (Value F) → Result F
  float_at key default record' = c.to_float (get_or (real default) (lookup key record'))

  -- The event of a known kind, with a path and a time.
  unfoldable pub event_of : EventKind → String → F → Dict (Value F) → Result (ProgressEvent F)
  event_of begin_kind path emitted_at r = float_at "started_at" emitted_at r >>= λ started_at.
      opt_int (value_at "total" r) >>= λ total. Result.ok (
        phase_begin (record {
          path = path;
          emitted_at = emitted_at;
          started_at = started_at;
          total = total;
          unit = opt_str (value_at "unit" r);
          msg = opt_str (value_at "msg" r);
        }))
  event_of progress_kind path emitted_at r =
      c.to_int (get_or (integer (pos 0)) (lookup "current" r)) >>= λ current.
      opt_int (value_at "total" r) >>= λ total. opt_metrics (value_at "metrics" r) >>= λ metrics.
      Result.ok (
        phase_progress (record {
          path = path;
          emitted_at = emitted_at;
          current = current;
          total = total;
          msg = opt_str (value_at "msg" r);
          metrics = metrics;
        }))
  event_of end_kind path emitted_at r =
      status_of (get_or (str "ok") (lookup "status" r)) >>= λ status.
      float_at "wall_secs" c.zero r >>= λ wall_secs.
      opt_metrics (value_at "metrics" r) >>= λ metrics. Result.ok (
        phase_end (record {
          path = path;
          emitted_at = emitted_at;
          status = status;
          wall_secs = wall_secs;
          msg = opt_str (value_at "msg" r);
          metrics = metrics;
        }))
  event_of heartbeat_kind path emitted_at r = float_at "wall_secs" c.zero r >>= λ wall_secs.
      float_at "since_last_event_secs" c.zero r >>= λ since. Result.ok (
        heartbeat (record {
          path = path;
          emitted_at = emitted_at;
          wall_secs = wall_secs;
          since_last_event_secs = since;
          msg = opt_str (value_at "msg" r);
        }))

  abbrev pub raw_str : Option (Value F) → Option String
  raw_str (some (str s)) = some s
  raw_str (some null) = none
  raw_str (some (boolean b)) = none
  raw_str (some (integer z)) = none
  raw_str (some (real x)) = none
  raw_str (some (array entries)) = none
  raw_str (some (mapping entries)) = none
  raw_str none = none

  abbrev pub known_kind : Option String → Result EventKind
  known_kind none = raise value_error
  known_kind (some raw) = elim (kind_of raw) as (λ k. Result EventKind) [
    | none ↦ raise value_error
    | some k ↦ Result.ok k
  ]

  abbrev pub valid_path : Option String → Result String
  valid_path none = raise value_error
  valid_path (some path) = if path == "" then raise value_error else Result.ok path

  unfoldable pub event_from_dict : Dict (Value F) → Result (ProgressEvent F)
  event_from_dict r = known_kind (raw_str (lookup "kind" r)) >>= λ kind.
      valid_path (raw_str (lookup "path" r)) >>= λ path.
      float_at "emitted_at" c.zero r >>= λ emitted_at. event_of kind path emitted_at r
