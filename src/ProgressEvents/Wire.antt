-- ===== src/ProgressEvents/Wire.antt =====
-- python/strategy_gpt/progress/events.py: events as dicts, and the values of such a
-- record. `float(v)`, `int(v)` and `str(v)` of a value are arguments.
pub mod Reading
pub mod Returns
mod Examples
use text.Mathlib.Text.{◌==◌}
use strategy_gpt.Prelude.Dict.{Dict, lookup}
use strategy_gpt.Prelude.Int.{ℤ, pos}
use strategy_gpt.Prelude.Result.{Result, raise, value_error, type_error, ◌>>=◌}
use strategy_gpt.Prelude.Result
use strategy_gpt.Prelude.{
  Bool, true, false, List, [], ◌∷◌, Option, some, none, String, if◌then◌else◌, ◌++◌, ◌≡◌,
}
use strategy_gpt.ProgressEvents.{
  ProgressEvent, PhaseBegin, PhaseProgress, PhaseEnd, Heartbeat, PhaseStatus, ok, fail, skip,
  cancelled, phase_begin, phase_progress, phase_end, heartbeat,
}

mutual
  -- A value of a record that was read from JSON.
  pub data Value (F : Type 0) : Type 0 where
    null : Value F
    boolean : Bool → Value F
    integer : ℤ → Value F
    real : F → Value F
    str : String → Value F
    array : Entries F → Value F
    mapping : Entries F → Value F

  -- The entries of a mapping; those of an array have no keys.
  pub data Entries (F : Type 0) : Type 0 where
    end : Entries F
    entry : String → Value F → Entries F → Entries F

-- The builtins on the values of a record.
pub record Casts (F : Type 0) : Type 0 where
  pub zero : F
  pub to_float : Value F → Result F
  pub to_int : Value F → Result ℤ
  pub to_str : Value F → String

-- A value of the type asked for is passed on.
pub record IsCast {F : Type 0} (c : Casts F) : Type 0 where
  pub float_real : (x : F) → c.to_float (real x) ≡ Result.ok x
  pub int_integer : (z : ℤ) → c.to_int (integer z) ≡ Result.ok z
  pub str_text : (s : String) → c.to_str (str s) ≡ s

pub data EventKind : Type 0 where
  begin_kind progress_kind end_kind heartbeat_kind : EventKind

abbrev pub status_value : PhaseStatus → String
status_value ok = "ok"
status_value fail = "fail"
status_value skip = "skip"
status_value cancelled = "cancelled"

module _ {F : Type 0} where
  -- `if x is not None: out[key] = x`, for a new key.
  abbrev pub optional : {A : Type 0} → String → (A → Value F) → Option A → Dict (Value F)
  optional key make none = []
  optional key make (some a) = (key, make a) ∷ []

  abbrev pub entries_of : Dict F → Entries F
  entries_of [] = end
  entries_of ((k, x) ∷ metrics) = entry k (real x) (entries_of metrics)

  -- `if event.metrics: out["metrics"] = dict(event.metrics)`
  abbrev pub metrics_entry : Option (Dict F) → Dict (Value F)
  metrics_entry none = []
  metrics_entry (some []) = []
  metrics_entry (some (e ∷ metrics)) = ("metrics", mapping (entries_of (e ∷ metrics))) ∷ []

  unfoldable pub event_to_dict : ProgressEvent F → Dict (Value F)
  event_to_dict (phase_begin e) =
      ("kind", str "phase_begin")
        ∷ ("path", str e.path)
        ∷ ("emitted_at", real e.emitted_at)
        ∷ ("started_at", real e.started_at)
        ∷ optional "total" integer e.total
      ++ optional "unit" str e.unit
      ++ optional "msg" str e.msg
  event_to_dict (phase_progress e) =
      ("kind", str "phase_progress")
        ∷ ("path", str e.path)
        ∷ ("emitted_at", real e.emitted_at)
        ∷ ("current", integer e.current)
        ∷ optional "total" integer e.total
      ++ optional "msg" str e.msg
      ++ metrics_entry e.metrics
  event_to_dict (phase_end e) =
      ("kind", str "phase_end")
        ∷ ("path", str e.path)
        ∷ ("emitted_at", real e.emitted_at)
        ∷ ("status", str (status_value e.status))
        ∷ ("wall_secs", real e.wall_secs)
        ∷ optional "msg" str e.msg
      ++ metrics_entry e.metrics
  event_to_dict (heartbeat e) =
      ("kind", str "heartbeat")
      ∷ ("path", str e.path)
      ∷ ("emitted_at", real e.emitted_at)
      ∷ ("wall_secs", real e.wall_secs)
      ∷ ("since_last_event_secs", real e.since_last_event_secs)
      ∷ optional "msg" str e.msg
