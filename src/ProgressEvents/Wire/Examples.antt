-- ===== src/ProgressEvents/Wire/Examples.antt =====
-- Events as dicts at concrete inputs; floats are whole numbers here.
use strategy_gpt.Prelude.{[], ◌∷◌, some, String, ◌≡◌, refl}
use strategy_gpt.Prelude.Dict.{lookup}
use strategy_gpt.Prelude.Int.{ℤ, pos}
use strategy_gpt.Prelude.Result.{Result, raise, value_error, type_error}
use strategy_gpt.ProgressEvents.{ProgressEvent, fail, phase_end}
use strategy_gpt.ProgressEvents.Wire.{
  Value, null, boolean, real, integer, str, array, mapping, Casts, IsCast, event_to_dict,
}
use strategy_gpt.ProgressEvents.Wire.Reading.{event_from_dict, kind_of}
use strategy_gpt.ProgressEvents.Wire.Returns.{as_written, event_from_dict-event_to_dict}

abbrev to_number : Value ℤ → Result ℤ
to_number null = raise type_error
to_number (boolean b) = raise type_error
to_number (integer z) = Result.ok z
to_number (real x) = Result.ok x
to_number (str s) = raise value_error
to_number (array entries) = raise type_error
to_number (mapping entries) = raise type_error

abbrev to_text : Value ℤ → String
to_text null = "None"
to_text (boolean b) = "bool"
to_text (integer z) = "int"
to_text (real x) = "float"
to_text (str s) = s
to_text (array entries) = "list"
to_text (mapping entries) = "dict"

abbrev casts : Casts ℤ
casts = record { zero = pos 0; to_float = to_number; to_int = to_number; to_str = to_text }

abbrev casts_pass : IsCast casts
casts_pass = record { float_real = λ x. refl; int_integer = λ z. refl; str_text = λ s. refl }

abbrev failed_at : String → ProgressEvent ℤ
failed_at path = phase_end (record {
  path = path;
  emitted_at = pos 9;
  status = fail;
  wall_secs = pos 4;
  msg = some "no trades";
  metrics = some (("sharpe", pos 1) ∷ []);
})

event_from_dict-event_to_dict_example :
    event_from_dict casts (event_to_dict (failed_at "optimize.fold_0"))
    ≡ Result.ok (as_written (failed_at "optimize.fold_0"))
event_from_dict-event_to_dict_example =
    event_from_dict-event_to_dict casts casts_pass (failed_at "optimize.fold_0") (λ e. absurd (cc))

without_path : event_from_dict casts (event_to_dict (failed_at "")) ≡ raise value_error
unfolding event_from_dict event_to_dict kind_of lookup
without_path = refl
