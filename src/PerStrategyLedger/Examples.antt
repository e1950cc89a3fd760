-- ===== src/PerStrategyLedger/Examples.antt =====
-- Tests of the per-strategy ledger, and its theorems at concrete inputs.
use strategy_gpt.PerStrategyLedger.Rows.{record_decision_lem, older, recent_decisions_lem}
use strategy_gpt.Prelude.Int.{ℤ}
use strategy_gpt.PerStrategyLedger.Baseline.{fresh_of, baseline_best_for_again}
use strategy_gpt.Prelude.Sorting.{sorted_desc, IsDescending, IsWeakOrder}
use strategy_gpt.Prelude.Result.{ok, Result, raise, value_error}
use strategy_gpt.Json.{null}
use strategy_gpt.PerStrategyLedger.Sources.{
  IsContentAddressed, canonical_files_set_hash_nul, write_source_set_lem, IsInOrder,
}
use strategy_gpt.Prelude.{
  String, none, [], ℕ, Bool, ◌≡◌, ◌∷◌, refl, ◌≢◌, ◌⊎◌, some, if◌then◌else◌, List, Option, map, take,
  inl, filter, ◌&&◌, not, arith,
}
use Prim.Native.String.{◌++◌ as ◌<>◌}
use text.Mathlib.Text.{◌==◌}
use mathlib.Core.List.{Perm}
use strategy_gpt.Prelude.{◌==◌ as ◌==n◌}
use strategy_gpt.Prelude.Dict.{Dict, lookup}
use strategy_gpt.PerStrategyLedger.Store.{
  PerStrategyLedger, canonical_files_set_hash, write_source_set, read_source_set, Codec,
  record_decision, hashed_text, decision_row, decisions_iter, recent_decisions, baseline_best_for,
  is_for, hypotheses_iter, missed, ensure_utc, read_rows, read_baseline, parse_all,
}
use strategy_gpt.PerStrategyLedger.{DecisionRecordV2, aware}

abbrev empty : PerStrategyLedger
empty = record {
  strategy = "sma";
  hypotheses = none;
  decisions = none;
  baseline_best = none;
  sources = [];
  responses = [];
}

abbrev decided : String → ℕ → DecisionRecordV2
decided id at = record {
  id = id;
  hypothesis_id = "h";
  strategy = "sma";
  outcome = record { kind = "rejected"; stage = none };
  rationale = "";
  evidence = null;
  repair_attempts = [];
  decided_at = aware at;
}

abbrev two_files : Dict String
two_files = ("src/lib.rs", "fn main") ∷ ("Cargo.toml", "name") ∷ []

abbrev own_hash : String → String
own_hash s = s

-- The manifest is before every other path.
abbrev before_path : String → String → Bool
before_path a b = (a == "Cargo.toml") && not (b == "Cargo.toml")

hash_of_two :
    canonical_files_set_hash own_hash before_path two_files
    ≡ "Cargo.toml\0name\0src/lib.rs\0fn main\0"
unfolding canonical_files_set_hash sorted_desc hashed_text
hash_of_two = refl

-- Stands for the translation of newlines: a text with one CR.
abbrev newlines : String → String
newlines s = if s == "a\rb" then "a\nb" else s

before_path-order : IsWeakOrder (λ (a b : String × String). before_path b.0 a.0)
before_path-order = record {
  asymm = λ a b h. ground (arith, h);
  cotrans = λ a b c h k. ground (arith, h, k);
}

write_source_set_lem_example :
    let (digest, after) = write_source_set own_hash before_path two_files empty in
    IsContentAddressed own_hash before_path after
    × (digest ≡ canonical_files_set_hash own_hash before_path two_files)
    × (((back : Dict String) × (lookup digest empty.sources ≡ none)
          × (read_source_set own_hash before_path newlines digest after ≡ ok back)
          × IsInOrder own_hash before_path newlines two_files back)
        ⊎ ((kept : Dict String) × (back : Dict String) × (lookup digest empty.sources ≡ some kept)
            × (after ≡ empty)
            × (canonical_files_set_hash own_hash before_path kept ≡ digest)
            × (read_source_set own_hash before_path newlines digest after ≡ ok back)
            × IsInOrder own_hash before_path newlines kept back))
unfolding lookup
write_source_set_lem_example =
    write_source_set_lem own_hash before_path newlines before_path-order two_files empty
      (λ digest files h. absurd (cc))

canonical_files_set_hash_nul_example :
    canonical_files_set_hash own_hash before_path (("a", "b" <> "\0" <> "c" <> "\0" <> "d") ∷ [])
    ≡ canonical_files_set_hash own_hash before_path (("a", "b") ∷ ("c", "d") ∷ [])
canonical_files_set_hash_nul_example =
    canonical_files_set_hash_nul own_hash before_path "a" "b" "c" "d" refl

-- A codec that knows two decisions, by their identifiers.
abbrev first : DecisionRecordV2
first = decided "d1" 5

abbrev second : DecisionRecordV2
second = decided "d2" 7

abbrev codec : Codec ℤ
codec = record {
  dump_hypothesis = λ r. r.id;
  parse_hypothesis = λ text. raise value_error;
  dump_decision = λ r. r.id;
  parse_decision = λ text.
      if text == "d1" then ok first else if text == "d2" then ok second else raise value_error;
}

abbrev with_first : PerStrategyLedger
with_first = record empty { decisions = some (decision_row codec first ∷ []) }

record_decision_lem_example :
    let (result, after) = record_decision codec second with_first in
    ((second.strategy ≡ with_first.strategy)
      × (result ≡ ok tt)
      × (decisions_iter codec after ≡ ok (first ∷ second ∷ []))
      × (hypotheses_iter codec after ≡ hypotheses_iter codec with_first))
    ⊎ ((second.strategy ≢ with_first.strategy)
        × (result ≡ raise value_error)
        × (after ≡ with_first))
unfolding decisions_iter read_rows parse_all
record_decision_lem_example = record_decision_lem codec second with_first (first ∷ []) refl refl

recent_decisions_lem_example :
    (all : List DecisionRecordV2) × (recent_decisions codec 1
        (record empty { decisions = some (map (decision_row codec) (first ∷ second ∷ [])) })
      ≡ ok (take 1 all))
    × Perm all (first ∷ second ∷ [])
    × IsDescending (older codec) all
    × ((t : ℕ)
        → let at = λ (r : DecisionRecordV2). ensure_utc r.decided_at ==n t in
          filter at all ≡ filter at (first ∷ second ∷ []))
recent_decisions_lem_example =
    recent_decisions_lem codec 1 _ (first ∷ second ∷ []) (refl, (refl, tt)) refl

-- A payload is text by text, and is written as its hash.
abbrev hash_of : Option String → String
hash_of none = ""
hash_of (some hash) = hash

abbrev dumps : Dict String → Result String
dumps payload = ok (hash_of (lookup "dataset_manifest_hash" payload))

abbrev loads : String → Result (Dict String)
loads content = ok (("dataset_manifest_hash", content) ∷ [])

abbrev answer :
    String
    → Option (Result (Dict String))
    → PerStrategyLedger
    → Result (Dict String) × PerStrategyLedger
answer = baseline_best_for dumps loads (λ hash value. hash == value) (λ hash. hash)

-- The computed payload names another dataset: the second call is refused.
baseline_best_for_again_example :
    let fresh =
      fresh_of dumps loads
        (λ hash value. hash == value)
        (λ hash. hash)
        "m1"
        (("dataset_manifest_hash", "m2") ∷ []) in
    (after : PerStrategyLedger) × (answer "m1"
        (some (ok (("dataset_manifest_hash", "m2") ∷ [])))
        empty
      ≡ (ok fresh, after))
    × (answer "m1" none after ≡ (
        if is_for dumps loads (λ hash value. hash == value) (λ hash. hash) "m1" fresh
        then (ok (("dataset_manifest_hash", "m2") ∷ []), after)
        else missed dumps loads (λ hash value. hash == value) (λ hash. hash) "m1" none after))
unfolding read_baseline lookup
baseline_best_for_again_example =
    baseline_best_for_again dumps loads (λ hash value. hash == value) (λ hash. hash) "m1"
      (("dataset_manifest_hash", "m2") ∷ []) (("dataset_manifest_hash", "m2") ∷ []) "m2" empty none
      (inl refl) refl refl refl
