-- ===== src/PerStrategyLedger/Store.antt =====
-- python/strategy_gpt/per_strategy_ledger.py: the class `PerStrategyLedger`. The folder of one
-- strategy is a record of its files; pydantic, `json`, BLAKE2b and the order of
-- paths are arguments. Paths in a source set are relative, normalised, and none is a folder of another.
use Prim.Native.String.{◌++◌ as ◌<>◌, compare}
use mathlib.Core.Option
use text.Mathlib.Text.{◌==◌, is_lt}
use strategy_gpt.Prelude.Dict.{lookup, assign, Dict}
use strategy_gpt.Prelude.{
  ltb, some, ◌∷◌, if◌then◌else◌, [], none, ◌++◌, map, false, take, String, Option, Bool, ℕ, List,
}
use strategy_gpt.Prelude.Sorting.{sorted_desc}
use strategy_gpt.Prelude.Result.{Result, ok, raise, ◌>>=◌, key_error, value_error, os_error}
use strategy_gpt.PerStrategyLedger.{HypothesisRecordV2, Datetime, DecisionRecordV2, naive, aware}

-- One row of `hypothesis_records.parquet`.
pub record HypothesisRow : Type 0 where
  pub id : String
  pub strategy : String
  pub candidate_name : String
  pub baseline_files_hash : String
  pub created_at : ℕ
  pub record_json : String

-- One row of `decision_records.parquet`.
pub record DecisionRow : Type 0 where
  pub id : String
  pub hypothesis_id : String
  pub strategy : String
  pub kind : String
  pub stage : String
  pub decided_at : ℕ
  pub record_json : String

-- A missing file is `none`. `sources` has a folder for each hash, `responses` one for each decision.
pub record PerStrategyLedger : Type 0 where
  pub strategy : String
  pub hypotheses : Option (List HypothesisRow)
  pub decisions : Option (List DecisionRow)
  pub baseline_best : Option String
  pub sources : Dict (Dict String)
  pub responses : Dict (Dict String)

-- A time without a zone counts as UTC.
abbrev pub ensure_utc : Datetime → ℕ
ensure_utc (naive t) = t
ensure_utc (aware t) = t

-- Read, concatenate and write again; or write a new file.
abbrev pub append_parquet {ℓ} : {A : Type ℓ} → Option (List A) → A → Option (List A)
append_parquet none row = some (row ∷ [])
append_parquet (some rows) row = some (rows ++ row ∷ [])

-- Every row's text, parsed; the first failure raises.
unfoldable pub parse_all : {A : Type 0} → (String → Result A) → List String → Result (List A)
parse_all parse [] = ok []
parse_all parse (text ∷ texts) = parse text >>= λ x. parse_all parse texts >>= λ xs. ok (x ∷ xs)

-- The texts of a file's rows, parsed; a missing file has none.
unfoldable pub read_rows :
    {R A : Type 0} → (String → Result A) → (R → String) → Option (List R) → Result (List A)
unfolding parse_all
read_rows parse text_of none = ok []
read_rows parse text_of (some rows) = parse_all parse (map text_of rows)

-- `outcome.stage or ""`
abbrev pub stage_or_empty : Option String → String
stage_or_empty none = ""
stage_or_empty (some stage) = stage

-- pydantic's `model_dump_json` and `model_validate_json`.
pub record Codec (F : Type 0) : Type 0 where
  pub dump_hypothesis : HypothesisRecordV2 F → String
  pub parse_hypothesis : String → Result (HypothesisRecordV2 F)
  pub dump_decision : DecisionRecordV2 → String
  pub parse_decision : String → Result DecisionRecordV2

module _ {F : Type 0} (codec : Codec F) where
  abbrev pub hypothesis_row : HypothesisRecordV2 F → HypothesisRow
  hypothesis_row r = record {
    id = r.id;
    strategy = r.strategy;
    candidate_name = r.candidate_name;
    baseline_files_hash = r.baseline_files_hash;
    created_at = ensure_utc r.created_at;
    record_json = codec.dump_hypothesis r;
  }

  abbrev pub decision_row : DecisionRecordV2 → DecisionRow
  decision_row r = record {
    id = r.id;
    hypothesis_id = r.hypothesis_id;
    strategy = r.strategy;
    kind = r.outcome.kind;
    stage = stage_or_empty r.outcome.stage;
    decided_at = ensure_utc r.decided_at;
    record_json = codec.dump_decision r;
  }

  unfoldable pub record_hypothesis :
      HypothesisRecordV2 F → PerStrategyLedger → Result (Unit {0}) × PerStrategyLedger
  record_hypothesis r ledger =
      if r.strategy == ledger.strategy
      then (
        ok tt,
        record ledger { hypotheses = append_parquet ledger.hypotheses (hypothesis_row r) },
      )
      else (raise value_error, ledger)

  unfoldable pub record_decision :
      DecisionRecordV2 → PerStrategyLedger → Result (Unit {0}) × PerStrategyLedger
  record_decision r ledger =
      if r.strategy == ledger.strategy
      then (ok tt, record ledger { decisions = append_parquet ledger.decisions (decision_row r) })
      else (raise value_error, ledger)

  -- The iterators, run to their end.
  unfoldable pub hypotheses_iter : PerStrategyLedger → Result (List (HypothesisRecordV2 F))
  unfolding read_rows
  hypotheses_iter ledger =
      read_rows codec.parse_hypothesis (λ (r : HypothesisRow). r.record_json) ledger.hypotheses

  unfoldable pub decisions_iter : PerStrategyLedger → Result (List DecisionRecordV2)
  unfolding read_rows
  decisions_iter ledger =
      read_rows codec.parse_decision (λ (r : DecisionRow). r.record_json) ledger.decisions

  abbrev pub decided_before : DecisionRow → DecisionRow → Bool
  decided_before r s = ltb r.decided_at s.decided_at

  -- `sort_by` is stable.
  abbrev pub newest : ℕ → List DecisionRow → List DecisionRow
  newest limit rows = take limit (sorted_desc decided_before rows)

  unfoldable pub recent_decisions : ℕ → PerStrategyLedger → Result (List DecisionRecordV2)
  unfolding read_rows
  recent_decisions limit ledger =
      read_rows codec.parse_decision (λ (r : DecisionRow). r.record_json)
        (Option.map (newest limit) ledger.decisions)

-- The baseline cache. A payload is a `dict` of values `J` that JSON can express.
module _ {J : Type 0} (dumps : Dict J → Result String) (loads : String → Result (Dict J))
    (is_text : String → J → Bool) (text : String → J) where
  unfoldable pub read_baseline : PerStrategyLedger → Result (Option (Dict J))
  read_baseline ledger = elim ledger.baseline_best [
    | none ↦ ok none
    | some content ↦ loads content >>= λ payload. ok (some payload)
  ]

  unfoldable pub write_baseline : Dict J → PerStrategyLedger → Result (Unit {0}) × PerStrategyLedger
  write_baseline payload ledger = elim (dumps payload) [
    | ok content ↦ (ok tt, record ledger { baseline_best = some content })
    | raise e ↦ (raise e, ledger)
  ]

  -- `payload.get("dataset_manifest_hash") == dataset_manifest_hash`
  abbrev pub is_for : String → Dict J → Bool
  is_for dataset_manifest_hash payload = elim (lookup "dataset_manifest_hash" payload) [
    | none ↦ false
    | some value ↦ is_text dataset_manifest_hash value
  ]

  -- `payload.setdefault(key, value)`
  abbrev pub setdefault : String → J → Dict J → Dict J
  setdefault key value payload = elim (lookup key payload) [
    | none ↦ assign key value payload
    | some old ↦ payload
  ]

  abbrev pub computed :
      String → Result (Dict J) → PerStrategyLedger → Result (Dict J) × PerStrategyLedger
  computed dataset_manifest_hash (raise e) ledger = (raise e, ledger)
  computed dataset_manifest_hash (ok payload) ledger =
      let fresh = setdefault "dataset_manifest_hash" (text dataset_manifest_hash) payload in
      let (written, after) = write_baseline fresh ledger in (written >>= λ _. ok fresh, after)

  -- On a miss: compute, if there is something to call.
  abbrev pub missed :
      String → Option (Result (Dict J)) → PerStrategyLedger → Result (Dict J) × PerStrategyLedger
  missed dataset_manifest_hash none ledger = (raise key_error, ledger)
  missed dataset_manifest_hash (some result) ledger = computed dataset_manifest_hash result ledger

  abbrev pub cached_or :
      String
      → Result (Dict J) × PerStrategyLedger
      → PerStrategyLedger
      → Result (Option (Dict J))
      → Result (Dict J) × PerStrategyLedger
  cached_or dataset_manifest_hash miss ledger (raise e) = (raise e, ledger)
  cached_or dataset_manifest_hash miss ledger (ok none) = miss
  cached_or dataset_manifest_hash miss ledger (ok (some cached)) =
      if is_for dataset_manifest_hash cached then (ok cached, ledger) else miss

  -- The method `baseline_best`; `compute_on_miss` is given by what it returns or raises.
  unfoldable pub baseline_best_for :
      String → Option (Result (Dict J)) → PerStrategyLedger → Result (Dict J) × PerStrategyLedger
  unfolding read_baseline write_baseline
  baseline_best_for dataset_manifest_hash compute_on_miss ledger =
      cached_or dataset_manifest_hash (missed dataset_manifest_hash compute_on_miss ledger) ledger
        (read_baseline ledger)

module _ (blake2 : String → String) (path_order : String → String → Bool) where
  -- `sorted(root.rglob("*"))`; `path_order` compares paths by their parts.
  abbrev pub sorted_paths : Dict String → Dict String
  sorted_paths = sorted_desc (λ (a b : String × String). path_order b.0 a.0)

  -- `sorted(files.keys())`, with the contents.
  abbrev pub sorted_files : Dict String → Dict String
  sorted_files = sorted_desc (λ (a b : String × String). is_lt (compare b.0 a.0))

  -- The bytes that the hasher is fed.
  unfoldable pub hashed_text : Dict String → String
  hashed_text [] = ""
  hashed_text ((path, content) ∷ files) = path <> "\0" <> content <> "\0" <> hashed_text files

  unfoldable pub canonical_files_set_hash : Dict String → String
  unfolding hashed_text
  canonical_files_set_hash files = blake2 (hashed_text (sorted_files files))

  -- `if target.exists(): return`, else the files are written.
  abbrev pub store_set :
      String → Dict String → PerStrategyLedger → Option (Dict String) → PerStrategyLedger
  store_set digest files ledger (some kept) = ledger
  store_set digest files ledger none = record ledger {
    sources = assign digest files ledger.sources;
  }

  unfoldable pub write_source_set : Dict String → PerStrategyLedger → String × PerStrategyLedger
  write_source_set files ledger =
      let digest = canonical_files_set_hash files in
      (digest, store_set digest files ledger (lookup digest ledger.sources))

  -- `path.read_text` turns CR and CRLF into LF, which is `newlines`. `write_text` writes a text as it
  -- is on POSIX.
  abbrev pub read_texts : (newlines : String → String) → Dict String → Dict String
  read_texts newlines = map (λ (e : String × String). (e.0, newlines e.1))

  abbrev pub files_in : (newlines : String → String) → Option (Dict String) → Result (Dict String)
  files_in newlines none = raise os_error
  files_in newlines (some files) = ok (read_texts newlines (sorted_paths files))

  unfoldable pub read_source_set :
      (newlines : String → String) → String → PerStrategyLedger → Result (Dict String)
  read_source_set newlines digest ledger = files_in newlines (lookup digest ledger.sources)

  -- The files of a folder, none if it is missing.
  abbrev pub blobs_in : Option (Dict String) → Dict String
  blobs_in none = []
  blobs_in (some blobs) = blobs

  -- `response_dir`, by the files in it.
  abbrev pub response_dir : String → PerStrategyLedger → Dict String
  response_dir decision_id ledger = blobs_in (lookup decision_id ledger.responses)

  unfoldable pub write_response_blob :
      String → String → String → PerStrategyLedger → String × PerStrategyLedger
  write_response_blob decision_id stage content ledger = (
    blake2 content,
    record ledger {
      responses =
          assign decision_id (assign stage content (response_dir decision_id ledger))
            ledger.responses;
    },
  )

  abbrev pub content_of : (newlines : String → String) → Option String → Result String
  content_of newlines none = raise os_error
  content_of newlines (some content) = ok (newlines content)

  unfoldable pub read_response_blob :
      (newlines : String → String) → String → String → PerStrategyLedger → Result String
  read_response_blob newlines decision_id stage ledger =
      content_of newlines (lookup stage (response_dir decision_id ledger))
