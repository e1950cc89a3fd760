-- ===== src/PerStrategyLedger/Rows.antt =====
-- The two parquet files: what is recorded is read back, in order, and the newest come first.
use strategy_gpt.Prelude.Sorting.{
  sorted_desc, IsWeakOrder, IsDescending, sorted_desc-perm, sorted_desc-IsDescending,
  sorted_desc-filter, sorted_desc-map, All-take, All-sorted_desc,
}
use strategy_gpt.Prelude.{
  ◌≡◌, ◌++◌, ◌∷◌, [], String, ap, refl, inr, inl, arith, ◌⊎◌, ltb, some, ◌≢◌, Bool, ℕ, Bool-cases,
  ◌==◌, ◌∙◌, none, Option, List, map, take, filter, take-map, All,
}
use strategy_gpt.Prelude.Result.{Result, ok, ◌>>=◌, Result-cases, raise, value_error}
use mathlib.Core.List.{Perm, map-append, map-map}
use text.Mathlib.Text.{◌==◌ as ◌==str◌}
use text.Mathlib.TextEquality.{eq_iff}
use strategy_gpt.PerStrategyLedger.{DecisionRecordV2}
use strategy_gpt.PerStrategyLedger.Store.{
  PerStrategyLedger, parse_all, Codec, decisions_iter, record_decision, recent_decisions,
  append_parquet, hypotheses_iter, decision_row, ensure_utc, read_rows, DecisionRow, newest,
  decided_before,
}

module _ {A : Type 0} (parse : String → Result A) where
  parse_all-append :
      (texts : List String) (xs : List A) (text : String) (x : A)
      → parse_all parse texts ≡ ok xs
      → parse text ≡ ok x
      → parse_all parse (texts ++ text ∷ []) ≡ ok (xs ++ x ∷ [])
  unfolding parse_all
  parse_all-append [] xs text x h k = rw k (ap (λ l. l >>= λ ys. ok (ys ++ x ∷ [])) h)
  parse_all-append (t ∷ texts) xs text x h k = elim (Result-cases (parse t)) [
    | inr (e, p) ↦ absurd (ground (arith, p))
    | inl (y, p) ↦ elim (Result-cases (parse_all parse texts)) [
      | inr (e, q) ↦ absurd (ground (arith, p, q))
      | inl (ys, q) ↦ rw (p, parse_all-append texts ys text x q k) (ground (arith, p, q))
    ]
  ]

  parse_all-map :
      (dump : A → String) (rs : List A)
      → All (λ r. parse (dump r) ≡ ok r) rs
      → parse_all parse (map dump rs) ≡ ok rs
  unfolding parse_all
  parse_all-map dump [] h = refl
  parse_all-map dump (r ∷ rs) h = rw (h.0, parse_all-map dump rs h.1) refl

module _ {R A : Type 0} (parse : String → Result A) (text_of : R → String) where
  read_rows-append :
      (rows : Option (List R)) (row : R) (old : List A) (x : A)
      → read_rows parse text_of rows ≡ ok old
      → parse (text_of row) ≡ ok x
      → read_rows parse text_of (append_parquet rows row) ≡ ok (old ++ x ∷ [])
  unfolding read_rows parse_all
  read_rows-append none row old x h k = rw k (ground (arith, h))
  read_rows-append (some rows) row old x h k =
      ap (parse_all parse) (map-append text_of rows (row ∷ []))
      ∙ parse_all-append parse (map text_of rows) old (text_of row) x h k

module _ {F : Type 0} (codec : Codec F) where
  -- pydantic reads the record back from the text that it has made of it.
  abbrev pub IsReadBack : DecisionRecordV2 → Type 0
  IsReadBack r = codec.parse_decision (codec.dump_decision r) ≡ ok r

  -- An append-only log: a record of this strategy is the new last one, a record of another raises,
  -- and neither changes the rest.
  pub record_decision_lem :
      (r : DecisionRecordV2) (ledger : PerStrategyLedger) (old : List DecisionRecordV2)
      → IsReadBack r
      → decisions_iter codec ledger ≡ ok old
      → let (result, after) = record_decision codec r ledger in
        ((r.strategy ≡ ledger.strategy)
          × (result ≡ ok tt)
          × (decisions_iter codec after ≡ ok (old ++ r ∷ []))
          × (hypotheses_iter codec after ≡ hypotheses_iter codec ledger))
        ⊎ ((r.strategy ≢ ledger.strategy) × (result ≡ raise value_error) × (after ≡ ledger))
  unfolding record_decision decisions_iter hypotheses_iter
  record_decision_lem r ledger old back h = elim (Bool-cases (r.strategy ==str ledger.strategy)) [
    | inl e ↦ rw e (
        inl (
          (eq_iff _ _).0 e,
          refl,
          read_rows-append _ _ ledger.decisions (decision_row codec r) old r h back,
          refl,
        ))
    | inr e ↦ rw e (inr ((λ q. absurd (ground (arith, e, (eq_iff _ _).1 q))), refl, refl))
  ]

  abbrev pub older : DecisionRecordV2 → DecisionRecordV2 → Bool
  older r s = ltb (ensure_utc r.decided_at) (ensure_utc s.decided_at)

  older-IsWeakOrder : IsWeakOrder older
  older-IsWeakOrder = record { asymm = λ r s h. ground arith; cotrans = λ r s t h k. ground arith }

  texts-newest :
      (limit : ℕ) (rs : List DecisionRecordV2)
      → map (λ (r : DecisionRow). r.record_json) (newest codec limit (map (decision_row codec) rs))
        ≡ map codec.dump_decision (take limit (sorted_desc older rs))
  texts-newest limit rs =
      ap (λ rows. map (λ (r : DecisionRow). r.record_json) (take limit rows))
        (sorted_desc-map (decided_before codec) (decision_row codec) rs)
      ∙ ap (map (λ (r : DecisionRow). r.record_json))
          (take-map limit (sorted_desc older rs) (decision_row codec))
      ∙ map-map (λ (r : DecisionRow). r.record_json) (decision_row codec) _

  -- The newest records, as many as asked for, of all in descending order of time; records of the
  -- same time keep the order in which they were recorded.
  pub recent_decisions_lem :
      (limit : ℕ) (ledger : PerStrategyLedger) (rs : List DecisionRecordV2)
      → All IsReadBack rs
      → ledger.decisions ≡ some (map (decision_row codec) rs)
      → (all : List DecisionRecordV2) × (recent_decisions codec limit ledger ≡ ok (take limit all))
        × Perm all rs
        × IsDescending older all
        × ((t : ℕ)
            → let at = λ (r : DecisionRecordV2). ensure_utc r.decided_at == t in
              filter at all ≡ filter at rs)
  unfolding recent_decisions read_rows
  recent_decisions_lem limit ledger rs back h = (
    sorted_desc older rs,
    simp h (
        ap (parse_all codec.parse_decision) (texts-newest limit rs)
        ∙ parse_all-map codec.parse_decision codec.dump_decision (take limit (sorted_desc older rs))
            (All-take older IsReadBack limit (sorted_desc older rs)
              (All-sorted_desc older older-IsWeakOrder IsReadBack rs back))),
    sorted_desc-perm older rs,
    sorted_desc-IsDescending older older-IsWeakOrder rs,
    λ t. sorted_desc-filter older _ rs (λ a b p q. ground arith),
  )
