-- ===== src/PerStrategyLedger/Baseline.antt =====
-- The cached baseline: what is computed on a miss, and what the next call finds.
use strategy_gpt.Prelude.{
  String, ◌≡◌, Bool, Option, none, some, ◌⊎◌, inl, true, refl, false, inr, ◌∙◌, ap, if◌then◌else◌,
  Bool-cases, sym, if_true, if_false,
}
use strategy_gpt.Prelude.Result.{Result, ok, ◌>>=◌}
use strategy_gpt.Prelude.Dict.{Dict, lookup}
use strategy_gpt.PerStrategyLedger.Store.{
  PerStrategyLedger, read_baseline, baseline_best_for, setdefault, missed, is_for, write_baseline,
}

module _ {J : Type 0} (dumps : Dict J → Result String) (loads : String → Result (Dict J))
    (is_text : String → J → Bool) (text : String → J) where
  -- No baseline is cached, or one for another dataset.
  abbrev pub IsMiss : String → PerStrategyLedger → Type 0
  IsMiss hash ledger =
      (read_baseline dumps loads is_text text ledger ≡ ok none)
      ⊎ ((c : Dict J) × (read_baseline dumps loads is_text text ledger ≡ ok (some c))
          × (is_for dumps loads is_text text hash c ≡ false))

  abbrev call :
      String → Option (Result (Dict J)) → PerStrategyLedger → Result (Dict J) × PerStrategyLedger
  call = baseline_best_for dumps loads is_text text

  missed-IsMiss :
      (hash : String) (compute : Option (Result (Dict J))) (ledger : PerStrategyLedger)
      → IsMiss hash ledger
      → call hash compute ledger ≡ missed dumps loads is_text text hash compute ledger
  unfolding baseline_best_for
  missed-IsMiss hash compute ledger (inl h) = rw h refl
  missed-IsMiss hash compute ledger (inr (c, h, e)) = rw (h, e) refl

  hit-is_for :
      (hash : String) (compute : Option (Result (Dict J))) (ledger : PerStrategyLedger) (c : Dict J)
      → read_baseline dumps loads is_text text ledger ≡ ok (some c)
      → is_for dumps loads is_text text hash c ≡ true
      → call hash compute ledger ≡ (ok c, ledger)
  unfolding baseline_best_for
  hit-is_for hash compute ledger c h e = rw (h, e) refl

  is_for_cong :
      (hash : String) (p q : Dict J)
      → lookup "dataset_manifest_hash" q ≡ lookup "dataset_manifest_hash" p
      → is_for dumps loads is_text text hash q ≡ is_for dumps loads is_text text hash p
  is_for_cong hash p q e = rw (e, is_for) refl

  read-write :
      (p back : Dict J) (content : String) (ledger : PerStrategyLedger)
      → dumps p ≡ ok content
      → loads content ≡ ok back
      → (after : PerStrategyLedger) × (write_baseline dumps loads is_text text p ledger
          ≡ (ok tt, after))
        × (read_baseline dumps loads is_text text after ≡ ok (some back))
  unfolding read_baseline write_baseline
  read-write p back content ledger h loaded = (
    record ledger { baseline_best = some content },
    rw (h, write_baseline) refl,
    rw (loaded, read_baseline) refl,
  )

  -- A computed payload, with the manifest's hash if it had none.
  abbrev pub fresh_of : String → Dict J → Dict J
  fresh_of hash payload =
      setdefault dumps loads is_text text "dataset_manifest_hash" (text hash) payload

  -- On a miss the computed payload is returned, with the manifest's hash if it had none, and
  -- cached. Where the JSON that is written reads back with the same hash, the next call returns
  -- what is cached, without computing, if that names this manifest; if it names another, the next
  -- call is a miss again.
  pub baseline_best_for_again :
      (hash : String) (payload back : Dict J) (content : String) (ledger : PerStrategyLedger)
      (second : Option (Result (Dict J)))
      → IsMiss hash ledger
      → dumps (fresh_of hash payload) ≡ ok content
      → loads content ≡ ok back
      → lookup "dataset_manifest_hash" back ≡ lookup "dataset_manifest_hash" (fresh_of hash payload)
      → (after : PerStrategyLedger) × (call hash (some (ok payload)) ledger
          ≡ (ok (fresh_of hash payload), after))
        × (call hash second after ≡ (
            if is_for dumps loads is_text text hash (fresh_of hash payload)
            then (ok back, after)
            else missed dumps loads is_text text hash second after))
  baseline_best_for_again hash payload back content ledger second miss dumped loaded same =
      let fresh = fresh_of hash payload in
      let (after, written, found) = read-write fresh back content ledger dumped loaded in
      let alike = is_for_cong hash fresh back same in
      (
        after,
        missed-IsMiss hash (some (ok payload)) ledger miss
            ∙ ap (λ (r : Result (Unit {0}) × PerStrategyLedger). (r.0 >>= λ _. ok fresh, r.1))
                written,
        elim (Bool-cases (is_for dumps loads is_text text hash fresh)) [
          | inl e ↦ hit-is_for hash second after back found (alike ∙ e) ∙ sym (if_true _ _ e)
          | inr e ↦
              missed-IsMiss hash second after (inr (back, found, alike ∙ e)) ∙ sym (if_false _ _ e)
        ],
      )
