-- ===== src/RejectTaxonomy/Laws.antt =====
-- The wire strings decode to the kinds that they came from, and the two predicates are those of the
-- decoded kind.
use text.Mathlib.Text.{◌==◌}
use text.Mathlib.TextEquality.{eq_iff}
use strategy_gpt.Prelude.{
  String, ◌≡◌, ◌↔◌, inl, inr, List, [], ◌∷◌, Option-cases, Bool-cases, refl, Bool, true, some,
  arith,
}
use strategy_gpt.RejectTaxonomy.{
  RejectKind, ok, reject_format, reject_build, reject_lint, reject_schema, reject_smoke,
  reject_noise, reject_variance, reject_verdict, reject_deps, exhausted_repair_budget, value,
  members, find_value, of_value, in_repairable, in_mechanical, holds_of, is_mechanical,
  is_repairable,
}

of_value-value : (k : RejectKind) → of_value (value k) ≡ some k
unfolding of_value
of_value-value ok = refl
of_value-value reject_format = refl
of_value-value reject_build = refl
of_value-value reject_lint = refl
of_value-value reject_schema = refl
of_value-value reject_smoke = refl
of_value-value reject_noise = refl
of_value-value reject_variance = refl
of_value-value reject_verdict = refl
of_value-value reject_deps = refl
of_value-value exhausted_repair_budget = refl

value-find_value :
    (s : String) (k : RejectKind) (ks : List RejectKind) → find_value s ks ≡ some k → value k ≡ s
unfolding find_value
value-find_value s k [] h = cc
value-find_value s k (j ∷ ks) h = elim (Bool-cases (value j == s)) [
  | inl t ↦ ground (arith, (eq_iff (value j) s).0 t)
  | inr f ↦ value-find_value s k ks (rw f at h)
]

value-of_value : (s : String) (k : RejectKind) → of_value s ≡ some k → value k ≡ s
unfolding of_value
value-of_value s k = unfold of_value in value-find_value s k members

-- The lookup of a string returns a kind exactly when the string is the wire string of that kind.
pub of_value_iff : (s : String) (k : RejectKind) → (of_value s ≡ some k) ↔ (value k ≡ s)
of_value_iff s k = (value-of_value s k, λ e. rw (← e) (of_value-value k))

member_iff :
    (member : RejectKind → Bool) (s : String)
    → (holds_of member (of_value s) ≡ true) ↔ ((k : RejectKind) × (value k ≡ s) × (member k ≡ true))
member_iff member s = (found, λ (k, e, m). rw (← e) (rw (of_value-value k) m))
  where
    found :
        holds_of member (of_value s) ≡ true → (k : RejectKind) × (value k ≡ s) × (member k ≡ true)
    found h = elim (Option-cases (of_value s)) [
      | inl e ↦ absurd (ground arith)
      | inr (k, e) ↦ (k, value-of_value s k e, ground arith)
    ]

-- A string may be retried by the repair loop exactly when it is the wire string of a member of
-- `_REPAIRABLE`; it is a failure of code emission exactly when it is one of a member of
-- `_MECHANICAL`. No other string, known or unknown, is either.
pub predicates_iff :
    (s : String)
    → ((is_repairable s ≡ true) ↔ ((k : RejectKind) × (value k ≡ s) × (in_repairable k ≡ true)))
      × ((is_mechanical s ≡ true) ↔ ((k : RejectKind) × (value k ≡ s) × (in_mechanical k ≡ true)))
unfolding is_repairable is_mechanical
predicates_iff s = (member_iff in_repairable s, member_iff in_mechanical s)
