-- ===== src/RejectTaxonomy.antt =====
-- python/strategy_gpt/reject_taxonomy.py: the reject kinds, their wire strings, and the two
-- predicates that the repair loop and the ledger read. The rationale builders are text, and are
-- left out.
pub mod Laws
mod Examples
use text.Mathlib.Text.{◌==◌}
use strategy_gpt.Prelude.{
  String, Bool, true, false, Option, none, some, List, [], ◌∷◌, if◌then◌else◌,
}

pub data RejectKind : Type 0 where
  ok reject_format reject_build reject_lint reject_schema reject_smoke : RejectKind
  reject_noise reject_variance reject_verdict reject_deps exhausted_repair_budget : RejectKind

-- `kind.value`
unfoldable pub value : RejectKind → String
value ok = "ok"
value reject_format = "reject_format"
value reject_build = "reject_build"
value reject_lint = "reject_lint"
value reject_schema = "reject_schema"
value reject_smoke = "reject_smoke"
value reject_noise = "reject_noise"
value reject_variance = "reject_variance"
value reject_verdict = "reject_verdict"
value reject_deps = "reject_deps"
value exhausted_repair_budget = "exhausted_repair_budget"

abbrev members : List RejectKind
members =
    ok ∷ reject_format ∷ reject_build ∷ reject_lint ∷ reject_schema ∷ reject_smoke ∷ reject_noise
    ∷ reject_variance ∷ reject_verdict ∷ reject_deps ∷ exhausted_repair_budget ∷ []

find_value : String → List RejectKind → Option RejectKind
find_value s [] = none
find_value s (k ∷ ks) = if value k == s then some k else find_value s ks

-- `RejectKind(s)`; `none` is the `ValueError`. The members are tried in their order.
unfoldable pub of_value : String → Option RejectKind
unfolding value find_value
of_value s = find_value s members

-- `kind in _REPAIRABLE`
unfoldable pub in_repairable : RejectKind → Bool
in_repairable reject_format = true
in_repairable reject_build = true
in_repairable reject_lint = true
in_repairable reject_schema = true
in_repairable reject_smoke = true
in_repairable reject_deps = true
in_repairable _ = false

-- `kind in _MECHANICAL`
unfoldable pub in_mechanical : RejectKind → Bool
in_mechanical reject_format = true
in_mechanical reject_build = true
in_mechanical reject_lint = true
in_mechanical reject_deps = true
in_mechanical exhausted_repair_budget = true
in_mechanical _ = false

abbrev holds_of : (RejectKind → Bool) → Option RejectKind → Bool
holds_of member none = false
holds_of member (some k) = member k

-- A `RejectKind` is itself a string, so both functions take the string and look it up.
unfoldable pub is_mechanical : String → Bool
unfolding of_value in_mechanical
is_mechanical kind = holds_of in_mechanical (of_value kind)

unfoldable pub is_repairable : String → Bool
unfolding of_value in_repairable
is_repairable kind = holds_of in_repairable (of_value kind)
