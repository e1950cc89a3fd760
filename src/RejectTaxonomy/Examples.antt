-- ===== src/RejectTaxonomy/Examples.antt =====
-- Tests, and the theorems at concrete strings.
use strategy_gpt.Prelude.{◌≡◌, refl, true, false, none}
use strategy_gpt.RejectTaxonomy.{of_value, is_mechanical, is_repairable}

unknown_kind : of_value "reject_other" ≡ none
unfolding of_value
unknown_kind = refl

smoke_is_logic :
    (is_repairable "reject_smoke" ≡ true)
    × (is_mechanical "reject_smoke" ≡ false)
    × (is_repairable "reject_noise" ≡ false)
unfolding is_repairable is_mechanical
smoke_is_logic = (refl, refl, refl)
