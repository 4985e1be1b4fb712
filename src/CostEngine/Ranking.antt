-- ===== src/CostEngine/Ranking.antt =====
-- costengine/engine.go: which endpoint a batch recommends.
use argis_extensions.Prelude.{◌≡◌, ◌⊎◌, true, false, List}
use argis_extensions.Prelude.Float.{Float64}
use argis_extensions.Prelude.Sort.{count_if}
use argis_extensions.CostEngine.{CostResult, BatchCostResult}
use argis_extensions.CostEngine.Batch.{goes_before, is_allowed}

module _ (F : Float64) where
  -- What a batch recommends: all its results are denied, or the one recommended is allowed and no
  -- result goes before it.
  abbrev pub IsBest : List (CostResult F) → BatchCostResult F → Type 0
  IsBest results batch =
      ((batch.all_denied ≡ true) × (count_if (is_allowed F) results ≡ 0))
      ⊎ ((best : CostResult F) × (batch.all_denied ≡ false)
          × (batch.recommended_id ≡ best.endpoint_id)
          × (best.allowed_for_call ≡ true)
          × (count_if (λ r. goes_before F r best) results ≡ 0))
