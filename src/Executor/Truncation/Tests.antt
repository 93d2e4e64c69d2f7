-- ===== src/Executor/Truncation/Tests.antt =====
-- Runs of the truncation.

-- The limit falls inside the euro sign, which is left out whole.
use secure_openclaw_poc.Common.{◌++◌, List, [], arith, refl, ℕ, ◌∷◌, ◌≡◌}
use secure_openclaw_poc.Executor.Truncation.{encode, truncate_output, truncation_notice}
use secure_openclaw_poc.Executor.Truncation.Whole.{IsCut, truncate_output-IsCut}

euro_is_left_out : truncate_output (97 ∷ 8364 ∷ 98 ∷ []) 3 ≡ 97 ∷ encode truncation_notice
unfolding truncate_output
euro_is_left_out = refl

truncate_output-IsCut_example :
    (kept : List ℕ) × (truncate_output (97 ∷ 8364 ∷ 98 ∷ []) 3 ≡ kept ++ encode truncation_notice)
    × IsCut (97 ∷ 8364 ∷ 98 ∷ []) 3 kept
unfolding encode
truncate_output-IsCut_example =
    truncate_output-IsCut (97 ∷ 8364 ∷ 98 ∷ []) 3 (omega arith) (omega arith)
