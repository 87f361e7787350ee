-- ===== src/Options/Iv/Tests.antt =====
-- Runs of the ranks (services/options/iv.py) over whole millionths.
use agnostix_ai_quant_fund.Prelude.{◌≡◌, refl, some, List, [], ◌∷◌}
use agnostix_ai_quant_fund.Prelude.Int.{ℤ, pos}
use agnostix_ai_quant_fund.Number.{◌≼◌, nought, one}
use agnostix_ai_quant_fund.Number.Micro.{micro}
use agnostix_ai_quant_fund.Options.Iv.{iv_rank, iv_percentile}

abbrev year : List ℤ
year = pos 200_000 ∷ pos 0 ∷ pos 300_000 ∷ pos 400_000 ∷ []

ranked : iv_rank (some (pos 250_000)) (some year) ≡ some (pos 250_000)
unfolding iv_rank agnostix_ai_quant_fund.Options.Iv.rank_in
    agnostix_ai_quant_fund.Options.Iv.positives agnostix_ai_quant_fund.Options.Iv.max_from
    agnostix_ai_quant_fund.Number.max_float agnostix_ai_quant_fund.Options.Iv.min_from
    agnostix_ai_quant_fund.Number.min_float
ranked = refl

counted : iv_percentile (some (pos 250_000)) (some year) ≡ some (pos 333_333)
unfolding iv_percentile agnostix_ai_quant_fund.Options.Iv.percentile_in
    agnostix_ai_quant_fund.Options.Iv.positives
counted = refl
