-- ===== src/MarketData/Validation.antt =====
-- services/market_data/validation.py: the problems of a record, and the split of a batch.
pub mod Valid
use Prim.Native.String.{String}
use agnostix_ai_quant_fund.Prelude.{
  ℕ, zero, suc, ◌+◌, Bool, true, false, not, ◌&&◌, ◌||◌, Option, none, some, List, [], ◌∷◌, ◌++◌,
  ltb, if◌then◌else◌,
}
use agnostix_ai_quant_fund.Prelude.Text.{str_eq, lower, strip, starts_with}
use agnostix_ai_quant_fund.Number.{Float, nought, max_float, min_float}
use agnostix_ai_quant_fund.MarketData.{Bar, Quote, Trade, NewsArticle}

-- `CLOCK_SKEW_TOLERANCE_SECONDS`, in microseconds
abbrev pub skew_tolerance : ℕ
skew_tolerance = 300_000_000

-- `if bad: problems.append(problem)`
unfoldable pub report : Bool → String → List String → List String
report bad problem problems = if bad then problems ++ (problem ∷ []) else problems

-- `_future_check`
pub future_check : ℕ → ℕ → String → List String → List String
future_check now event_time label problems =
    report (ltb (now + skew_tolerance) event_time) label problems

module _ {W : Type 0} ⦃num : Float W⦄ where
  pub validate_bar : ℕ → Bar W → List String
  validate_bar now b = future_check now b.event_time "bar: event_time in the future" (
      report (num.le b.close nought) "bar: non-positive close" (
        report (num.lt b.volume nought) "bar: negative volume" (
          report (num.lt (min_float b.open_price b.close) b.low) "bar: low > min(open, close)" (
            report (num.lt b.high (max_float b.open_price b.close)) "bar: high < max(open, close)"
              (report (num.lt b.high b.low) "bar: high < low" [])))))

  -- the tests on a bid and an ask that are both there
  abbrev book_problems : Option W → Option W → List String
  book_problems (some bid) (some ask) =
      if num.le bid nought || num.le ask nought
      then "quote: non-positive bid/ask price" ∷ []
      else report (num.lt ask bid) "quote: crossed book (bid > ask)" []
  book_problems _ _ = []

  pub validate_quote : ℕ → Quote W → List String
  validate_quote now q =
      future_check now q.event_time "quote: event_time in the future"
        (book_problems q.bid_price q.ask_price)

  pub validate_trade : ℕ → Trade W → List String
  validate_trade now t = future_check now t.event_time "trade: event_time in the future" (
      report (num.le t.size nought) "trade: non-positive size"
        (report (num.le t.price nought) "trade: non-positive price" []))

-- a URL that is there has another scheme
abbrev foreign_scheme : Option String → Bool
foreign_scheme none = false
foreign_scheme (some url) =
    not (starts_with (lower url) "http://" || starts_with (lower url) "https://")

pub validate_news : ℕ → NewsArticle ℕ → List String
validate_news now n = future_check now n.published_at "news: event_time in the future" (
    report (foreign_scheme n.url) "news: url scheme must be http/https"
      (report (str_eq (strip n.headline) "") "news: empty headline" []))

abbrev has_problems : List String → Bool
has_problems [] = false
has_problems (p ∷ ps) = true

module _ {ℓ} {A : Type ℓ} (validator : A → List String) where
  -- the loop of `validate_batch`, from the index `i` on
  validate_from : ℕ → List A → List A × List (ℕ × List String)
  validate_from i [] = ([], [])
  validate_from i (item ∷ items) =
      let (valid, invalid) = validate_from (suc i) items in
      if has_problems (validator item)
      then (valid, (i, validator item) ∷ invalid)
      else (item ∷ valid, invalid)

  pub validate_batch : List A → List A × List (ℕ × List String)
  validate_batch items = validate_from 0 items
