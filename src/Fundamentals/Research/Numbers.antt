-- ===== src/Fundamentals/Research/Numbers.antt =====
-- The numbers of services/fundamentals/research/grounding.py: how they are read from a text, and when
-- one counts as grounded in a context. Digits are those of ASCII.
use Prim.Native.Char.{Char, code}
use Prim.Native.String.{String}
use agnostix_ai_quant_fund.Prelude.{
  ℕ, suc, ◌+◌, ◌*◌, ◌-◌, ◌≡◌, refl, Bool, true, false, not, ◌&&◌, ◌||◌, Option, none, some, List,
  [], ◌∷◌, ◌++◌, any, filter, leb, ◌==◌, if◌then◌else◌,
}
use agnostix_ai_quant_fund.Prelude.Int.{ℤ, pos, negsuc}
use agnostix_ai_quant_fund.Prelude.Text.{str_eq}
use agnostix_ai_quant_fund.Prelude.Outcome.{Outcome, returns, raises, ◌>>=◌}
use agnostix_ai_quant_fund.Number.{Float, ◌⊖◌, ◌⊘◌, nought}

-- Python's texts of a float: `f"{x}"`, `f"{x:.nf}"` and `f"{x:,.nf}"`, and `f"{n:,}"` of an int
pub record FloatText (W : Type 0) : Type 0 where
  pub repr : W → String
  pub fixed : ℕ → W → String
  pub grouped : ℕ → W → String
  pub grouped_int : ℤ → String

abbrev is_digit : Char → Bool
is_digit c = leb b'0' (code c) && leb (code c) b'9'

abbrev is_char : ℕ → Char → Bool
is_char n c = code c == n

-- where the matches of `_NUMBER_RE`, `-?\d[\d,]*\.?\d*`, stand: outside one, after a minus or not; in
-- the digits and commas; in the digits after the point
pub data Scan : Type 0 where
  outside : Bool → Scan
  whole : Bool → ℕ → Scan
  fraction : Bool → ℕ → ℕ → Scan

module _ {W : Type 0} ⦃num : Float W⦄ where
  -- `float(x.replace(",", ""))`
  abbrev number_of : Bool → ℕ → ℕ → W
  number_of true m k = num.neg (num.decimal m k)
  number_of false m k = num.decimal m k

  -- one character: the next place, and the number that ends before it
  unfoldable pub scan_char : Scan → Char → Scan × List W
  scan_char (outside minus) c =
      if is_digit c then (whole minus (code c - b'0'), []) else (outside (is_char b'-' c), [])
  scan_char (whole minus m) c =
      if is_digit c
      then (whole minus (10 * m + (code c - b'0')), [])
      else if is_char b',' c
      then (whole minus m, [])
      else if is_char b'.' c
      then (fraction minus m 0, [])
      else (outside (is_char b'-' c), number_of minus m 0 ∷ [])
  scan_char (fraction minus m k) c =
      if is_digit c
      then (fraction minus (10 * m + (code c - b'0')) (suc k), [])
      else (outside (is_char b'-' c), number_of minus m k ∷ [])

  unfoldable pub scan_end : Scan → List W
  scan_end (outside minus) = []
  scan_end (whole minus m) = number_of minus m 0 ∷ []
  scan_end (fraction minus m k) = number_of minus m k ∷ []

  unfoldable pub scan_from : Scan → String → List W
  scan_from place String.[] = scan_end place
  scan_from place (String.◌∷◌ c s) = let r = scan_char place c in r.1 ++ scan_from r.0 s

  -- `_NUMBER_RE.findall(text)`, as floats
  unfoldable pub numbers_in : String → List W
  numbers_in text = scan_from (outside false) text

  -- the numbers that are no years
  unfoldable pub checked_numbers : String → List W
  checked_numbers text =
      filter (λ n. not (num.le (num.decimal 1900 0) n && num.le n (num.decimal 2100 0)))
        (numbers_in text)

-- what stands after a prefix
rest_after : String → String → Option String
rest_after String.[] s = some s
rest_after (String.◌∷◌ d p) String.[] = none
rest_after (String.◌∷◌ d p) (String.◌∷◌ c s) =
    let later = rest_after p s in if code c == code d then later else none

abbrev starts_with_digit : String → Bool
starts_with_digit String.[] = false
starts_with_digit (String.◌∷◌ c s) = is_digit c

abbrev stands_clear : Option String → Bool
stands_clear none = false
stands_clear (some rest) = not (starts_with_digit rest)

-- `(?<![\d.,])cand(?![\d])` found in the text; `clear` says that no digit, point or comma is before it
found_from : String → Bool → String → Bool
found_from cand clear String.[] = clear && stands_clear (rest_after cand String.[])
found_from cand clear (String.◌∷◌ c s) =
    (clear && stands_clear (rest_after cand (String.◌∷◌ c s)))
    || found_from cand (not (is_digit c || (is_char b'.' c || is_char b',' c))) s

-- `cand and re.search(...)`
pub found_verbatim : String → String → Bool
found_verbatim rendered cand = not (str_eq cand "") && found_from cand true rendered

module _ {W : Type 0} ⦃num : Float W⦄ ⦃texts : FloatText W⦄ where
  -- a value of the context is within the tolerance `_REL_TOL`
  unfoldable pub close_to : W → W → Bool
  close_to n cv =
      if num.eq cv nought then num.eq n nought else num.le (num.abs (n ⊖ cv) ⊘ cv) (num.decimal 5 3)

  abbrev signed : ℤ → W
  signed (pos n) = num.decimal n 0
  signed (negsuc n) = num.neg (num.decimal (suc n) 0)

  -- `f"{int(number):,}"`, if the number is whole; `int` raises at an infinity
  abbrev integer_text : W → Option ℤ → Outcome (List String)
  integer_text number none = raises "OverflowError"
  integer_text number (some n) =
      returns (if num.eq number (signed n) then texts.grouped_int n ∷ [] else [])

  abbrev candidates_of : W → Outcome (List String)
  candidates_of number = integer_text number (num.int number) >>= λ more. returns (
      texts.repr number
      ∷ texts.fixed 2 number
      ∷ texts.grouped 2 number
      ∷ texts.grouped 4 number
      ∷ more)

  -- `_is_grounded`
  unfoldable pub is_grounded : List W → String → W → Outcome Bool
  is_grounded context_values rendered number =
      if any (close_to (num.abs number)) context_values
      then returns true
      else candidates_of number >>= λ cands. returns (any (found_verbatim rendered) cands)

pub checked_numbers_empty : {W : Type 0} ⦃num : Float W⦄ → checked_numbers {W = W} "" ≡ []
unfolding checked_numbers numbers_in scan_from scan_end
checked_numbers_empty = refl
