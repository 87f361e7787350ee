-- ===== src/Prelude/Text.antt =====
-- `str.upper` and `str.lower` of Python, on the letters of ASCII. Other characters stay.
use Prim.Native.Char.{Char, code}
use Prim.Native.String.{String, char_at}
use mathlib.Core.Bool.{Bool, true, false, ◌&&◌, ◌||◌}
use mathlib.Core.Path.{◌≡◌, refl}
use agnostix_ai_quant_fund.Prelude.Tests.{ltb, leb, ◌==◌, if◌then◌else◌}
use Prim.Native.Nat.{ℕ, zero, suc, ◌+◌, ◌-◌, ◌/◌, ◌%◌}
pub use text.Mathlib.Text.{◌==◌ as str_eq}
pub use text.Mathlib.TextEquality.{eq_iff}
pub use text.Mathlib.TextPositions.{eq_refl}

abbrev upper_char : Char → Char
upper_char c =
    if leb b'a' (code c) && leb (code c) b'z'
    then char_at "ABCDEFGHIJKLMNOPQRSTUVWXYZ" (code c - b'a')
    else c

abbrev lower_char : Char → Char
lower_char c =
    if leb b'A' (code c) && leb (code c) b'Z'
    then char_at "abcdefghijklmnopqrstuvwxyz" (code c - b'A')
    else c

unfoldable pub upper : String → String
upper String.[] = String.[]
upper (String.◌∷◌ c s) = String.◌∷◌ (upper_char c) (upper s)

unfoldable pub lower : String → String
lower String.[] = String.[]
lower (String.◌∷◌ c s) = String.◌∷◌ (lower_char c) (lower s)

-- `str.strip` of Python, on the white space of ASCII
is_space : Char → Bool
is_space c =
    code c == 32 || (leb 9 (code c) && leb (code c) 13) || (leb 28 (code c) && leb (code c) 31)

abbrev keep_char : Char → String → String
keep_char c String.[] = if is_space c then String.[] else String.◌∷◌ c String.[]
keep_char c (String.◌∷◌ d s) = String.◌∷◌ c (String.◌∷◌ d s)

strip_right : String → String
strip_right String.[] = String.[]
strip_right (String.◌∷◌ c s) = keep_char c (strip_right s)

strip_left : String → String
strip_left String.[] = String.[]
strip_left (String.◌∷◌ c s) = let rest = strip_left s in if is_space c then rest else String.◌∷◌ c s

pub strip : String → String
strip s = strip_right (strip_left s)

-- `s.startswith(prefix)`
unfoldable pub starts_with : String → String → Bool
starts_with s String.[] = true
starts_with String.[] (String.◌∷◌ d prefix) = false
starts_with (String.◌∷◌ c s) (String.◌∷◌ d prefix) = code c == code d && starts_with s prefix

-- `str` of an `int` that is not negative: its last digits first, on the fuel n + 1, which is more
-- than there are digits
unfoldable pub show_from : ℕ → ℕ → String → String
show_from zero n digits = digits
show_from (suc fuel) n digits =
    let longer = String.◌∷◌ (char_at "0123456789" (n % 10)) digits in
    let rest = show_from fuel (n / 10) longer in if ltb n 10 then longer else rest

unfoldable pub show : ℕ → String
show n = show_from (n + 1) n String.[]

upper_aapl : upper "aApl.7" ≡ "AAPL.7"
unfolding upper
upper_aapl = refl

show_205 : show 205 ≡ "205"
unfolding show show_from
show_205 = refl

-- `needle in s`
unfoldable pub contains : String → String → Bool
contains needle String.[] = starts_with String.[] needle
contains needle (String.◌∷◌ c s) = starts_with (String.◌∷◌ c s) needle || contains needle s

contains_middle : contains ":AAPL:" "conflict:x:AAPL:revenue" ≡ true
unfolding contains starts_with
contains_middle = refl
