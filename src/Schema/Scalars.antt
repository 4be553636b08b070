-- ===== src/Schema/Scalars.antt =====
-- The values that a column or an expression of a query may have in JavaScript, and what `+`, `>=` and
-- `Number(text)` make of them.
use Prim.Native.Char.{Char, code}
use absolo_cloud_services.Base.{
  ℕ, ◌+◌, ◌*◌, ◌-◌, String, ◌⧺◌, Bool, false, ◌&&◌, Option, none, some, leb, if◌then◌else◌,
}
use absolo_cloud_services.Texts.{decimal}

pub data Scalar : Type 0 where
  number : ℕ → Scalar
  string : String → Scalar

unfoldable pub is_digit : Char → Bool
is_digit c = leb 48 (code c) && leb (code c) 57

-- The number that starts with the digits read so far.
unfoldable pub read_digits : ℕ → String → Option ℕ
unfolding is_digit
read_digits n String.[] = some n
read_digits n (String.◌∷◌ c s) =
    let rest = read_digits (n * 10 + (code c - 48)) s in if is_digit c then rest else none

-- `Number(text)` on digits; anything else counts as NaN.
abbrev pub number_of : Scalar → Option ℕ
number_of (number n) = some n
number_of (string t) = read_digits 0 t

-- `a + b`
unfoldable pub plus : Scalar → Scalar → Scalar
unfolding decimal
plus (number a) (number b) = number (a + b)
plus (number a) (string b) = string (decimal a ⧺ b)
plus (string a) (number b) = string (a ⧺ decimal b)
plus (string a) (string b) = string (a ⧺ b)

abbrev pub reaches : Option ℕ → ℕ → Bool
reaches none limit = false
reaches (some n) limit = leb limit n

-- `a >= limit`
abbrev pub at_least : Scalar → ℕ → Bool
at_least a limit = reaches (number_of a) limit
