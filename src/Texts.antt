-- ===== src/Texts.antt =====
-- What the services use of JavaScript's strings, on texts of ASCII characters: `slice`,
-- `toLowerCase`, `replace`, `String(n)`, and `indexOf('.')` with the two slices around it.
pub mod Dots
pub mod Decimals
use Prim.Native.Char.{Char, code}
use Prim.Native.Nat.{ℕ, zero, suc, ◌-◌}
use Prim.Native.String.{String, len, slice, char_at}
use mathlib.Core.Bool.{◌&&◌}
use mathlib.Core.Option.{Option, none, some}
use text.Mathlib.Text.{starts_with}
use absolo_cloud_services.Base.{◌⧺◌, ◌≡◌, refl, ◌/◌, ◌%◌, leb, nat_eq, if◌then◌else◌}

-- `s.slice(0, n)`
unfoldable pub first_chars : ℕ → String → String
first_chars zero s = ""
first_chars (suc n) String.[] = ""
first_chars (suc n) (String.◌∷◌ c s) = String.◌∷◌ c (first_chars n s)

-- `s.slice(n)`
unfoldable pub drop_chars : ℕ → String → String
drop_chars zero s = s
drop_chars (suc n) String.[] = ""
drop_chars (suc n) (String.◌∷◌ c s) = drop_chars n s

-- `s.length`
abbrev pub text_length : String → ℕ
text_length String.[] = 0
text_length (String.◌∷◌ c s) = suc (text_length s)

lower_char : Char → Char
lower_char c =
    if leb 65 (code c) && leb (code c) 90
    then char_at "abcdefghijklmnopqrstuvwxyz" (code c - 65)
    else c

-- `s.toLowerCase()`
unfoldable pub to_lower : String → String
unfolding lower_char
to_lower String.[] = ""
to_lower (String.◌∷◌ c s) = String.◌∷◌ (lower_char c) (to_lower s)

-- `s.replace(p, '')`: the first place where `p` stands is left out.
unfoldable pub remove_first : String → String → String
remove_first p String.[] = ""
remove_first p (String.◌∷◌ c s) =
    let rest = remove_first p s in
    if starts_with (String.◌∷◌ c s) p
    then slice (String.◌∷◌ c s) (len p) (len (String.◌∷◌ c s))
    else String.◌∷◌ c rest

digit : ℕ → String
digit d = slice "0123456789" d (suc d)

-- Each round writes the last digit, and a number has no more digits than itself and one.
decimal_fuel : ℕ → ℕ → String
unfolding digit
decimal_fuel zero n = ""
decimal_fuel (suc k) n =
    let rest = decimal_fuel k (n / 10) in if leb n 9 then digit n else rest ⧺ digit (n % 10)

-- `String(n)`
unfoldable pub decimal : ℕ → String
unfolding decimal_fuel
decimal n = decimal_fuel (suc n) n

decimal_5432 : decimal 5432 ≡ "5432"
unfolding decimal
decimal_5432 = refl

prepend : Char → Option (String × String) → Option (String × String)
prepend c none = none
prepend c (some (before, after)) = some (String.◌∷◌ c before, after)

-- `s.slice(0, i)` and `s.slice(i + 1)` for `i = s.indexOf('.')`
unfoldable pub split_at_dot : String → Option (String × String)
unfolding prepend
split_at_dot String.[] = none
split_at_dot (String.◌∷◌ c s) =
    let rest = split_at_dot s in if nat_eq (code c) 46 then some ("", s) else prepend c rest
