-- ===== src/Base/Text.antt =====
-- Rust's `String` and `&str` as lists of code points, with the methods that the program calls.
-- Case folding is that of ASCII. `char::is_whitespace` is Unicode's White_Space.
use Prim.Native.Nat.{ℕ, zero, suc, ◌+◌, ◌-◌, ◌*◌, ◌/◌, ◌%◌}
use Prim.Native.Char.{code}
use Prim.Native.String.{String}
use mathlib.Core.Path.{◌≡◌}
use mathlib.Core.Logic.{◌↔◌}
use mathlib.Core.Bool.{Bool, true, false, ◌&&◌, ◌||◌}
use mathlib.Core.List.{List, [], ◌∷◌, ◌++◌, reverse}
use mathlib.Core.Option.{Option, none, some}
use native.Mathlib.Omega.{arith}
use log.Base.Tests.{leb, ltb, ◌==◌, if◌then◌else◌}
use log.Base.Lists.{any, length, ◌>>=◌}
use log.Base.Int.{ℤ, pos, negsuc, sub_ℕ, half_i64}

abbrev pub Text : Type 0
Text = List ℕ

-- A literal.
abbrev pub text : String → Text
text String.[] = []
text (String.◌∷◌ c s) = code c ∷ text s

unfoldable pub text_eq : Text → Text → Bool
text_eq [] [] = true
text_eq [] (d ∷ t) = false
text_eq (c ∷ s) [] = false
text_eq (c ∷ s) (d ∷ t) = (c == d) && text_eq s t

pub text_eq_iff : (s t : Text) → (text_eq s t ≡ true) ↔ (s ≡ t)
unfolding text_eq
text_eq_iff [] [] = ground arith
text_eq_iff [] (d ∷ t) = ground arith
text_eq_iff (c ∷ s) [] = ground arith
text_eq_iff (c ∷ s) (d ∷ t) = ground (arith, text_eq_iff s t)

-- `matches!(value, a | b | ...)`.
abbrev pub one_of : List Text → Text → Bool
one_of [] s = false
one_of (t ∷ ts) s = text_eq s t || one_of ts s

abbrev pub is_empty : Text → Bool
is_empty [] = true
is_empty (c ∷ s) = false

abbrev pub is_digit : ℕ → Bool
is_digit c = leb b'0' c && leb c b'9'

abbrev pub is_upper : ℕ → Bool
is_upper c = leb b'A' c && leb c b'Z'

abbrev pub is_lower : ℕ → Bool
is_lower c = leb b'a' c && leb c b'z'

-- `is_ascii_alphabetic`.
abbrev pub is_alpha : ℕ → Bool
is_alpha c = is_upper c || is_lower c

abbrev pub is_whitespace : ℕ → Bool
is_whitespace c =
    (leb 9 c && leb c 13)
    || (c == 32)
    || (c == 0x85)
    || (c == 0xa0)
    || (c == 0x1680)
    || (leb 0x2000 c && leb c 0x200a)
    || (c == 0x2028)
    || (c == 0x2029)
    || (c == 0x202f)
    || (c == 0x205f)
    || (c == 0x3000)

abbrev pub upper_char : ℕ → ℕ
upper_char c = if is_lower c then c - 32 else c

unfoldable pub to_upper : Text → Text
to_upper [] = []
to_upper (c ∷ s) = upper_char c ∷ to_upper s

unfoldable pub trim_start : Text → Text
trim_start [] = []
trim_start (c ∷ s) = if is_whitespace c then trim_start s else c ∷ s

-- `trim_end`: the white space at the end goes.
unfoldable pub trim_end : Text → Text
trim_end [] = []
trim_end (c ∷ s) =
    let rest = trim_end s in if is_whitespace c && is_empty rest then [] else c ∷ rest

unfoldable pub trim : Text → Text
unfolding trim_start trim_end
trim s = trim_end (trim_start s)

abbrev pub eq_ignore_case : Text → Text → Bool
eq_ignore_case s t = text_eq (to_upper s) (to_upper t)

unfoldable pub starts_with : Text → Text → Bool
starts_with s [] = true
starts_with [] (d ∷ t) = false
starts_with (c ∷ s) (d ∷ t) = (c == d) && starts_with s t

unfoldable pub ends_with : Text → Text → Bool
unfolding starts_with
ends_with s t = starts_with (reverse s) (reverse t)

-- `split_once(separator)`.
unfoldable pub split_once : ℕ → Text → Option (Text × Text)
split_once d [] = none
split_once d (c ∷ s) =
    if c == d then some ([], s) else (split_once d s >>= λ p. some (c ∷ p.0, p.1))

abbrev pub onto_first : ℕ → List Text → List Text
onto_first c [] = (c ∷ []) ∷ []
onto_first c (s ∷ r) = (c ∷ s) ∷ r

-- `split(separator)`: always at least one part.
unfoldable pub split : ℕ → Text → List Text
split d [] = [] ∷ []
split d (c ∷ s) = let rest = split d s in if c == d then [] ∷ rest else onto_first c rest

abbrev pub has_char : ℕ → Text → Bool
has_char d = any (λ c. c == d)

-- `join(separator)`.
unfoldable pub join : Text → List Text → Text
join d [] = []
join d (s ∷ []) = s
join d (s ∷ t ∷ r) = s ++ (d ++ join d (t ∷ r))

-- `is_ascii_alphanumeric`.
abbrev pub is_alphanumeric : ℕ → Bool
is_alphanumeric c = is_alpha c || is_digit c

-- `len()`: the bytes of UTF-8.
unfoldable pub byte_len : Text → ℕ
byte_len [] = 0
byte_len (c ∷ s) =
    (if ltb c 0x80 then 1 else if ltb c 0x800 then 2 else if ltb c 0x10000 then 3 else 4)
    + byte_len s

unfoldable pub digits_from : ℕ → Text → Option ℕ
digits_from n [] = some n
digits_from n (c ∷ s) =
    let rest = digits_from (n * 10 + (c - b'0')) s in if is_digit c then rest else none

abbrev pub at_most : ℕ → ℕ → Option ℕ
at_most max n = if leb n max then some n else none

abbrev pub some_digits : Text → Option ℕ
some_digits [] = none
some_digits (c ∷ s) = digits_from 0 (c ∷ s)

-- `parse::<uN>()`: a sign `+` is allowed, and a value above the type's maximum is an error.
unfoldable pub parse_unsigned : ℕ → Text → Option ℕ
unfolding digits_from
parse_unsigned max [] = none
parse_unsigned max (c ∷ s) =
    (if c == b'+' then some_digits s else some_digits (c ∷ s)) >>= at_most max

abbrev pub at_least : ℕ → ℕ → Option ℤ
at_least max n = if leb n max then some (sub_ℕ 0 n) else none

-- `parse::<i64>()`.
unfoldable pub parse_i64 : Text → Option ℤ
unfolding parse_unsigned
parse_i64 [] = none
parse_i64 (c ∷ s) =
    if c == b'-'
    then some_digits s >>= at_least half_i64
    else parse_unsigned (half_i64 - 1) (c ∷ s) >>= λ n. some (pos n)

-- The decimal digits of a number in front of `acc`; the fuel bounds how many.
unfoldable pub decimal_on : ℕ → ℕ → Text → Text
decimal_on zero n acc = acc
decimal_on (suc f) n acc =
    let rest = decimal_on f (n / 10) ((b'0' + n % 10) ∷ acc) in
    if ltb n 10 then (b'0' + n) ∷ acc else rest

-- `to_string()` of an integer: 20 digits are enough for 64 bits.
unfoldable pub decimal : ℤ → Text
unfolding decimal_on
decimal (pos n) = decimal_on 20 n []
decimal (negsuc n) = b'-' ∷ decimal_on 20 (suc n) []

abbrev zeros : ℕ → Text
zeros zero = []
zeros (suc n) = b'0' ∷ zeros n

-- `{:0w}` of a number whose digits are given.
unfoldable pub padded : ℕ → Text → Text
padded w s = zeros (w - length s) ++ s
