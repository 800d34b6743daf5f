-- ===== src/Base/Strconv.antt =====
-- strconv.ParseInt and strconv.FormatInt in base 10, and strings.Fields.
pub mod Words
pub mod Trimmed
use Prim.Native.Nat.{ℕ, zero, suc, ◌+◌, ◌-◌, ◌*◌, ◌/◌, ◌%◌}
use mathlib.Core.Path.{◌≡◌, refl}
use mathlib.Core.Bool.{Bool, ◌&&◌, ◌||◌}
use mathlib.Core.Option.{Option, none, some}
use mathlib.Core.List.{List, [], ◌∷◌, ◌++◌, reverse}
use fluid_data_table.Base.Tests.{◌==◌, ltb, leb, if◌then◌else◌}
use fluid_data_table.Base.Text.{Text, codes}
use fluid_data_table.Base.Int.{ℤ, pos, negsuc, int64_half}

abbrev pub is_digit : ℕ → Bool
is_digit c = leb b'0' c && leb c b'9'

unfoldable pub digits : ℕ → Text → Option ℕ
digits acc [] = some acc
digits acc (c ∷ cs) =
    let rest = digits (acc * 10 + (c - 48)) cs in if is_digit c then rest else none

-- A number without a sign; the empty text is none.
unfoldable pub unsigned : Text → Option ℕ
unfolding digits
unsigned [] = none
unsigned (c ∷ cs) = digits 0 (c ∷ cs)

abbrev within : Option ℕ → Option ℤ
within none = none
within (some n) = if ltb n int64_half then some (pos n) else none

abbrev within_neg : Option ℕ → Option ℤ
within_neg none = none
within_neg (some zero) = some (pos 0)
within_neg (some (suc n)) = if ltb n int64_half then some (negsuc n) else none

-- `none` is a syntax or a range error.
unfoldable pub parse_int : Text → Option ℤ
unfolding unsigned
parse_int [] = none
parse_int (c ∷ cs) =
    if c == b'-'
    then within_neg (unsigned cs)
    else if c == b'+'
    then within (unsigned cs)
    else within (unsigned (c ∷ cs))

abbrev nearest : Option ℕ → ℤ
nearest none = pos 0
nearest (some n) = if ltb n int64_half then pos n else pos (int64_half - 1)

abbrev nearest_neg : Option ℕ → ℤ
nearest_neg none = pos 0
nearest_neg (some zero) = pos 0
nearest_neg (some (suc n)) = if ltb n int64_half then negsuc n else negsuc (int64_half - 1)

-- The value that ParseInt returns beside its error: 0 after a syntax error, and the nearest int64
-- after a range error.
unfoldable pub parse_int_value : Text → ℤ
unfolding unsigned
parse_int_value [] = pos 0
parse_int_value (c ∷ cs) =
    if c == b'-'
    then nearest_neg (unsigned cs)
    else if c == b'+'
    then nearest (unsigned cs)
    else nearest (unsigned (c ∷ cs))

-- The digits of a number; an int64 has at most 19.
pub format_digits : ℕ → ℕ → Text → Text
format_digits zero n acc = acc
format_digits (suc fuel) n acc =
    let acc' : Text = (n % 10 + 48) ∷ acc in
    let rest = format_digits fuel (n / 10) acc' in if ltb n 10 then acc' else rest

unfoldable pub format_int : ℤ → Text
unfolding format_digits
format_int (pos n) = format_digits 20 n []
format_int (negsuc n) = b'-' ∷ format_digits 20 (n + 1) []

-- The white space of strings.Fields and strings.TrimSpace in ASCII.
abbrev pub is_space : ℕ → Bool
is_space c = c == b' ' || (leb 9 c && leb c 13)

abbrev pub flush : Text → List Text → List Text
flush [] ws = ws
flush (c ∷ w) ws = (c ∷ w) ∷ ws

pub fields_from : Text → Text → List Text
fields_from w [] = flush w []
fields_from w (c ∷ cs) =
    let next = fields_from [] cs in
    let more = fields_from (w ++ (c ∷ [])) cs in if is_space c then flush w next else more

unfoldable pub fields : Text → List Text
unfolding fields_from
fields s = fields_from [] s

parse_tests :
    (parse_int (codes "-120") ≡ some (negsuc 119))
    × (parse_int (codes "12 ") ≡ none)
    × (parse_int (codes "9223372036854775808") ≡ none)
    × (format_int (pos 1024) ≡ codes "1024")
    × (fields (codes " 5120  a\n") ≡ codes "5120" ∷ codes "a" ∷ [])
unfolding parse_int format_int fields
parse_tests = (refl, refl, refl, refl, refl)

drop_spaces : Text → Text
drop_spaces [] = []
drop_spaces (c ∷ cs) = let rest = drop_spaces cs in if is_space c then rest else c ∷ cs

-- strings.TrimSpace
unfoldable pub trim_space : Text → Text
unfolding drop_spaces
trim_space s = reverse (drop_spaces (reverse (drop_spaces s)))
