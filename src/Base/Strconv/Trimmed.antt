-- ===== src/Base/Strconv/Trimmed.antt =====
-- strings.Trim of blanks: it does not change the fields of a line, and finds no text that was not
-- there.
use mathlib.Core.Path.{◌≡◌, refl}
use mathlib.Core.Bool.{true, false}
use mathlib.Core.List.{[], ◌∷◌, ◌++◌}
use native.Mathlib.Omega.{arith}
use fluid_data_table.Base.Text.{Text, trim_left, trim_right, has_prefix, contains}
use fluid_data_table.Base.Strconv.{fields_from, fields}
use fluid_data_table.Base.Strconv.Words.{fields_space}

pub fields-trim_left : (s : Text) → fields (trim_left b' ' s) ≡ fields s
unfolding trim_left
fields-trim_left [] = refl
fields-trim_left (x ∷ xs) = ground (arith, fields_space x xs, fields-trim_left xs)

fields_from-trim_right : (w s : Text) → fields_from w (trim_right b' ' s) ≡ fields_from w s
unfolding trim_right fields_from
fields_from-trim_right w [] = refl
fields_from-trim_right w (x ∷ xs) =
    ground (arith, fields_from-trim_right [] xs, fields_from-trim_right (w ++ (x ∷ [])) xs)

pub fields-trim_right : (s : Text) → fields (trim_right b' ' s) ≡ fields s
unfolding fields
fields-trim_right s = fields_from-trim_right [] s

pub contains-trim_left : (s p : Text) → contains s p ≡ false → contains (trim_left b' ' s) p ≡ false
unfolding contains trim_left
contains-trim_left [] p h = h
contains-trim_left (x ∷ xs) p h = ground (arith, contains-trim_left xs p)

has_prefix-trim_right :
    (s p : Text) → has_prefix (trim_right b' ' s) p ≡ true → has_prefix s p ≡ true
unfolding has_prefix trim_right
has_prefix-trim_right s [] h = refl
has_prefix-trim_right [] (y ∷ p) h = h
has_prefix-trim_right (x ∷ xs) (y ∷ p) h = ground (arith, has_prefix-trim_right xs p)

pub contains-trim_right :
    (s p : Text) → contains s p ≡ false → contains (trim_right b' ' s) p ≡ false
unfolding contains trim_right
contains-trim_right [] p h = h
contains-trim_right (x ∷ xs) p h =
    ground (arith, has_prefix-trim_right (x ∷ xs) p, contains-trim_right xs p)
