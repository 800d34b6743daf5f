-- ===== src/Base/Text.antt =====
-- Text as a list of bytes, and the functions of Go's package strings that the program calls. Every
-- separator in the program is a single byte.
use Prim.Native.Char.{code}
use Prim.Native.String.{String}
use Prim.Native.Nat.{ℕ}
use mathlib.Core.Path.{◌≡◌, refl, ap, ◌∙◌}
use mathlib.Core.Logic.{◌↔◌}
use mathlib.Core.Bool.{Bool, true, false, ◌&&◌, ◌||◌}
use mathlib.Core.List.{List, [], ◌∷◌, ◌++◌}
use native.Mathlib.Omega.{arith}
use fluid_data_table.Base.Tests.{◌==◌, if◌then◌else◌}
use fluid_data_table.Base.Lists.{All}

abbrev pub Text : Type 0
Text = List ℕ

abbrev pub codes : String → Text
codes String.[] = []
codes (String.◌∷◌ c s) = code c ∷ codes s

-- `==` on strings
unfoldable pub str_eq : Text → Text → Bool
str_eq [] [] = true
str_eq (x ∷ xs) (y ∷ ys) = x == y && str_eq xs ys
str_eq _ _ = false

str_eq→≡ : (s t : Text) → str_eq s t ≡ true → s ≡ t
unfolding str_eq
str_eq→≡ [] [] h = refl
str_eq→≡ [] (y ∷ ys) h = cc
str_eq→≡ (x ∷ xs) [] h = cc
str_eq→≡ (x ∷ xs) (y ∷ ys) h = ground (arith, str_eq→≡ xs ys)

pub str_eq_refl : (s : Text) → str_eq s s ≡ true
unfolding str_eq
str_eq_refl [] = refl
str_eq_refl (x ∷ xs) = ground (arith, str_eq_refl xs)

pub str_eq_iff : (s t : Text) → (str_eq s t ≡ true) ↔ (s ≡ t)
str_eq_iff s t = (str_eq→≡ s t, λ e. rw e (str_eq_refl t))

-- Whether a byte occurs in a text.
unfoldable pub has_byte : ℕ → Text → Bool
has_byte c [] = false
has_byte c (x ∷ xs) = x == c || has_byte c xs

pub has_byte-append : (c : ℕ) (s t : Text) → has_byte c (s ++ t) ≡ (has_byte c s || has_byte c t)
unfolding has_byte
has_byte-append c [] t = refl
has_byte-append c (x ∷ xs) t = ground (arith, has_byte-append c xs t)

-- strings.HasPrefix
unfoldable pub has_prefix : Text → Text → Bool
has_prefix s [] = true
has_prefix [] (p ∷ ps) = false
has_prefix (x ∷ xs) (p ∷ ps) = x == p && has_prefix xs ps

-- strings.Contains
unfoldable pub contains : Text → Text → Bool
unfolding has_prefix
contains [] p = has_prefix [] p
contains (x ∷ xs) p = has_prefix (x ∷ xs) p || contains xs p

-- Puts a byte in front of the first part.
abbrev pub push_front : ℕ → List Text → List Text
push_front x [] = (x ∷ []) ∷ []
push_front x (w ∷ ws) = (x ∷ w) ∷ ws

-- strings.Split
unfoldable pub split : ℕ → Text → List Text
split c [] = [] ∷ []
split c (x ∷ xs) = let rest = split c xs in if x == c then [] ∷ rest else push_front x rest

pub split_single : (c : ℕ) (w : Text) → has_byte c w ≡ false → split c w ≡ w ∷ []
unfolding split has_byte
split_single c [] h = refl
split_single c (x ∷ xs) h = ground (arith, split_single c xs)

pub split-append :
    (c : ℕ) (w t : Text) → has_byte c w ≡ false → split c (w ++ c ∷ t) ≡ w ∷ split c t
unfolding split has_byte
split-append c [] t h = ground arith
split-append c (x ∷ xs) t h = ground (arith, split-append c xs t)

-- strings.Join
unfoldable pub join : Text → List Text → Text
join sep [] = []
join sep (w ∷ []) = w
join sep (w ∷ v ∷ ws) = w ++ (sep ++ join sep (v ∷ ws))

-- Lines without a line's end are the lines of their join.
pub split-join :
    (c : ℕ) (w : Text) (ws : List Text)
    → All (λ (v : Text). has_byte c v ≡ false) (w ∷ ws)
    → split c (join (c ∷ []) (w ∷ ws)) ≡ w ∷ ws
unfolding join
split-join c w [] h = split_single c w h.0
split-join c w (v ∷ ws) h =
    split-append c w (join (c ∷ []) (v ∷ ws)) h.0 ∙ ap (λ r. w ∷ r) (split-join c v ws h.1)

-- strings.ReplaceAll from one byte to another
unfoldable pub replace_byte : ℕ → ℕ → Text → Text
replace_byte a b [] = []
replace_byte a b (x ∷ xs) = (if x == a then b else x) ∷ replace_byte a b xs

pub replace_byte_absent : (a b : ℕ) (s : Text) → has_byte a s ≡ false → replace_byte a b s ≡ s
unfolding replace_byte has_byte
replace_byte_absent a b [] h = refl
replace_byte_absent a b (x ∷ xs) h = ground (arith, replace_byte_absent a b xs)

pub replace_byte_back :
    (a b : ℕ) (s : Text) → has_byte b s ≡ false → replace_byte b a (replace_byte a b s) ≡ s
unfolding replace_byte has_byte
replace_byte_back a b [] h = refl
replace_byte_back a b (x ∷ xs) h = ground (arith, replace_byte_back a b xs)

-- A byte that is neither put in nor there before is not there afterwards.
pub has_byte-replace_byte :
    (c a b : ℕ) (s : Text)
    → (b == c) ≡ false
    → has_byte c s ≡ false
    → has_byte c (replace_byte a b s) ≡ false
unfolding replace_byte has_byte
has_byte-replace_byte c a b [] n h = refl
has_byte-replace_byte c a b (x ∷ xs) n h = ground (arith, has_byte-replace_byte c a b xs)

abbrev pub drop_bytes : Text → Text → Text
drop_bytes [] s = s
drop_bytes (p ∷ ps) [] = []
drop_bytes (p ∷ ps) (x ∷ xs) = drop_bytes ps xs

-- strings.TrimPrefix
unfoldable pub trim_prefix : Text → Text → Text
trim_prefix s p = if has_prefix s p then drop_bytes p s else s

-- strings.TrimLeft and strings.TrimRight of one byte
unfoldable pub trim_left : ℕ → Text → Text
trim_left c [] = []
trim_left c (x ∷ xs) = let rest = trim_left c xs in if x == c then rest else x ∷ xs

unfoldable pub trim_right : ℕ → Text → Text
trim_right c [] = []
trim_right c (x ∷ xs) = elim (trim_right c xs) [
  | [] ↦ if x == c then [] else x ∷ []
  | y ∷ ys ↦ x ∷ y ∷ ys
]
