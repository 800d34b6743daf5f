-- ===== src/Base/Strconv/Words.antt =====
-- strings.Fields on words that are put together with white space.
use Prim.Native.Nat.{ℕ, zero, suc}
use mathlib.Core.Path.{◌≡◌, refl, ap, ◌∙◌}
use mathlib.Core.Bool.{true, false}
use mathlib.Core.List.{[], ◌∷◌, ◌++◌, append-nil, append_assoc}
use native.Mathlib.Omega.{arith}
use fluid_data_table.Base.Lists.{any, is_empty}
use fluid_data_table.Base.Text.{Text}
use fluid_data_table.Base.Strconv.{is_space, flush, fields_from, fields}

fields_from-append :
    (u w : Text) (c : ℕ) (t : Text)
    → any is_space w ≡ false
    → is_space c ≡ true
    → fields_from u (w ++ c ∷ t) ≡ flush (u ++ w) (fields_from [] t)
unfolding fields_from
fields_from-append u [] c t h k = ground (arith, append-nil u)
fields_from-append u (x ∷ w) c t h k =
    ground (arith, fields_from-append (u ++ (x ∷ [])) w c t, append_assoc u (x ∷ []) w)

fields_from_word : (u w : Text) → any is_space w ≡ false → fields_from u w ≡ flush (u ++ w) []
unfolding fields_from
fields_from_word u [] h = ground (arith, append-nil u)
fields_from_word u (x ∷ w) h =
    ground (arith, fields_from_word (u ++ (x ∷ [])) w, append_assoc u (x ∷ []) w)

-- A word before white space is the first field.
pub fields-append :
    (w : Text) (c : ℕ) (t : Text)
    → is_empty w ≡ false
    → any is_space w ≡ false
    → is_space c ≡ true
    → fields (w ++ c ∷ t) ≡ w ∷ fields t
unfolding fields
fields-append [] c t n h k = cc
fields-append (x ∷ w) c t n h k = ground (arith, fields_from-append [] (x ∷ w) c t)

-- White space in front does not count.
pub fields_space : (c : ℕ) (t : Text) → is_space c ≡ true → fields (c ∷ t) ≡ fields t
unfolding fields fields_from
fields_space c t h = ground arith

pub fields_word : (w : Text) → is_empty w ≡ false → any is_space w ≡ false → fields w ≡ w ∷ []
unfolding fields
fields_word [] n h = cc
fields_word (x ∷ w) n h = ground (arith, fields_from_word [] (x ∷ w))

pub fields_nil : fields [] ≡ []
unfolding fields fields_from
fields_nil = refl

-- Text after some blanks.
abbrev pub pad : ℕ → Text → Text
pad zero t = t
pad (suc n) t = b' ' ∷ pad n t

-- A word, at least one blank, and the rest.
abbrev pub column : Text → ℕ → Text → Text
column w n t = w ++ b' ' ∷ pad n t

abbrev pub IsWord : Text → Type 0
IsWord w = (is_empty w ≡ false) × (any is_space w ≡ false)

pub fields-pad : (n : ℕ) (t : Text) → fields (pad n t) ≡ fields t
fields-pad zero t = refl
fields-pad (suc n) t = fields_space b' ' (pad n t) refl ∙ fields-pad n t

pub fields-column : (w : Text) (n : ℕ) (t : Text) → IsWord w → fields (column w n t) ≡ w ∷ fields t
fields-column w n t h =
    fields-append w b' ' (pad n t) h.0 h.1 refl ∙ ap (λ ws. w ∷ ws) (fields-pad n t)
