-- ===== src/Kube/Owners/Names.antt =====
-- The names of the pods of a stateful set, in pkg/utils/kubeclient/statefulset.go.
use fluid_data_table.Base.{
  ℕ, true, false, ◌<◌, none, some, [], ◌∷◌, ◌++◌, ◌≡◌, refl, arith, is_empty, all,
}
use fluid_data_table.Base.Text.{Text, has_byte}
use fluid_data_table.Base.Int.{pos}
use fluid_data_table.Base.Strconv.{unsigned, is_digit}
use fluid_data_table.Kube.Owners.{split_last, get_parent_name_and_ordinal}

split_last_absent : (c : ℕ) (s : Text) → has_byte c s ≡ false → split_last c s ≡ none
unfolding split_last has_byte
split_last_absent c [] h = refl
split_last_absent c (x ∷ xs) h = ground (arith, split_last_absent c xs)

split_last-append :
    (c : ℕ) (s t : Text) → has_byte c t ≡ false → split_last c (s ++ c ∷ t) ≡ some (s, t)
unfolding split_last
split_last-append c [] t h = ground (arith, split_last_absent c t)
split_last-append c (x ∷ xs) t h = ground (arith, split_last-append c xs t)

no_dash : (s : Text) → all is_digit s ≡ true → has_byte b'-' s ≡ false
unfolding has_byte
no_dash [] h = refl
no_dash (x ∷ xs) h = ground (arith, no_dash xs)

-- The name of a set, a dash and at least one digit are the name of a pod from which the name of the
-- set, whatever dashes and digits it has itself, is read back, and with it the number, if that is
-- less than 2^31.
pub get_parent_name_and_ordinal-append :
    (set number : Text) (n : ℕ)
    → is_empty number ≡ false
    → all is_digit number ≡ true
    → unsigned number ≡ some n
    → n < 2147483648
    → get_parent_name_and_ordinal (set ++ b'-' ∷ number) ≡ (set, pos n)
unfolding get_parent_name_and_ordinal
get_parent_name_and_ordinal-append set number n h1 h2 h3 h4 =
    ground (arith, split_last-append b'-' set number (no_dash number h2))
