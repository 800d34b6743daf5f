-- ===== src/Util/Slices.antt =====
-- SubtractString of pkg/utils/slice.go as a difference of sets.
use fluid_data_table.Base.{
  true, not, ◌||◌, ◌&&◌, List, [], ◌∷◌, ◌≡◌, refl, arith, keep, ap, sym, Bool,
}
use fluid_data_table.Base.Text.{Text, str_eq_iff, str_eq_refl}
use fluid_data_table.Base.Dict.{Dict, lookup, insert, erase, has_key, lookup-insert, lookup-erase}
use fluid_data_table.Datatable.Reconcile.{contains_string}
use fluid_data_table.Util.{hash_of, unhash, subtract_string}

has_key-hash_of :
    (x : List Text) (v : Text) (hash : Dict (Unit {0}))
    → has_key v (hash_of x hash) ≡ (contains_string x v || has_key v hash)
unfolding hash_of contains_string
has_key-hash_of [] v hash = refl
has_key-hash_of (w ∷ x) v hash =
    ground (arith, has_key-hash_of x v (insert w tt hash), lookup-insert w v tt hash)

has_key-unhash :
    (y : List Text) (v : Text) (hash : Dict (Unit {0}))
    → has_key v (unhash y hash) ≡ (not (contains_string y v) && has_key v hash)
unfolding unhash contains_string
has_key-unhash [] v hash = refl
has_key-unhash (w ∷ y) v hash = ground (
  arith,
  has_key-unhash y v (erase w hash),
  has_key-unhash y v hash,
  lookup-erase w v hash,
  str_eq_iff w v,
)

keep_cong :
    (p q : Text → Bool) (x : List Text)
    → ((v : Text) → contains_string x v ≡ true → p v ≡ q v)
    → keep p x ≡ keep q x
unfolding contains_string
keep_cong p q [] h = refl
keep_cong p q (v ∷ x) h =
    let first = h v (ground (arith, str_eq_refl v)) in
    let rest = keep_cong p q x (λ w k. h w (ground (arith, k))) in ground arith

kept_all : (x : List Text) → keep (λ (v : Text). not (contains_string [] v)) x ≡ x
unfolding contains_string
kept_all [] = refl
kept_all (v ∷ x) = ap (λ rest. v ∷ rest) (kept_all x)

-- SubtractString keeps, in their order and as often as they occur, the strings of the first slice that
-- are not in the second.
pub subtract_string-eq-keep :
    (x y : List Text) → subtract_string x y ≡ keep (λ (v : Text). not (contains_string y v)) x
unfolding subtract_string lookup
subtract_string-eq-keep [] y = refl
subtract_string-eq-keep (v ∷ x) [] = sym (kept_all (v ∷ x))
subtract_string-eq-keep (v ∷ x) (w ∷ y) =
    keep_cong (λ u. has_key u (unhash (w ∷ y) (hash_of (v ∷ x) [])))
      (λ u. not (contains_string (w ∷ y) u)) (v ∷ x)
      λ u k.
        ground
          (arith, k, has_key-unhash (w ∷ y) u (hash_of (v ∷ x) []), has_key-hash_of (v ∷ x) u [])
