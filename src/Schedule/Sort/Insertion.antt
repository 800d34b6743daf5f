-- ===== src/Schedule/Sort/Insertion.antt =====
-- The copies and the write of the binary insertion put the node at its place and move no other.
use fluid_data_table.Base.{
  ℕ, zero, suc, ◌+◌, ◌-◌, ◌≤◌, ◌<◌, ◌≡◌, refl, ap, some, List, [], ◌∷◌, ◌++◌, arith, length,
  get_elem?, set, length-append, Option-cases, inl, inr,
}
use mathlib.Core.List.{append_assoc, append-nil}
use fluid_data_table.Schedule.Node.{Node}
use fluid_data_table.Schedule.Sort.{shift_up, place}

-- A list with a node put in at an index.
abbrev pub insert_at : ℕ → Node → List Node → List Node
insert_at zero node xs = node ∷ xs
insert_at (suc i) node [] = node ∷ []
insert_at (suc i) node (x ∷ xs) = x ∷ insert_at i node xs

shift_up-cons :
    (rounds low : ℕ) (x : Node) (xs : List Node)
    → shift_up rounds (suc low) (x ∷ xs) ≡ x ∷ shift_up rounds low xs
unfolding shift_up
shift_up-cons zero low x xs = refl
shift_up-cons (suc rounds) low x xs =
    let e : suc low + rounds ≡ suc (low + rounds) = omega arith in
    let e' : suc low + rounds + 1 ≡ suc (low + rounds + 1) = omega arith in
    elim (Option-cases (get_elem? xs (low + rounds))) [
      | inl absent ↦ rw (e, absent) (shift_up-cons rounds low x xs)
      | inr (node, found) ↦
          rw (e, found) (rw e' (shift_up-cons rounds low x (set xs (low + rounds + 1) node)))
    ]

get_last : (xs ys : List Node) (x : Node) → get_elem? (xs ++ (x ∷ ys)) (length xs) ≡ some x
get_last [] ys x = refl
get_last (z ∷ xs) ys x = get_last xs ys x

set_last :
    (xs ys : List Node) (x y n : Node)
    → set (xs ++ (x ∷ y ∷ ys)) (suc (length xs)) n ≡ xs ++ (x ∷ n ∷ ys)
set_last [] ys x y n = refl
set_last (z ∷ xs) ys x y n = ap (◌∷◌ z) (set_last xs ys x y n)

-- Every list that is not empty has a last element.
unsnoc : (xs : List Node) → 0 < length xs → (ys : List Node) × (y : Node) × (xs ≡ ys ++ (y ∷ []))
unsnoc [] h = absurd (omega arith)
unsnoc (x ∷ []) h = ([], x, refl)
unsnoc (x ∷ z ∷ xs) h = let (ys, y, e) = unsnoc (z ∷ xs) (omega arith) in (x ∷ ys, y, ap (◌∷◌ x) e)

-- The first copy takes the last element of the prefix.
shift_up_step :
    (rounds : ℕ) (ws ys : List Node) (w z : Node)
    → length ws ≡ rounds
    → shift_up (suc rounds) 0 (ws ++ (w ∷ z ∷ ys)) ≡ shift_up rounds 0 (ws ++ (w ∷ w ∷ ys))
unfolding shift_up
shift_up_step rounds ws ys w z k =
    let e : 0 + rounds ≡ length ws = omega arith in
    let found : get_elem? (ws ++ (w ∷ z ∷ ys)) (0 + rounds) ≡ some w =
      rw e (get_last ws (z ∷ ys) w) in
    let e' : 0 + rounds + 1 ≡ suc (length ws) = omega arith in
    rw (found, shift_up) (rw e' (ap (shift_up rounds 0) (set_last ws ys w z w)))

set-shift_up_snoc :
    (rounds : ℕ) (xs ws ys : List Node) (w z n : Node)
    → xs ≡ ws ++ (w ∷ [])
    → length ws ≡ rounds
    → set (shift_up rounds 0 (ws ++ (w ∷ w ∷ ys))) 0 n ≡ n ∷ (ws ++ (w ∷ ys))
    → set (shift_up (suc rounds) 0 (xs ++ (z ∷ ys))) 0 n ≡ n ∷ (xs ++ ys)
set-shift_up_snoc rounds xs ws ys w z n e k ih =
    rw (e, append_assoc ws, append_assoc ws, shift_up_step rounds ws ys w z k) ih

-- After the copies and the write at 0 the old elements stand one place up.
set-shift_up :
    (rounds : ℕ) (xs ys : List Node) (z n : Node)
    → length xs ≡ rounds
    → set (shift_up rounds 0 (xs ++ (z ∷ ys))) 0 n ≡ n ∷ (xs ++ ys)
set-shift_up zero [] ys z n h = unfold shift_up in refl
set-shift_up zero (x ∷ xs) ys z n h = absurd (omega arith)
set-shift_up (suc rounds) xs ys z n h =
    let (ws, w, e) = unsnoc xs (omega arith) in
    let k : length ws ≡ rounds = omega (arith, ap length e, length-append ws (w ∷ [])) in
    set-shift_up_snoc rounds xs ws ys w z n e k (set-shift_up rounds ws (w ∷ ys) w n k)

-- The same at any index inside the list.
set-shift_up_at :
    (low : ℕ) (xs : List Node) (z n : Node)
    → low ≤ length xs
    → set (shift_up (length xs - low) low (xs ++ (z ∷ []))) low n ≡ insert_at low n xs
set-shift_up_at zero xs z n h =
    rw (set-shift_up (length xs - 0) xs [] z n (omega arith), append-nil)
set-shift_up_at (suc low) [] z n h = absurd (omega arith)
set-shift_up_at (suc low) (x ∷ xs) z n h =
    let e : suc (length xs) - suc low ≡ length xs - low = omega arith in
    rw (e, shift_up-cons) (ap (◌∷◌ x) (set-shift_up_at low xs z n (omega arith)))

last_of_snoc :
    (xs ws : List Node) (w : Node) → xs ≡ ws ++ (w ∷ []) → get_elem? xs (length xs - 1) ≡ some w
last_of_snoc xs ws w e =
    let j : length xs - 1 ≡ length ws = omega (arith, ap length e, length-append ws (w ∷ [])) in
    rw j (rw e (get_last ws [] w))

-- The insertion never reads past the end, and puts the node at the index.
pub place-eq-insert_at :
    (node : Node) (low : ℕ) (xs : List Node)
    → 0 < length xs
    → low ≤ length xs
    → place node low xs ≡ some (insert_at low node xs)
unfolding place
place-eq-insert_at node low xs h k =
    let (ws, w, e) = unsnoc xs h in
    rw (last_of_snoc xs ws w e, place) (ap some (set-shift_up_at low xs w node k))
