-- ===== src/Chat/Socket/Rooms.antt =====
-- The set of rooms of a socket, as a list of its members.
use arctic_rss.Prelude.{
  suc, ◌+◌, ◌≤◌, ◌≡◌, inl, inr, refl, String, true, false, List, [], ◌∷◌, ◌++◌, length, not, ◌&&◌,
  ◌||◌, if◌then◌else◌, arith, Bool-cases, str_eq, eq_iff, eq_refl,
}
use arctic_rss.Chat.Abuse.{has}
use arctic_rss.Chat.Socket.{add, delete}

pub str_eq_refl : (a : String) → str_eq a a ≡ true
str_eq_refl a = eq_refl a

pub str_eq_sound : (a b : String) → str_eq a b ≡ true → a ≡ b
str_eq_sound a b h = (eq_iff a b).0 h

-- No room stands twice.
abbrev pub IsDistinct : List String → Type 0
IsDistinct [] = Unit
IsDistinct (r ∷ rs) = (has r rs ≡ false) × IsDistinct rs

abbrev pub IsWithin : List String → List String → Type 0
IsWithin xs ys = (r : String) → has r xs ≡ true → has r ys ≡ true

drop_one : String → List String → List String
drop_one r [] = []
drop_one r (y ∷ ys) = if str_eq r y then ys else y ∷ drop_one r ys

length-drop_one :
    (r : String) (ys : List String) → has r ys ≡ true → length ys ≡ suc (length (drop_one r ys))
unfolding drop_one
length-drop_one r [] h = cc
length-drop_one r (y ∷ ys) h = ground (arith, length-drop_one r ys)

has-drop_one :
    (q r : String) (ys : List String)
    → str_eq q r ≡ false
    → has q ys ≡ true
    → has q (drop_one r ys) ≡ true
unfolding drop_one
has-drop_one q r [] ne h = cc
has-drop_one q r (y ∷ ys) ne h = elim (Bool-cases (str_eq r y)) [
  | inl same ↦
      let e = str_eq_sound r y same in
      let ne' : str_eq q y ≡ false = rw e at ne in ground (arith, ne')
  | inr other ↦ ground (arith, has-drop_one q r ys ne)
]

-- A room in a list and a room outside it differ.
has_apart :
    (r x : String) (xs : List String) → has x xs ≡ false → has r xs ≡ true → str_eq r x ≡ false
has_apart r x xs new h = elim (Bool-cases (str_eq r x)) [
  | inl same ↦ let e = str_eq_sound r x same in let h' : has x xs ≡ true = rw e at h in cc
  | inr other ↦ other
]

pub distinct_length : (xs ys : List String) → IsDistinct xs → IsWithin xs ys → length xs ≤ length ys
distinct_length [] ys d w = omega arith
distinct_length (x ∷ xs) ys (new, d) w =
    let inside = w x (rw (str_eq_refl x)) in
    let rest : IsWithin xs (drop_one x ys) =
      λ r h. has-drop_one r x ys (has_apart r x xs new h) (w r (ground (arith, h))) in
    let bound = distinct_length xs (drop_one x ys) d rest in
    omega (arith, bound, length-drop_one x ys inside)

has-append : (r x : String) (xs : List String) → has r (xs ++ x ∷ []) ≡ (has r xs || str_eq r x)
has-append r x [] = ground arith
has-append r x (y ∷ xs) = ground (arith, has-append r x xs)

pub has-concat : (r : String) (xs ys : List String) → has r (xs ++ ys) ≡ (has r xs || has r ys)
has-concat r [] ys = refl
has-concat r (x ∷ xs) ys = ground (arith, has-concat r xs ys)

pub length-concat : (xs ys : List String) → length (xs ++ ys) ≡ length xs + length ys
length-concat [] ys = omega arith
length-concat (x ∷ xs) ys = omega (arith, length-concat xs ys)

has-delete :
    (r x : String) (xs : List String) → has r (delete x xs) ≡ (has r xs && not (str_eq x r))
has-delete r x [] = refl
has-delete r x (y ∷ xs) = elim (Bool-cases (str_eq r y)) [
  | inl same ↦
      let e = str_eq_sound r y same in
      let same' : str_eq x y ≡ str_eq x r = rw e refl in
      ground (arith, has-delete r x xs, same, same')
  | inr other ↦ ground (arith, has-delete r x xs, other)
]

str_eq_swap : (a b : String) → str_eq a b ≡ false → str_eq b a ≡ false
str_eq_swap a b h = elim (Bool-cases (str_eq b a)) [
  | inl same ↦
      let e = str_eq_sound b a same in
      let h' : str_eq a a ≡ false = rw e at h in ground (arith, str_eq_refl a, h')
  | inr other ↦ other
]

append-IsDistinct :
    (x : String) (xs : List String) → has x xs ≡ false → IsDistinct xs → IsDistinct (xs ++ x ∷ [])
append-IsDistinct x [] new d = (refl, tt)
append-IsDistinct x (y ∷ xs) new (new', d) = (
  ground (arith, has-append y x xs, new, new', str_eq_swap x y),
  append-IsDistinct x xs (ground (arith, new)) d,
)

pub add-IsDistinct : (x : String) (xs : List String) → IsDistinct xs → IsDistinct (add x xs)
add-IsDistinct x xs d = elim (Bool-cases (has x xs)) [
  | inl there ↦ rw there d
  | inr new ↦ rw new (append-IsDistinct x xs new d)
]

pub delete-IsDistinct : (x : String) (xs : List String) → IsDistinct xs → IsDistinct (delete x xs)
delete-IsDistinct x [] d = tt
delete-IsDistinct x (y ∷ xs) (new, d) = elim (Bool-cases (str_eq x y)) [
  | inl same ↦ rw same (delete-IsDistinct x xs d)
  | inr other ↦
      let absent : has y (delete x xs) ≡ false = ground (arith, has-delete y x xs, new) in
      rw other (absent, delete-IsDistinct x xs d)
]

pub add-IsWithin :
    (x : String) (xs ys : List String) → IsWithin xs ys → has x ys ≡ true → IsWithin (add x xs) ys
add-IsWithin x xs ys w h r k = elim (Bool-cases (has x xs)) [
  | inl there ↦ w r (rw there at k)
  | inr new ↦
      let k' : has r (xs ++ x ∷ []) ≡ true = rw new at k in
      elim (Bool-cases (has r xs)) [
        | inl old ↦ w r old
        | inr fresh ↦
            let same : str_eq r x ≡ true = ground (arith, has-append r x xs, k', fresh) in
            rw (str_eq_sound r x same) h
      ]
]

pub delete-IsWithin :
    (x : String) (xs ys : List String) → IsWithin xs ys → IsWithin (delete x xs) ys
delete-IsWithin x xs ys w r h = let e = has-delete r x xs in w r (ground arith)
