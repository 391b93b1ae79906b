-- ===== src/Backup/Order.antt =====
-- The order of identifiers, and the list that is sorted by it.
use arctic_rss.Prelude.{
  ℕ, suc, ◌≡◌, refl, inl, inr, Bool, true, false, some, List, [], ◌∷◌, keep, take, length, All,
  Text, text_eq, text_eq_sound, Bool-cases, Option-cases, arith,
}
use arctic_rss.Backup.{BackupPruneRecord, text_ltb, insert, sort, find_index, find_newer}

pub text_ltb_irrefl : (a : Text) → text_ltb a a ≡ false
unfolding text_ltb
text_ltb_irrefl [] = refl
text_ltb_irrefl (x ∷ a) = ground (arith, text_ltb_irrefl a)

text_ltb_asym : (a b : Text) → text_ltb a b ≡ true → text_ltb b a ≡ false
unfolding text_ltb
text_ltb_asym [] [] h = refl
text_ltb_asym [] (y ∷ b) h = refl
text_ltb_asym (x ∷ a) [] h = cc
text_ltb_asym (x ∷ a) (y ∷ b) h = ground (arith, text_ltb_asym a b)

text_ltb_nil : (a : Text) → text_ltb a [] ≡ false
unfolding text_ltb
text_ltb_nil [] = refl
text_ltb_nil (x ∷ a) = refl

-- Not less, twice.
text_ltb_trans : (a b c : Text) → text_ltb a b ≡ false → text_ltb b c ≡ false → text_ltb a c ≡ false
unfolding text_ltb
text_ltb_trans a b [] h k = text_ltb_nil a
text_ltb_trans [] [] (z ∷ c) h k = cc
text_ltb_trans [] (y ∷ b) (z ∷ c) h k = cc
text_ltb_trans (x ∷ a) [] (z ∷ c) h k = cc
text_ltb_trans (x ∷ a) (y ∷ b) (z ∷ c) h k = ground (arith, text_ltb_trans a b c)

text_ltb_total : (a b : Text) → text_ltb a b ≡ false → text_eq a b ≡ false → text_ltb b a ≡ true
unfolding text_ltb text_eq
text_ltb_total [] [] h k = cc
text_ltb_total [] (y ∷ b) h k = cc
text_ltb_total (x ∷ a) [] h k = refl
text_ltb_total (x ∷ a) (y ∷ b) h k = ground (arith, text_ltb_total a b)

-- The first record is at least as new as the others, and so on.
abbrev AtMost : Text → BackupPruneRecord → Type 0
AtMost t y = text_ltb t y.backup_id ≡ false

abbrev pub IsDescending : List BackupPruneRecord → Type 0
IsDescending [] = Unit
IsDescending (x ∷ xs) = All (AtMost x.backup_id) xs × IsDescending xs

AtMost-lower :
    (t u : Text) (xs : List BackupPruneRecord)
    → text_ltb t u ≡ false
    → All (AtMost u) xs
    → All (AtMost t) xs
AtMost-lower t u [] h all = tt
AtMost-lower t u (x ∷ xs) h (k, all) =
    (text_ltb_trans t u x.backup_id h k, AtMost-lower t u xs h all)

insert-AtMost :
    (t : Text) (r : BackupPruneRecord) (xs : List BackupPruneRecord)
    → AtMost t r
    → All (AtMost t) xs
    → All (AtMost t) (insert r xs)
unfolding insert
insert-AtMost t r [] h all = (h, tt)
insert-AtMost t r (x ∷ xs) h (k, all) = elim (Bool-cases (text_ltb r.backup_id x.backup_id)) [
  | inl newer ↦ rw newer (k, insert-AtMost t r xs h all)
  | inr older ↦ rw older (h, (k, all))
]

insert-IsDescending :
    (r : BackupPruneRecord) (xs : List BackupPruneRecord)
    → IsDescending xs
    → IsDescending (insert r xs)
unfolding insert
insert-IsDescending r [] d = (tt, tt)
insert-IsDescending r (x ∷ xs) (all, d) = elim (Bool-cases (text_ltb r.backup_id x.backup_id)) [
  | inl newer ↦
      rw newer
        (insert-AtMost x.backup_id r xs (text_ltb_asym _ _ newer) all, insert-IsDescending r xs d)
  | inr older ↦ rw older ((older, AtMost-lower r.backup_id x.backup_id xs older all), (all, d))
]

pub sort-IsDescending : (xs : List BackupPruneRecord) → IsDescending (sort xs)
unfolding sort
sort-IsDescending [] = tt
sort-IsDescending (x ∷ xs) = insert-IsDescending x (sort xs) (sort-IsDescending xs)

-- How many records are newer.
abbrev pub count_newer : Text → List BackupPruneRecord → ℕ
count_newer t xs = length (keep (λ (x : BackupPruneRecord). text_ltb t x.backup_id) xs)

length-keep-insert :
    (p : BackupPruneRecord → Bool) (r : BackupPruneRecord) (xs : List BackupPruneRecord)
    → length (keep p (insert r xs)) ≡ length (keep p (r ∷ xs))
unfolding insert
length-keep-insert p r [] = refl
length-keep-insert p r (x ∷ xs) = ground (arith, length-keep-insert p r xs)

pub length-keep-sort :
    (p : BackupPruneRecord → Bool) (xs : List BackupPruneRecord)
    → length (keep p (sort xs)) ≡ length (keep p xs)
unfolding sort
length-keep-sort p [] = refl
length-keep-sort p (x ∷ xs) =
    ground (arith, length-keep-insert p x (sort xs), length-keep-sort p xs)

length-insert :
    (r : BackupPruneRecord) (xs : List BackupPruneRecord) → length (insert r xs) ≡ suc (length xs)
unfolding insert
length-insert r [] = refl
length-insert r (x ∷ xs) = ground (arith, length-insert r xs)

pub length-sort : (xs : List BackupPruneRecord) → length (sort xs) ≡ length xs
unfolding sort
length-sort [] = refl
length-sort (x ∷ xs) = ground (arith, length-insert x (sort xs), length-sort xs)

pub count_newer-AtMost :
    (t : Text) (xs : List BackupPruneRecord) → All (AtMost t) xs → count_newer t xs ≡ 0
count_newer-AtMost t [] all = refl
count_newer-AtMost t (x ∷ xs) (h, all) = ground (arith, count_newer-AtMost t xs all)

-- Where an identifier is found, the first of a descending list is it, or newer.
head_newer :
    (t : Text) (x : BackupPruneRecord) (xs : List BackupPruneRecord) {i : ℕ}
    → find_index t xs ≡ some i
    → All (AtMost x.backup_id) xs
    → text_ltb x.backup_id t ≡ false
unfolding find_index
head_newer t x [] h all = cc
head_newer t x (y ∷ ys) h (k, all) = elim (Bool-cases (text_eq y.backup_id t)) [
  | inl same ↦ rw (text_eq_sound y.backup_id t same) at k
  | inr other ↦ elim (Option-cases (find_index t ys)) [
    | inl e ↦ ground arith
    | inr (j, e) ↦ head_newer t x ys e all
  ]
]

-- In a descending list, the first position of an identifier is the number of newer records.
pub find_index-count_newer :
    (t : Text) (xs : List BackupPruneRecord) {i : ℕ}
    → IsDescending xs
    → find_index t xs ≡ some i
    → i ≡ count_newer t xs
unfolding find_index
find_index-count_newer t [] d h = cc
find_index-count_newer t (x ∷ xs) (all, d) h = elim (Bool-cases (text_eq x.backup_id t)) [
  | inl same ↦
      let e = text_eq_sound x.backup_id t same in
      let all' : All (AtMost t) xs = rw e at all in
      let same' : text_ltb t x.backup_id ≡ false = rw e (text_ltb_irrefl t) in
      ground (arith, count_newer-AtMost t xs all')
  | inr other ↦ elim (Option-cases (find_index t xs)) [
    | inl e ↦ ground arith
    | inr (j, e) ↦
        let newer = text_ltb_total x.backup_id t (head_newer t x xs e all) other in
        ground (arith, find_index-count_newer t xs d e)
  ]
]

-- A record before the first position of an identifier is newer, so that a replacement is found.
pub find_newer-IsSome :
    (t : Text) (xs : List BackupPruneRecord) {i : ℕ} (n : ℕ)
    → IsDescending xs
    → find_index t xs ≡ some i
    → i ≡ suc n
    → (r : BackupPruneRecord) × (find_newer t (take (suc n) xs) ≡ some r)
unfolding find_index find_newer
find_newer-IsSome t [] n d h eq = cc
find_newer-IsSome t (x ∷ xs) n (all, d) h eq = elim (Bool-cases (text_eq x.backup_id t)) [
  | inl same ↦ ground arith
  | inr other ↦ elim (Option-cases (find_index t xs)) [
    | inl e ↦ ground arith
    | inr (j, e) ↦
        let newer = text_ltb_total x.backup_id t (head_newer t x xs e all) other in
        (x, rw newer refl)
  ]
]
