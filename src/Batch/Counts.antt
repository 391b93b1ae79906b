-- ===== src/Batch/Counts.antt =====
-- The items without duplicates, and how many are new or changed.
use arctic_rss.Prelude.{
  ℕ, suc, ◌+◌, ◌≤◌, ◌≡◌, refl, ap, subst, inl, inr, Bool, false, Option, none, some, List, [], ◌∷◌,
  ◌++◌, if◌then◌else◌, length, keep, Text, text_eq, text_eq_sound, arith, Bool-cases, Option-cases,
}
use arctic_rss.Batch.{
  Item, Existing, set_item, set_items, deduplicate_by_external_id, is_new, is_changed, inserted,
}
use arctic_rss.Batch.Chunks.{concat}

abbrev pub find_item : Text → List Item → Option Item
find_item key [] = none
find_item key (x ∷ xs) =
    let rest = find_item key xs in if text_eq x.external_id key then some x else rest

-- The last item of a key.
abbrev pub last_item : Text → List Item → Option Item
last_item key [] = none
last_item key (x ∷ xs) = elim (last_item key xs) [
  | some y ↦ some y
  | none ↦ if text_eq x.external_id key then some x else none
]

find_item-set_item :
    (key : Text) (item : Item) (xs : List Item)
    → find_item key (set_item item xs)
      ≡ (if text_eq item.external_id key then some item else find_item key xs)
unfolding set_item
find_item-set_item key item [] = refl
find_item-set_item key item (x ∷ xs) = elim (Bool-cases (text_eq x.external_id item.external_id)) [
  | inl same ↦
      let e = text_eq_sound x.external_id item.external_id same in
      let eq : text_eq x.external_id key ≡ text_eq item.external_id key =
        ap (λ k. text_eq k key) e in
      ground (arith, same, eq)
  | inr other ↦
      let rest = find_item-set_item key item xs in
      elim (Bool-cases (text_eq item.external_id key)) [
        | inl h ↦
            let e = text_eq_sound item.external_id key h in
            let apart : text_eq x.external_id key ≡ false =
              subst (λ k. text_eq x.external_id k ≡ false) e other in
            ground (arith, rest, other, h, apart)
        | inr h ↦ ground (arith, rest, other, h)
      ]
]

length-set_item : (item : Item) (xs : List Item) → length (set_item item xs) ≤ suc (length xs)
unfolding set_item
length-set_item item [] = omega arith
length-set_item item (x ∷ xs) = ground (arith, length-set_item item xs)

length-set_items :
    (items unique : List Item) → length (set_items items unique) ≤ length items + length unique
unfolding set_items
length-set_items [] unique = omega arith
length-set_items (item ∷ items) unique =
    let l = length-set_items items (set_item item unique) in
    omega (arith, l, length-set_item item unique)

find_item-set_items :
    (key : Text) (items unique : List Item)
    → find_item key (set_items items unique) ≡ elim (last_item key items) as (λ x. Option Item) [
      | some y ↦ some y
      | none ↦ find_item key unique
    ]
unfolding set_items
find_item-set_items key [] unique = refl
find_item-set_items key (item ∷ items) unique =
    let rest = find_item-set_items key items (set_item item unique) in
    let first = find_item-set_item key item unique in
    elim (Option-cases (last_item key items)) [
      | inl e ↦ ground (arith, rest, first, e)
      | inr (y, e) ↦ ground (arith, rest, first, e)
    ]

pub deduplicate-last :
    (key : Text) (items : List Item)
    → find_item key (deduplicate_by_external_id items) ≡ last_item key items
deduplicate-last key items = elim (Option-cases (last_item key items)) [
  | inl e ↦ ground (arith, find_item-set_items key items [], e)
  | inr (y, e) ↦ ground (arith, find_item-set_items key items [], e)
]

pub length-deduplicate :
    (items : List Item) → length (deduplicate_by_external_id items) ≤ length items
length-deduplicate items = let l = length-set_items items [] in omega (arith, l)

length_append : (xs ys : List Item) → length (xs ++ ys) ≡ length xs + length ys
length_append [] ys = omega arith
length_append (x ∷ xs) ys = let l = length_append xs ys in omega (arith, l)

-- If `createMany` counts the items of a batch, then all items are counted.
pub inserted-length :
    (count : List Item → ℕ) (batches : List (List Item))
    → ((batch : List Item) → count batch ≡ length batch)
    → inserted count batches ≡ length (concat batches)
unfolding inserted
inserted-length count [] h = refl
inserted-length count (b ∷ bs) h =
    let rest = inserted-length count bs h in omega (arith, h b, rest, length_append b (concat bs))

module _ (find_existing : Text → Option Existing) (should_update : Existing → Item → Bool) where
  pub new-changed :
      (xs : List Item)
      → length (keep (is_new find_existing should_update) xs)
          + length (keep (is_changed find_existing should_update) xs)
        ≤ length xs
  new-changed [] = omega arith
  new-changed (x ∷ xs) = elim (Option-cases (find_existing x.external_id)) [
    | inl e ↦ ground (arith, e, new-changed xs)
    | inr (old, e) ↦ ground (arith, e, new-changed xs)
  ]
