-- ===== src/Batch/Order.antt =====
-- The order of the items without duplicates.
use arctic_rss.Prelude.{
  ◌≡◌, refl, sym, ◌∙◌, ap, subst, inl, inr, Bool, true, false, List, [], ◌∷◌, ◌++◌, ◌&&◌, ◌||◌, not,
  keep, any, map, Text, text_eq, text_eq_refl, text_eq_sound, arith, Bool-cases,
}
use arctic_rss.Batch.{Item, set_item, set_items, deduplicate_by_external_id}

abbrev pub without : Text → List Text → List Text
without key keys = keep (λ k. not (text_eq k key)) keys

-- The keys of the items, each where it stands first.
abbrev pub first_keys : List Item → List Text
first_keys [] = []
first_keys (x ∷ xs) = x.external_id ∷ without x.external_id (first_keys xs)

abbrev pub keys_of : List Item → List Text
keys_of items = map (λ item. item.external_id) items

abbrev stands : Text → List Text → Bool
stands key keys = any (λ k. text_eq k key) keys

-- No key stands twice.
abbrev pub distinct : List Text → Bool
distinct [] = true
distinct (k ∷ ks) = not (stands k ks) && distinct ks

-- The keys that do not stand among others.
abbrev beyond : List Text → List Text → List Text
beyond others keys = keep (λ k. not (stands k others)) keys

stands-append :
    (key j : Text) (keys : List Text)
    → stands key (keys ++ j ∷ []) ≡ (stands key keys || text_eq j key)
stands-append key j [] = ground arith
stands-append key j (k ∷ keys) = ground (arith, stands-append key j keys)

append_assoc : (xs : List Text) (k : Text) (ys : List Text) → (xs ++ k ∷ []) ++ ys ≡ xs ++ k ∷ ys
append_assoc [] k ys = refl
append_assoc (x ∷ xs) k ys = ap (λ zs. x ∷ zs) (append_assoc xs k ys)

append_nil : (xs : List Text) → xs ++ [] ≡ xs
append_nil [] = refl
append_nil (x ∷ xs) = ap (λ zs. x ∷ zs) (append_nil xs)

keys-set_item_old :
    (item : Item) (xs : List Item)
    → stands item.external_id (keys_of xs) ≡ true
    → keys_of (set_item item xs) ≡ keys_of xs
unfolding set_item
keys-set_item_old item [] h = absurd (ground (arith, h))
keys-set_item_old item (x ∷ xs) h = elim (Bool-cases (text_eq x.external_id item.external_id)) [
  | inl same ↦
      let e = text_eq_sound x.external_id item.external_id same in
      rw (set_item, same) (ap (λ k. k ∷ keys_of xs) (sym e))
  | inr other ↦
      let rest = keys-set_item_old item xs (ground (arith, h, other)) in
      rw (set_item, other) (ap (λ ks. x.external_id ∷ ks) rest)
]

keys-set_item_new :
    (item : Item) (xs : List Item)
    → stands item.external_id (keys_of xs) ≡ false
    → keys_of (set_item item xs) ≡ keys_of xs ++ item.external_id ∷ []
unfolding set_item
keys-set_item_new item [] h = refl
keys-set_item_new item (x ∷ xs) h =
    let other : text_eq x.external_id item.external_id ≡ false = ground (arith, h) in
    let rest = keys-set_item_new item xs (ground (arith, h)) in
    rw (set_item, other) (ap (λ ks. x.external_id ∷ ks) rest)

-- A key that stands among the others may be left out before.
beyond-without_old :
    (others : List Text) (key : Text) (keys : List Text)
    → stands key others ≡ true
    → beyond others (without key keys) ≡ beyond others keys
beyond-without_old others key [] h = refl
beyond-without_old others key (k ∷ keys) h =
    let rest = beyond-without_old others key keys h in
    elim (Bool-cases (text_eq k key)) [
      | inl same ↦
          let there : stands k others ≡ true =
            subst (λ t. stands t others ≡ true) (sym (text_eq_sound k key same)) h in
          rw (same, there) rest
      | inr other ↦ elim (Bool-cases (stands k others)) [
        | inl there ↦ rw (other, there) rest
        | inr free ↦ rw (other, free) (ap (λ ks. k ∷ ks) rest)
      ]
    ]

text_eq_sym : (s t : Text) → text_eq s t ≡ text_eq t s
text_eq_sym s t = elim (Bool-cases (text_eq s t)) [
  | inl same ↦
      let e = text_eq_sound s t same in
      same ∙ sym (subst (λ x. text_eq t x ≡ true) (sym e) (text_eq_refl t))
  | inr other ↦ elim (Bool-cases (text_eq t s)) [
    | inl same ↦
        let e = text_eq_sound t s same in
        let back : text_eq s t ≡ true = subst (λ x. text_eq s x ≡ true) (sym e) (text_eq_refl s) in
        absurd (ground (arith, back, other))
    | inr other' ↦ other ∙ sym other'
  ]
]

beyond-append :
    (others : List Text) (key : Text) (keys : List Text)
    → beyond (others ++ key ∷ []) keys ≡ beyond others (without key keys)
beyond-append others key [] = refl
beyond-append others key (k ∷ keys) =
    let rest = beyond-append others key keys in
    let step = stands-append k key others in
    let turned = text_eq_sym key k in
    elim (Bool-cases (text_eq k key)) [
      | inl same ↦
          let there : stands k (others ++ key ∷ []) ≡ true = ground (arith, step, turned, same) in
          rw (same, there) rest
      | inr other ↦ elim (Bool-cases (stands k others)) [
        | inl old ↦
            let there : stands k (others ++ key ∷ []) ≡ true = ground (arith, step, old) in
            rw (other, old, there) rest
        | inr free ↦
            let new : stands k (others ++ key ∷ []) ≡ false =
              ground (arith, step, turned, other, free) in
            rw (other, free, new) (ap (λ ks. k ∷ ks) rest)
      ]
    ]

keys-set_items :
    (items unique : List Item)
    → keys_of (set_items items unique)
      ≡ keys_of unique ++ beyond (keys_of unique) (first_keys items)
unfolding set_items
keys-set_items [] unique = sym (append_nil (keys_of unique))
keys-set_items (x ∷ xs) unique =
    let us = keys_of unique in
    let key = x.external_id in
    let firsts = first_keys xs in
    let later = keys-set_items xs (set_item x unique) in
    elim (Bool-cases (stands key us)) [
      | inl old ↦
          let same = keys-set_item_old x unique old in
          later
          ∙ ap (λ ks. ks ++ beyond ks firsts) same
          ∙ rw old (ap (λ ks. us ++ ks) (sym (beyond-without_old us key firsts old)))
      | inr new ↦
          let more = keys-set_item_new x unique new in
          later
          ∙ ap (λ ks. ks ++ beyond ks firsts) more
          ∙ append_assoc us key (beyond (us ++ key ∷ []) firsts)
          ∙ rw new (ap (λ ks. us ++ key ∷ ks) (beyond-append us key firsts))
    ]

beyond_nothing : (keys : List Text) → beyond [] keys ≡ keys
beyond_nothing [] = refl
beyond_nothing (k ∷ keys) = ap (λ ks. k ∷ ks) (beyond_nothing keys)

-- The items without duplicates stand in the order in which their keys came first.
pub deduplicate-first_keys :
    (items : List Item) → keys_of (deduplicate_by_external_id items) ≡ first_keys items
deduplicate-first_keys items = keys-set_items items [] ∙ beyond_nothing (first_keys items)

stands-without :
    (j key : Text) (keys : List Text) → stands j keys ≡ false → stands j (without key keys) ≡ false
stands-without j key [] h = refl
stands-without j key (k ∷ keys) h = ground (arith, h, stands-without j key keys)

without-gone : (key : Text) (keys : List Text) → stands key (without key keys) ≡ false
without-gone key [] = refl
without-gone key (k ∷ keys) = ground (arith, without-gone key keys)

distinct-without :
    (key : Text) (keys : List Text) → distinct keys ≡ true → distinct (without key keys) ≡ true
distinct-without key [] h = refl
distinct-without key (k ∷ keys) h =
    ground (arith, h, distinct-without key keys, stands-without k key keys)

first_keys-distinct : (items : List Item) → distinct (first_keys items) ≡ true
first_keys-distinct [] = refl
first_keys-distinct (x ∷ xs) = ground (
  arith,
  without-gone x.external_id (first_keys xs),
  distinct-without x.external_id (first_keys xs) (first_keys-distinct xs),
)

-- No two of the items without duplicates have the same key.
pub deduplicate-distinct :
    (items : List Item) → distinct (keys_of (deduplicate_by_external_id items)) ≡ true
deduplicate-distinct items =
    subst (λ ks. distinct ks ≡ true) (sym (deduplicate-first_keys items))
      (first_keys-distinct items)
