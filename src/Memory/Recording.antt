-- ===== src/Memory/Recording.antt =====
-- Recording the same memory twice, and reading it, in core/memory/persistent_store.py.
use elite_reasoning_mcp.Prelude.{
  ℕ, String, ◌≡◌, refl, sym, ◌∙◌, ap, true, false, none, some, List, [], ◌∷◌, ◌++◌, map, arith,
  Bool-cases, Option-cases, inl, inr, first, length, length-map, str_eq_refl, is_empty,
}
use elite_reasoning_mcp.Memory.{
  Privacy, Item, NewItem, Table, item_row, same_hash, overwrite, put_item, record_memory_item,
  stored_content,
}

first-append :
    (row : Item) (xs : List Item)
    → first (same_hash row) xs ≡ none
    → first (same_hash row) (xs ++ row ∷ []) ≡ some row
first-append row [] h = ground (arith, str_eq_refl row.content_hash)
first-append row (x ∷ xs) h = ground (arith, first-append row xs)

same_hash-overwrite : (row x : Item) → same_hash row (overwrite row x) ≡ same_hash row x
unfolding overwrite
same_hash-overwrite row x = ground arith

first-overwrite :
    (row found : Item) (xs : List Item)
    → first (same_hash row) xs ≡ some found
    → first (same_hash row) (map (overwrite row) xs) ≡ some (overwrite row found)
first-overwrite row found [] h = absurd (ground arith)
first-overwrite row found (x ∷ xs) h = elim (Bool-cases (same_hash row x)) [
  | inl e ↦
      let k : some x ≡ some found = rw e at h in
      let q : x ≡ found = ground (arith, k) in
      rw (same_hash-overwrite row x, e) (ap (λ y. some (overwrite row y)) q)
  | inr e ↦
      let k : first (same_hash row) xs ≡ some found = rw e at h in
      rw (same_hash-overwrite row x, e) (first-overwrite row found xs k)
]

overwrite-id : (row x : Item) → (overwrite row x).id ≡ x.id
unfolding overwrite
overwrite-id row x = ground arith

-- After a row was put, a row of the same hash is found under the id that was returned.
put_item-found :
    (row : Item) (t : Table)
    → (x : Item) × (first (same_hash row) (put_item row t).1.items ≡ some x)
      × (x.id ≡ (put_item row t).0)
unfolding put_item
put_item-found row t = elim (Option-cases (first (same_hash row) t.items)) [
  | inl e ↦ (row, rw (e, put_item) (first-append row t.items e), rw (e, put_item) refl)
  | inr (found, e) ↦ (
    overwrite row found,
    rw (e, put_item) (first-overwrite row found t.items e),
    rw (e, put_item) (overwrite-id row found),
  )
]

put_item-known :
    (row x : Item) (t : Table)
    → first (same_hash row) t.items ≡ some x
    → put_item row t ≡ (x.id, record t { items = map (overwrite row) t.items })
unfolding put_item
put_item-known row x t e = rw (e, put_item) refl

put_again :
    (row row' : Item) (t s : Table) (id : ℕ)
    → row'.content_hash ≡ row.content_hash
    → put_item row t ≡ (id, s)
    → (s' : Table) × (put_item row' s ≡ (id, s')) × (length s'.items ≡ length s.items)
put_again row row' t s id same h =
    let (x, f, i) = put_item-found row t in
    let here : first (same_hash row) s.items ≡ some x =
      ap (λ r. first (same_hash row) r.1.items) (sym h) ∙ f in
    let known = put_item-known row' x s (rw same here) in
    (
      record s { items = map (overwrite row') s.items },
      known
          ∙ ap (λ n. (n, record s { items = map (overwrite row') s.items })) (i ∙ ap (λ r. r.0) h),
      length-map (overwrite row') s.items,
    )

some_injective {ℓ} : {A : Type ℓ} {x y : A} → some x ≡ some y → x ≡ y
some_injective {x} h = ap (λ o. elim o [ none ↦ x | some a ↦ a ]) h

item_row-content_hash :
    (p : Privacy) (now later : String) (i j : ℕ) (new : NewItem)
    → (item_row p later j new).content_hash ≡ (item_row p now i new).content_hash
unfolding item_row
item_row-content_hash p now later i j new = refl

record_memory_item-put :
    (p : Privacy) (now : String) (new : NewItem) (t : Table)
    → is_empty (stored_content new) ≡ false
    → record_memory_item p now new t ≡ some (put_item (item_row p now t.next_id new) t)
unfolding record_memory_item
record_memory_item-put p now new t e = rw e refl

record_memory_item-blank :
    (p : Privacy) (now : String) (new : NewItem) (t : Table)
    → is_empty (stored_content new) ≡ true
    → record_memory_item p now new t ≡ none
unfolding record_memory_item
record_memory_item-blank p now new t e = rw e refl

-- Recording the same memory again, at any later time, gives the id that it had and adds no row.
pub record-record_memory_item :
    (p : Privacy) (now later : String) (new : NewItem) (t s : Table) (id : ℕ)
    → record_memory_item p now new t ≡ some (id, s)
    → (s' : Table) × (record_memory_item p later new s ≡ some (id, s'))
      × (length s'.items ≡ length s.items)
record-record_memory_item p now later new t s id h =
    elim (Bool-cases (is_empty (stored_content new))) [
      | inl e ↦
          let k : none ≡ some (id, s) = sym (record_memory_item-blank p now new t e) ∙ h in
          absurd (ground (arith, k))
      | inr e ↦
          let k : some (put_item (item_row p now t.next_id new) t) ≡ some (id, s) =
            sym (record_memory_item-put p now new t e) ∙ h in
          let q : put_item (item_row p now t.next_id new) t ≡ (id, s) = some_injective k in
          let (s', g, n) =
            put_again (item_row p now t.next_id new) (item_row p later s.next_id new) t s id
              (item_row-content_hash p now later t.next_id s.next_id new) q in
          (s', record_memory_item-put p later new s e ∙ ap some g, n)
    ]
