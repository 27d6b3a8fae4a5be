-- ===== src/MemoryTool/Kept.antt =====
-- What elite_memory (core/tools/gateway.py) keeps in the memory.
use elite_reasoning_mcp.Prelude.{
  ℕ, String, ◌≡◌, ◌≢◌, refl, ap, ◌∙◌, true, not, inl, inr, Option, none, some, List, [], ◌∷◌, ◌++◌,
  map, arith, any, keep, first, ltb, Bool-cases, Option-cases, str_eq, is_empty, is_blank, strip,
  lower,
}
use elite_reasoning_mcp.Memory.{
  Privacy, Item, NewItem, Table, same_hash, overwrite, item_row, stored_content, put_item,
  record_memory_item, has_id, approve_memory_item, delete_memory_item,
}
use elite_reasoning_mcp.MemoryTool.{
  Library, MemoryRequest, search, new_item, remembered, remember, approve, forget, associative,
  elite_memory,
}

-- An item with this number is stored.
abbrev pub Holds : ℕ → Table → Type 0
Holds i t = any (has_id i) t.items ≡ true

any-map :
    (i : ℕ) (f : Item → Item) (xs : List Item)
    → ((x : Item) → (f x).id ≡ x.id)
    → any (has_id i) (map f xs) ≡ any (has_id i) xs
any-map i f [] h = refl
any-map i f (x ∷ xs) h = rw (h x, any-map i f xs h) refl

any-append_left :
    (i : ℕ) (xs ys : List Item) → any (has_id i) xs ≡ true → any (has_id i) (xs ++ ys) ≡ true
any-append_left i [] ys h = absurd (ground arith)
any-append_left i (x ∷ xs) ys h = ground (arith, any-append_left i xs ys)

any-keep_ne :
    (i j : ℕ) (xs : List Item)
    → j ≢ i
    → any (has_id i) xs ≡ true
    → any (has_id i) (keep (λ x. not (has_id j x)) xs) ≡ true
any-keep_ne i j [] ne h = absurd (ground arith)
any-keep_ne i j (x ∷ xs) ne h = ground (arith, any-keep_ne i j xs ne)

put_item-Holds : (i : ℕ) (row : Item) (t : Table) → Holds i t → Holds i (put_item row t).1
unfolding put_item overwrite
put_item-Holds i row t h = elim (Option-cases (first (same_hash row) t.items)) [
  | inl e ↦ rw (e, put_item) (any-append_left i t.items (row ∷ []) h)
  | inr (found, e) ↦ rw (e, put_item) (any-map i (overwrite row) t.items (λ x. ground arith) ∙ h)
]

approve-Holds :
    (i : ℕ) (now : String) (memory_id trust : ℕ) (t : Table)
    → Holds i t
    → Holds i (approve_memory_item now memory_id trust t).1
unfolding approve_memory_item
approve-Holds i now memory_id trust t h = any-map i _ t.items (λ x. ground arith) ∙ h

-- The request asks for the confirmed deletion of this item.
pub record Forgets (request : MemoryRequest) (i : ℕ) : Type 0 where
  pub action : str_eq (lower (strip request.action)) "forget" ≡ true
  pub confirmed : request.confirm ≡ true
  pub named : request.memory_id ≡ i

module _ (lib : Library) (now : String) (request : MemoryRequest) (t : Table) (i : ℕ)
    (h : Holds i t) where
  record-Holds :
      (p : Privacy) (at : String) (new : NewItem) (n : ℕ) (after : Table)
      → record_memory_item p at new t ≡ some (n, after)
      → Holds i after
  unfolding record_memory_item
  record-Holds p at new n after e = elim (Bool-cases (is_empty (stored_content new))) [
    | inl k ↦ absurd (ground arith)
    | inr k ↦
        let same : some (put_item (item_row p at t.next_id new) t) ≡ some (n, after) =
          rw (k, record_memory_item) at e in
        let table : (put_item (item_row p at t.next_id new) t).1 ≡ after =
          ap (λ o. elim o [ none ↦ t | some x ↦ x.1 ]) same in
        rw (← table) (put_item-Holds i (item_row p at t.next_id new) t h)
  ]

  remembered-Holds :
      (made : Option (ℕ × Table))
      → ((n : ℕ) (after : Table) → made ≡ some (n, after) → Holds i after)
      → Holds i (remembered lib now request t made).1
  unfolding remembered
  remembered-Holds none f = h
  remembered-Holds (some (n, after)) f = f n after refl

  remember-Holds : Holds i (remember lib now request t).1
  unfolding remember
  remember-Holds = elim (Bool-cases (is_blank request.content)) [
    | inl e ↦ rw e h
    | inr e ↦ rw e (
        remembered-Holds (record_memory_item lib.privacy now (new_item lib now request t) t)
          (record-Holds lib.privacy now (new_item lib now request t)))
  ]

  approve-Holds_reply : Holds i (approve lib now request t).1
  unfolding approve
  approve-Holds_reply =
      let kept = approve-Holds i now request.memory_id request.trust_score t h in
      elim (Bool-cases (ltb request.memory_id 1)) [
        | inl e ↦ rw e h
        | inr e ↦
            rw e
              (elim (Bool-cases
                (approve_memory_item now request.memory_id request.trust_score t).0) [
                  | inl a ↦ rw a kept
                  | inr a ↦ rw a kept
                ])
      ]

  forget-Holds :
      (request.confirm ≡ true → request.memory_id ≡ i → ⊥) → Holds i (forget lib now request t).1
  unfolding forget delete_memory_item
  forget-Holds other = elim (Bool-cases (ltb request.memory_id 1)) [
    | inl e ↦ rw e h
    | inr e ↦ rw e (elim (Bool-cases request.confirm) [
      | inr c ↦ rw c h
      | inl c ↦
          let kept = any-keep_ne i request.memory_id t.items (other c) h in
          rw c (elim (Bool-cases (any (has_id request.memory_id) t.items)) [
            | inl a ↦ rw a kept
            | inr a ↦ rw a kept
          ])
    ])
  ]

  -- A call of elite_memory, whatever its action and its outcome, keeps each item that is stored, but
  -- for the one item that a confirmed forget names.
  pub elite_memory-Holds : (Forgets request i → ⊥) → Holds i (elite_memory lib now request t).1
  unfolding elite_memory search associative
  elite_memory-Holds other = elim (Bool-cases (str_eq (lower (strip request.action)) "search")) [
    | inl a ↦ rw a h
    | inr a ↦ rw a (elim (Bool-cases (str_eq (lower (strip request.action)) "remember")) [
      | inl b ↦ rw b remember-Holds
      | inr b ↦ rw b (elim (Bool-cases (str_eq (lower (strip request.action)) "approve")) [
        | inl c ↦ rw c approve-Holds_reply
        | inr c ↦ rw c (elim (Bool-cases (str_eq (lower (strip request.action)) "forget")) [
          | inl d ↦
              rw d (forget-Holds (λ k m. other (record { action = d; confirmed = k; named = m })))
          | inr d ↦ rw d (elim (Bool-cases (str_eq (lower (strip request.action)) "associative")) [
            | inl e ↦ rw e h
            | inr e ↦ rw e h
          ])
        ])
      ])
    ])
  ]
