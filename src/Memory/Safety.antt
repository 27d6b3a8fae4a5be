-- ===== src/Memory/Safety.antt =====
-- What the quarantine of core/memory/persistent_store.py guarantees of the memory items, through
-- every write of the table.
use Prim.Native.Nat.{min}
use elite_reasoning_mcp.Prelude.{
  ℕ, ◌≤◌, String, ◌≡◌, refl, Bool, true, false, not, ◌&&◌, is_empty, none, some, List, [], ◌∷◌, max,
  arith, All, All-append, All-imp, All-keep, Bool-cases, Option-cases, inl, inr, first, lower,
  if◌then◌else◌,
}
use elite_reasoning_mcp.Prelude.Nil.{All-elem, All-map}
use elite_reasoning_mcp.Memory.{
  Privacy, Item, NewItem, Table, is_sensitive, sensitive_memory_classes, item_row, same_hash,
  overwrite, put_item, record_memory_item, stored_content, is_approvable, approve_memory_item,
  has_id, delete_memory_item,
}

-- An item that is not quarantined is trusted, and of no sensitive class.
pub record IsSafe (x : Item) : Type 0 where
  pub insensitive : x.quarantined ≡ false → is_sensitive x.privacy_class ≡ false
  pub trusted : x.quarantined ≡ false → 50 ≤ x.trust_score

abbrev pub TableSafe : Table → Type 0
TableSafe t = All IsSafe t.items

item_row-IsSafe :
    (p : Privacy) (now : String) (id : ℕ) (new : NewItem) → IsSafe (item_row p now id new)
unfolding item_row
item_row-IsSafe p now id new = record {
  insensitive = λ h. ground arith;
  trusted = λ h. ground arith;
}

overwrite-IsSafe : (row x : Item) → IsSafe row → IsSafe x → IsSafe (overwrite row x)
unfolding overwrite
overwrite-IsSafe row x r h = elim (Bool-cases (same_hash row x)) [
  | inl e ↦ rw e (record { insensitive = r.insensitive; trusted = r.trusted })
  | inr e ↦ rw e h
]

put_item-TableSafe :
    (row : Item) (t : Table) → IsSafe row → TableSafe t → TableSafe (put_item row t).1
unfolding put_item
put_item-TableSafe row t r h = elim (Option-cases (first (same_hash row) t.items)) [
  | inl e ↦ rw (e, put_item) (All-append IsSafe t.items (row ∷ []) h (r, tt))
  | inr (found, e) ↦
      rw (e, put_item)
        ((All-map (overwrite row) IsSafe t.items).1
          (All-imp IsSafe _ t.items (λ x k. overwrite-IsSafe row x r k) h))
]

-- Lower case does not take a class out of the sensitive ones.
is_sensitive-lower : (s : String) → is_sensitive (lower s) ≡ false → is_sensitive s ≡ false
unfolding is_sensitive lower
is_sensitive-lower s h = elim (Bool-cases (is_sensitive s)) [
  | inr e ↦ e
  | inl e ↦
      let k : is_sensitive (lower s) ≡ true =
        All-elem (λ c. is_sensitive (lower c) ≡ true) s sensitive_memory_classes e
          (refl, (refl, (refl, (refl, (refl, (refl, tt)))))) in
      absurd (ground arith)
]

conjuncts : (a b c : Bool) → (a && b && not c) ≡ true → c ≡ false
conjuncts a b c h = ground arith

approvable :
    (memory_id : ℕ) (x : Item)
    → is_approvable memory_id x ≡ true
    → is_sensitive (lower x.privacy_class) ≡ false
unfolding is_approvable
approvable memory_id x h =
    conjuncts (has_id memory_id x) x.quarantined (is_sensitive (lower x.privacy_class)) h

approved :
    (now : String) (trust : ℕ) (x : Item) (memory_id : ℕ)
    → IsSafe x
    → IsSafe (
        if is_approvable memory_id x
        then record x {
          quarantined = false;
          trust_score = max 50 (min 100 trust);
          updated_at = now;
        }
        else x)
approved now trust x memory_id h = elim (Bool-cases (is_approvable memory_id x)) [
  | inr e ↦ rw e h
  | inl e ↦ rw e (record {
    insensitive = λ q. is_sensitive-lower x.privacy_class (approvable memory_id x e);
    trusted = λ q. omega arith;
  })
]

-- A write of the table, at the time of its first argument.
pub data Write : Type 0 where
  remember : String → NewItem → Write
  approve : String → ℕ → ℕ → Write
  forget : ℕ → Write

-- The table after a write; one that raises leaves it as it is.
unfoldable pub write : Privacy → Write → Table → Table
unfolding record_memory_item approve_memory_item delete_memory_item
write p (remember now new) t = elim (record_memory_item p now new t) [ none ↦ t | some r ↦ r.1 ]
write p (approve now memory_id trust) t = (approve_memory_item now memory_id trust t).1
write p (forget memory_id) t = (delete_memory_item memory_id t).1

unfoldable pub write_all : Privacy → List Write → Table → Table
unfolding write
write_all p [] t = t
write_all p (w ∷ ws) t = write_all p ws (write p w t)

write-TableSafe : (p : Privacy) (w : Write) (t : Table) → TableSafe t → TableSafe (write p w t)
unfolding write
write-TableSafe p (remember now new) t h = elim (Bool-cases (is_empty (stored_content new))) [
  | inl e ↦ rw (e, write) h
  | inr e ↦
      rw (e, write)
        (put_item-TableSafe (item_row p now t.next_id new) t (item_row-IsSafe p now t.next_id new)
          h)
]
write-TableSafe p (approve now memory_id trust) t h =
    (All-map _ IsSafe t.items).1
      (All-imp IsSafe _ t.items (λ x k. approved now trust x memory_id k) h)
write-TableSafe p (forget memory_id) t h = All-keep IsSafe (λ x. not (has_id memory_id x)) t.items h

-- After any sequence of writes, in any order and successful or not, that starts from a table in
-- which each item outside of the quarantine has a trust of at least one half and no sensitive
-- class (as an empty one), this still holds.
pub write_all-TableSafe :
    (p : Privacy) (ws : List Write) (t : Table) → TableSafe t → TableSafe (write_all p ws t)
unfolding write_all
write_all-TableSafe p [] t h = h
write_all-TableSafe p (w ∷ ws) t h =
    write_all-TableSafe p ws (write p w t) (write-TableSafe p w t h)
