-- ===== src/Reasoning/Links.antt =====
-- The links between the thoughts of core/memory/persistent_store.py: what supersedes a thought is a
-- stored thought, and what becomes of a revision that fails.
use elite_reasoning_mcp.Prelude.{
  ℕ, String, ◌≡◌, refl, ◌∙◌, Bool, true, ◌||◌, Option, none, some, List, [], ◌∷◌, ◌++◌, arith, All,
  All-append, All-imp, Bool-cases, Option-cases, inl, inr, any, first, if◌then◌else◌, str_eq_iff,
  str_eq_refl,
}
use elite_reasoning_mcp.Prelude.Nil.{All-map}
use elite_reasoning_mcp.Reasoning.{
  Trace, Answer, integrity_error, is_thought, has_thought, insert_thought, record_thought,
  supersede, revision_of, revise_thought,
}

-- Each thought that is superseded is so by a stored thought of its session.
abbrev pub LinkedIn : List Trace → Trace → Type 0
LinkedIn traces x =
    (n : String) → x.superseded_by ≡ some n → has_thought x.session_id n traces ≡ true

abbrev pub Linked : List Trace → Type 0
Linked traces = All (LinkedIn traces) traces

any-append : (p : Trace → Bool) (xs ys : List Trace) → any p (xs ++ ys) ≡ (any p xs || any p ys)
any-append p [] ys = refl
any-append p (x ∷ xs) ys = ground (arith, any-append p xs ys)

any-supersede :
    (s old new : String) (session n : String) (traces : List Trace)
    → has_thought session n (supersede s old new traces) ≡ has_thought session n traces
unfolding supersede
any-supersede s old new session n [] = refl
any-supersede s old new session n (x ∷ xs) = ground (arith, any-supersede s old new session n xs)

-- Whether it inserts the thought or fails because it is there, the insertion leaves it stored.
insert_thought-stored :
    (x : Trace) (traces : List Trace)
    → has_thought x.session_id x.thought_id (insert_thought x traces).1 ≡ true
unfolding insert_thought
insert_thought-stored x traces = elim (Bool-cases (has_thought x.session_id x.thought_id traces)) [
  | inl e ↦ rw e e
  | inr e ↦ rw e (
      any-append (is_thought x.session_id x.thought_id) traces (x ∷ [])
      ∙ ground (arith, str_eq_refl x.session_id, str_eq_refl x.thought_id))
]

insert_thought-keeps :
    (x : Trace) (traces : List Trace) (s n : String)
    → has_thought s n traces ≡ true
    → has_thought s n (insert_thought x traces).1 ≡ true
unfolding insert_thought
insert_thought-keeps x traces s n h =
    elim (Bool-cases (has_thought x.session_id x.thought_id traces)) [
      | inl e ↦ rw e h
      | inr e ↦ rw e (any-append (is_thought s n) traces (x ∷ []) ∙ ground (arith, h))
    ]

-- What holds of all stored thoughts and of the new one holds after the insertion.
insert_thought-All :
    (P : Trace → Type 0) (x : Trace) (traces : List Trace)
    → P x
    → All P traces
    → All P (insert_thought x traces).1
unfolding insert_thought
insert_thought-All P x traces p h =
    elim (Bool-cases (has_thought x.session_id x.thought_id traces)) [
      | inl e ↦ rw e h
      | inr e ↦ rw e (All-append P traces (x ∷ []) h (p, tt))
    ]

insert_thought-Linked :
    (x : Trace) (traces : List Trace)
    → x.superseded_by ≡ none
    → All (LinkedIn (insert_thought x traces).1) traces
    → Linked (insert_thought x traces).1
insert_thought-Linked x traces fresh h =
    insert_thought-All (LinkedIn (insert_thought x traces).1) x traces
      (λ n k. absurd (ground arith)) h

supersede-Linked :
    (s old new : String) (traces after : List Trace)
    → has_thought s new after ≡ true
    → ((q n : String) → has_thought q n traces ≡ true → has_thought q n after ≡ true)
    → Linked traces
    → All (LinkedIn after) (supersede s old new traces)
unfolding supersede
supersede-Linked s old new traces after there kept h =
    (All-map _ (LinkedIn after) traces).1 (All-imp _ _ traces (λ x k. superseded x k) h)
  where
    superseded :
        (x : Trace)
        → LinkedIn traces x
        → LinkedIn after (
            if is_thought s old x
            then record x { status = "superseded"; superseded_by = some new }
            else x)
    superseded x k = elim (Bool-cases (is_thought s old x)) [
      | inr e ↦ rw e (λ n q. kept x.session_id n (k n q))
      | inl e ↦ rw e (λ n q.
          let same : x.session_id ≡ s = ground (arith, str_eq_iff x.session_id s) in
          let target : new ≡ n = ground (arith, q) in rw same (rw (← target) there))
    ]

-- A write of the traces.
pub data Write : Type 0 where
  think : ℕ → String → String → String → String → String → Option String → Option ℕ → Write
  revise : ℕ → String → String → String → String → String → Write

unfoldable pub write : Write → List Trace → Answer × List Trace
unfolding record_thought revise_thought
write (think now s id branch content kind parent confidence) traces =
    record_thought now s id branch content kind parent confidence traces
write (revise now s old new content reason) traces =
    revise_thought now s old new content reason traces

unfoldable pub write_all : List Write → List Trace → List Trace
unfolding write
write_all [] traces = traces
write_all (w ∷ ws) traces = write_all ws (write w traces).1

record_thought-Linked :
    (now : ℕ) (s id branch content kind : String) (parent : Option String) (confidence : Option ℕ)
    (traces : List Trace)
    → Linked traces
    → Linked (record_thought now s id branch content kind parent confidence traces).1
unfolding record_thought
record_thought-Linked now s id branch content kind parent confidence traces h =
    insert_thought-Linked _ traces refl
      (All-imp _ _ traces (λ x k n q. insert_thought-keeps _ traces x.session_id n (k n q)) h)

revise_thought-Linked :
    (now : ℕ) (s old new content reason : String) (traces : List Trace)
    → Linked traces
    → Linked (revise_thought now s old new content reason traces).1
unfolding revise_thought
revise_thought-Linked now s old new content reason traces h =
    elim (Option-cases (first (is_thought s old) traces)) [
      | inl e ↦ rw (e, revise_thought) h
      | inr (found, e) ↦
          let revision = revision_of now s found old new content reason in
          let before = supersede s old new traces in
          rw (e, revise_thought)
            (insert_thought-Linked revision before refl (
              supersede-Linked s old new traces (insert_thought revision before).1
                (insert_thought-stored revision before)
                (λ q n k.
                  insert_thought-keeps revision before q n (any-supersede s old new q n traces ∙ k))
                h))
    ]

write-Linked : (w : Write) (traces : List Trace) → Linked traces → Linked (write w traces).1
unfolding write
write-Linked (think now s id branch content kind parent confidence) traces h =
    record_thought-Linked now s id branch content kind parent confidence traces h
write-Linked (revise now s old new content reason) traces h =
    revise_thought-Linked now s old new content reason traces h

-- After any sequence of thoughts and revisions, successful or not, that starts from traces in which
-- each superseded thought is so by a stored thought of its session (as empty ones are), this still
-- holds.
pub write_all-Linked :
    (ws : List Write) (traces : List Trace) → Linked traces → Linked (write_all ws traces)
unfolding write_all
write_all-Linked [] traces h = h
write_all-Linked (w ∷ ws) traces h =
    write_all-Linked ws (write w traces).1 (write-Linked w traces h)

any-first :
    (p : Trace → Bool) (xs : List Trace) → any p xs ≡ true → (x : Trace) × (first p xs ≡ some x)
any-first p [] h = absurd (ground arith)
any-first p (x ∷ xs) h = elim (Bool-cases (p x)) [
  | inl e ↦ (x, rw e refl)
  | inr e ↦ let (y, k) = any-first p xs (ground arith) in (y, rw e k)
]

insert_thought-taken :
    (x : Trace) (traces : List Trace)
    → has_thought x.session_id x.thought_id traces ≡ true
    → insert_thought x traces ≡ (integrity_error, traces)
unfolding insert_thought
insert_thought-taken x traces h = rw h refl

superseded_all :
    (s old new : String) (traces : List Trace)
    → All
        (λ (x : Trace). is_thought s old x ≡ true → x.status ≡ "superseded")
        (supersede s old new traces)
unfolding supersede
superseded_all s old new [] = tt
superseded_all s old new (x ∷ xs) = (one, superseded_all s old new xs)
  where
    one :
        is_thought s old (
            if is_thought s old x
            then record x { status = "superseded"; superseded_by = some new }
            else x)
          ≡ true
        → (if is_thought s old x
            then record x { status = "superseded"; superseded_by = some new }
            else x).status
          ≡ "superseded"
    one = elim (Bool-cases (is_thought s old x)) [
      | inl e ↦ rw e (λ k. refl)
      | inr e ↦ rw e (λ k. absurd (ground (arith, e, k)))
    ]

-- A revision of a stored thought under an id that is already taken fails, and yet the thought counts
-- as superseded afterwards.
pub failed_revision :
    (now : ℕ) (s old new content reason : String) (traces : List Trace)
    → has_thought s old traces ≡ true
    → has_thought s new traces ≡ true
    → ((revise_thought now s old new content reason traces).0 ≡ integrity_error)
      × All
          (λ (x : Trace). is_thought s old x ≡ true → x.status ≡ "superseded")
          (revise_thought now s old new content reason traces).1
unfolding revise_thought
failed_revision now s old new content reason traces there taken =
    let (found, e) = any-first (is_thought s old) traces there in
    let before = supersede s old new traces in
    rw (e, revise_thought)
      (rw
        (insert_thought-taken (revision_of now s found old new content reason) before
          (any-supersede s old new s new traces ∙ taken))
        (refl, superseded_all s old new traces))
