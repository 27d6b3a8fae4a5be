-- ===== src/Reasoning/Branches.antt =====
-- What `conclude_branch` of core/memory/persistent_store.py does to the branches of a session.
use elite_reasoning_mcp.Prelude.{
  ℕ, String, ◌≡◌, ◌≢◌, refl, ◌∙◌, true, false, some, List, [], ◌∷◌, arith, All, Bool-cases, inl,
  inr, str_eq, str_eq_iff,
}
use elite_reasoning_mcp.Reasoning.{Branch, is_branch, crown, abandon, conclude_branch}

-- What a branch is after its session was concluded for another or this one.
pub record IsConcluded (session_id branch_id winner : String) (before after : Branch) : Type 0 where
  pub same_key : (after.session_id ≡ before.session_id) × (after.branch_id ≡ before.branch_id)
  pub wins :
      is_branch session_id branch_id before ≡ true
      → (after.status ≡ "winning") × (after.winning_thought_id ≡ some winner)
  pub abandoned :
      before.session_id ≡ session_id
      → str_eq before.branch_id branch_id ≡ false
      → before.status ≡ "active"
      → after.status ≡ "abandoned"
  pub settled :
      str_eq before.branch_id branch_id ≡ false → before.status ≢ "active" → after ≡ before
  pub elsewhere : before.session_id ≢ session_id → after ≡ before

module _ (now : ℕ) (session_id branch_id winner : String) where
  unfoldable after_all : Branch → Branch
  after_all b = abandon now session_id branch_id (crown now session_id branch_id winner b)

  elsewhere : (b : Branch) → str_eq b.session_id session_id ≡ false → after_all b ≡ b
  unfolding after_all
  elsewhere b e = rw (e, e) refl

  crowned :
      (b : Branch)
      → str_eq b.session_id session_id ≡ true
      → str_eq b.branch_id branch_id ≡ true
      → after_all b
        ≡ record b { status = "winning"; winning_thought_id = some winner; closed_at = some now }
  unfolding after_all
  crowned b e k = rw (e, k) (rw (e, k) refl)

  abandoned :
      (b : Branch)
      → str_eq b.session_id session_id ≡ true
      → str_eq b.branch_id branch_id ≡ false
      → str_eq b.status "active" ≡ true
      → after_all b ≡ record b { status = "abandoned"; closed_at = some now }
  unfolding after_all
  abandoned b e k a = rw (e, k) (rw (e, k, a) refl)

  left_alone :
      (b : Branch)
      → str_eq b.session_id session_id ≡ true
      → str_eq b.branch_id branch_id ≡ false
      → str_eq b.status "active" ≡ false
      → after_all b ≡ b
  unfolding after_all
  left_alone b e k a = rw (e, k) (rw (e, k, a) refl)

  after_all-IsConcluded : (b : Branch) → IsConcluded session_id branch_id winner b (after_all b)
  after_all-IsConcluded b = elim (Bool-cases (str_eq b.session_id session_id)) [
    | inr e ↦ rw (elsewhere b e) (record {
      same_key = (refl, refl);
      wins = λ h. absurd (ground arith);
      abandoned = λ h k a. ground (arith, str_eq_iff b.session_id session_id);
      settled = λ k a. refl;
      elsewhere = λ h. refl;
    })
    | inl e ↦ elim (Bool-cases (str_eq b.branch_id branch_id)) [
      | inl k ↦ rw (crowned b e k) (record {
        same_key = (refl, refl);
        wins = λ h. (refl, refl);
        abandoned = λ h d a. absurd (ground (arith, k, d));
        settled = λ d a. absurd (ground (arith, k, d));
        elsewhere = λ h. absurd (h ((str_eq_iff b.session_id session_id).0 e));
      })
      | inr k ↦ elim (Bool-cases (str_eq b.status "active")) [
        | inl a ↦ rw (abandoned b e k a) (record {
          same_key = (refl, refl);
          wins = λ h. absurd (ground arith);
          abandoned = λ h d w. refl;
          settled = λ d w. absurd (w ((str_eq_iff b.status "active").0 a));
          elsewhere = λ h. absurd (h ((str_eq_iff b.session_id session_id).0 e));
        })
        | inr a ↦ rw (left_alone b e k a) (record {
          same_key = (refl, refl);
          wins = λ h. absurd (ground arith);
          abandoned = λ h d w. ground (arith, str_eq_iff b.status "active");
          settled = λ d w. refl;
          elsewhere = λ h. refl;
        })
      ]
    ]
  ]

  -- A winning branch of the session that is not the one concluded for stays as it is.
  winner_stays :
      (b : Branch) → str_eq b.branch_id branch_id ≡ false → b.status ≡ "winning" → after_all b ≡ b
  winner_stays b k w = elim (Bool-cases (str_eq b.session_id session_id)) [
    | inr e ↦ elsewhere b e
    | inl e ↦ left_alone b e k (rw w refl)
  ]

module _ (now later : ℕ) (session_id first_id second_id w v : String) where
  after_both : Branch → Branch
  after_both b = after_all later session_id second_id v (after_all now session_id first_id w b)

  after_both-id :
      (b : Branch)
      → ((after_both b).session_id ≡ b.session_id) × ((after_both b).branch_id ≡ b.branch_id)
  unfolding after_both
  after_both-id b =
      let once = after_all-IsConcluded now session_id first_id w b in
      let twice =
        after_all-IsConcluded later session_id second_id v
          (after_all now session_id first_id w b) in
      (twice.same_key.0 ∙ once.same_key.0, twice.same_key.1 ∙ once.same_key.1)

  both_win :
      (b : Branch)
      → first_id ≢ second_id
      → is_branch session_id first_id b ≡ true
      → (after_both b).status ≡ "winning"
  unfolding after_both
  both_win b ne h =
      let once = after_all-IsConcluded now session_id first_id w b in
      let mine : b.branch_id ≡ first_id = ground (arith, str_eq_iff b.branch_id first_id) in
      let other : str_eq (after_all now session_id first_id w b).branch_id second_id ≡ false =
        rw once.same_key.1 (rw mine (ground (arith, str_eq_iff first_id second_id))) in
      rw
        (winner_stays later session_id second_id v (after_all now session_id first_id w b) other
          (once.wins h).0)
        (once.wins h).0

  still_wins :
      (b : Branch)
      → first_id ≢ second_id
      → is_branch session_id first_id (after_both b) ≡ true
      → (after_both b).status ≡ "winning"
  still_wins b ne h =
      let k : is_branch session_id first_id b ≡ true =
        rw ((after_both-id b).0, (after_both-id b).1) at h in
      both_win b ne k

abbrev pub Both : (Branch → Branch → Type 0) → List Branch → List Branch → Type 0
Both P [] [] = Unit
Both P [] (y ∷ ys) = ⊥
Both P (x ∷ xs) [] = ⊥
Both P (x ∷ xs) (y ∷ ys) = P x y × Both P xs ys

-- Concluding a session for a branch makes the stored branch of that id, if there is one, winning, with
-- the winning thought, and abandons each other branch of the session that is active, also if no branch
-- has the id. It changes no branch of another session and no other branch that is not active, so that
-- an earlier winner stays winning too.
pub conclude_branch-IsConcluded :
    (now : ℕ) (session_id branch_id winner : String) (branches : List Branch)
    → Both
        (IsConcluded session_id branch_id winner)
        branches
        (conclude_branch now session_id branch_id winner branches)
unfolding conclude_branch
conclude_branch-IsConcluded now session_id branch_id winner [] = tt
conclude_branch-IsConcluded now session_id branch_id winner (b ∷ branches) = (
  unfold after_all in after_all-IsConcluded now session_id branch_id winner b,
  conclude_branch-IsConcluded now session_id branch_id winner branches,
)

-- A branch that has won is not dethroned when its session is concluded for another one: afterwards
-- both are winning.
pub conclude_branch_twice :
    (now later : ℕ) (session_id first_id second_id w v : String) (branches : List Branch)
    → first_id ≢ second_id
    → All
        (λ (b : Branch). is_branch session_id first_id b ≡ true → b.status ≡ "winning")
        (conclude_branch later session_id second_id v
          (conclude_branch now session_id first_id w branches))
unfolding conclude_branch
conclude_branch_twice now later session_id first_id second_id w v [] ne = tt
conclude_branch_twice now later session_id first_id second_id w v (b ∷ branches) ne = (
  unfold after_both after_all in still_wins now later session_id first_id second_id w v b ne,
  conclude_branch_twice now later session_id first_id second_id w v branches ne,
)
