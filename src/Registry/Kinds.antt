-- ===== src/Registry/Kinds.antt =====
-- The kinds of requirements in `VerifierRegistry` of core/verification/registry.py: each of them is
-- checked by a registered verifier, and the first one that was registered for it.
use elite_reasoning_mcp.Prelude.{
  String, ◌≡◌, refl, ◌∙◌, Bool, true, false, not, ◌&&◌, ◌⊎◌, inl, inr, Option, none, some, List, [],
  ◌∷◌, arith, All, All-imp, Bool-cases, str_eq, str_eq_iff, str_eq_refl, is_empty,
}
use elite_reasoning_mcp.Registry.{
  Verifier, Registry, lookup, assign, has_key, set_defaults, normal_name, register,
}

module _ {ℓ} {A : Type ℓ} where
  lookup-assign :
      (key : String) (a : A) (entries : List (String × A))
      → lookup key (assign key a entries) ≡ some a
  lookup-assign key a [] = ground (arith, str_eq_refl key)
  lookup-assign key a ((k, b) ∷ entries) = ground (arith, lookup-assign key a entries)

  has_key-assign :
      (q key : String) (a : A) (entries : List (String × A))
      → has_key q entries ≡ true
      → has_key q (assign key a entries) ≡ true
  has_key-assign q key a [] h = absurd (ground arith)
  has_key-assign q key a ((k, b) ∷ entries) h = ground (arith, has_key-assign q key a entries)

  lookup-assign_ne :
      (q key : String) (a : A) (entries : List (String × A))
      → has_key key entries ≡ false
      → has_key q entries ≡ true
      → lookup q (assign key a entries) ≡ lookup q entries
  lookup-assign_ne q key a [] h k = absurd (ground arith)
  lookup-assign_ne q key a ((k, b) ∷ entries) h g =
      ground (arith, str_eq_iff k key, str_eq_iff k q, lookup-assign_ne q key a entries)

  All-assign {κ} :
      (P : String × A → Type κ) (key : String) (a : A) (entries : List (String × A))
      → ((k : String) → P (k, a))
      → All P entries
      → All P (assign key a entries)
  All-assign P key a [] p h = (p key, tt)
  All-assign P key a ((k, b) ∷ entries) p h = elim (Bool-cases (str_eq k key)) [
    | inl e ↦ rw e (p k, h.1)
    | inr e ↦ rw e (h.0, All-assign P key a entries p h.1)
  ]

set_defaults-All :
    (P : String × String → Type 0) (name : String) (kinds : List String)
    (mapping : List (String × String))
    → ((k : String) → P (k, name))
    → All P mapping
    → All P (set_defaults name kinds mapping)
unfolding set_defaults
set_defaults-All P name [] mapping p h = h
set_defaults-All P name (kind ∷ kinds) mapping p h = elim (Bool-cases (has_key kind mapping)) [
  | inl e ↦ rw e (set_defaults-All P name kinds mapping p h)
  | inr e ↦ rw e (
      set_defaults-All P name kinds (assign kind name mapping) p
        (All-assign P kind name mapping p h))
]

-- A kind that has a verifier keeps it.
set_defaults-lookup :
    (name : String) (kinds : List String) (mapping : List (String × String)) (q owner : String)
    → lookup q mapping ≡ some owner
    → lookup q (set_defaults name kinds mapping) ≡ some owner
unfolding set_defaults
set_defaults-lookup name [] mapping q owner h = h
set_defaults-lookup name (kind ∷ kinds) mapping q owner h =
    elim (Bool-cases (has_key kind mapping)) [
      | inl e ↦ rw e (set_defaults-lookup name kinds mapping q owner h)
      | inr e ↦ rw e (
          set_defaults-lookup name kinds (assign kind name mapping) q owner
            (lookup-assign_ne q kind name mapping e (ground (arith, h)) ∙ h))
    ]

-- Each kind is mapped to the name of a registered verifier.
abbrev pub Mapped : Registry → Type 0
Mapped r = All (λ (kn : String × String). has_key kn.1 r.verifiers ≡ true) r.kind_mapping

-- A registration, successful or not.
pub record Registration : Type 0 where
  pub verifier : Verifier
  pub default_for_kinds : Option (List String)
  pub allow_replace : Bool

unfoldable pub attempt : Registration → Registry → Registry
unfolding register
attempt g r = elim (register g.verifier g.default_for_kinds g.allow_replace r) [
  | inl e ↦ r
  | inr s ↦ s
]

unfoldable pub attempt_all : List Registration → Registry → Registry
unfolding attempt
attempt_all [] r = r
attempt_all (g ∷ gs) r = attempt_all gs (attempt g r)

module _ (g : Registration) (r : Registry) where
  abbrev kinds : List String
  kinds = elim g.default_for_kinds [ none ↦ g.verifier.supported_requirement_kinds | some ks ↦ ks ]

  abbrev extended : Registry
  extended = record r {
    verifiers = assign (normal_name g.verifier.name) g.verifier r.verifiers;
    kind_mapping = set_defaults (normal_name g.verifier.name) kinds r.kind_mapping;
  }

  attempt_cases : (attempt g r ≡ r) ⊎ (attempt g r ≡ extended)
  unfolding attempt
  attempt_cases = elim (Bool-cases (is_empty (normal_name g.verifier.name))) [
    | inl e ↦ inl (rw (e, attempt) refl)
    | inr e ↦
        elim (Bool-cases
          (has_key (normal_name g.verifier.name) r.verifiers && not g.allow_replace)) [
            | inl k ↦ inl (rw (e, attempt) (rw k refl))
            | inr k ↦ inr (rw (e, attempt) (rw k refl))
          ]
  ]

  extended-Mapped : Mapped r → Mapped extended
  extended-Mapped h =
      set_defaults-All _ (normal_name g.verifier.name) kinds r.kind_mapping
        (λ k. ground (arith, lookup-assign (normal_name g.verifier.name) g.verifier r.verifiers))
        (All-imp _ _ r.kind_mapping
          (λ kn k. has_key-assign kn.1 (normal_name g.verifier.name) g.verifier r.verifiers k) h)

  attempt-Mapped : Mapped r → Mapped (attempt g r)
  attempt-Mapped h = elim attempt_cases [ inl e ↦ rw e h | inr e ↦ rw e (extended-Mapped h) ]

  attempt-lookup :
      (kind owner : String)
      → lookup kind r.kind_mapping ≡ some owner
      → lookup kind (attempt g r).kind_mapping ≡ some owner
  attempt-lookup kind owner h = elim attempt_cases [
    | inl e ↦ rw e h
    | inr e ↦
        rw e (set_defaults-lookup (normal_name g.verifier.name) kinds r.kind_mapping kind owner h)
  ]

-- Through any sequence of registrations, successful or not, that starts from a registry in which
-- each kind is mapped to the name of a registered verifier (as an empty one), this still holds, and
-- a kind that has a verifier keeps it.
pub attempt_all-Mapped :
    (gs : List Registration) (r : Registry)
    → Mapped r
    → Mapped (attempt_all gs r)
      × ((kind owner : String)
          → lookup kind r.kind_mapping ≡ some owner
          → lookup kind (attempt_all gs r).kind_mapping ≡ some owner)
unfolding attempt_all
attempt_all-Mapped [] r h = (h, (λ kind owner k. k))
attempt_all-Mapped (g ∷ gs) r h =
    let rest = attempt_all-Mapped gs (attempt g r) (attempt-Mapped g r h) in
    (rest.0, (λ kind owner k. rest.1 kind owner (attempt-lookup g r kind owner k)))
