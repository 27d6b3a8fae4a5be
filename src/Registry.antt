-- ===== src/Registry.antt =====
-- `VerifierRegistry` of core/verification/registry.py: verifiers under their names, and for each kind
-- of requirement the name of the verifier that checks it. The verifiers that are registered at the
-- first use are the argument `builtins`; durations are left out.
pub mod Kinds
pub mod Results
mod Tests
use elite_reasoning_mcp.Prelude.{
  ℕ, String, Bool, true, false, not, ◌&&◌, ◌⊎◌, inl, inr, Option, none, some, List, [], ◌∷◌,
  if◌then◌else◌, str_eq, is_empty, strip, lower,
}
use elite_reasoning_mcp.Verification.{VerificationStatus, unknown, not_checked}

-- The parameters that the verifiers of Requirements read, with the defaults of those that are missing.
pub record Parameters : Type 0 where
  pub required_terms : List String
  pub forbidden_terms : List String
  pub max_words : ℕ
  pub command : String
  pub cwd : Option String
  pub timeout_sec : ℕ

pub record Requirement : Type 0 where
  pub id : String
  pub kind : String
  pub verifier : String
  pub verifier_parameters : Parameters

pub record PluginEvidence : Type 0 where
  pub id : String
  pub kind : String
  pub producer : String
  pub subject_digest : String

pub record VerificationResult : Type 0 where
  pub requirement_id : String
  pub verifier : String
  pub status : VerificationStatus
  pub evidence_ids : List String
  pub limitations : List String

-- `verify` returns a result or raises (`none`).
pub record Verifier : Type 0 where
  pub name : String
  pub supported_requirement_kinds : List String
  pub verify : Requirement → String → List PluginEvidence → Option VerificationResult

pub record Registry : Type 0 where
  pub verifiers : List (String × Verifier)
  pub kind_mapping : List (String × String)
  pub builtins_loaded : Bool

-- `dict.get`
abbrev pub lookup {ℓ} : {A : Type ℓ} → String → List (String × A) → Option A
lookup key [] = none
lookup key ((k, a) ∷ entries) = if str_eq k key then some a else lookup key entries

-- `dict[key] = value`, which keeps the place of a key that is there
abbrev pub assign {ℓ} : {A : Type ℓ} → String → A → List (String × A) → List (String × A)
assign key a [] = (key, a) ∷ []
assign key a ((k, b) ∷ entries) =
    if str_eq k key then (k, a) ∷ entries else (k, b) ∷ assign key a entries

abbrev pub has_key {ℓ} : {A : Type ℓ} → String → List (String × A) → Bool
has_key key entries = elim (lookup key entries) [ none ↦ false | some _ ↦ true ]

-- `for kind in kinds: dict.setdefault(kind, name)`
unfoldable pub set_defaults : String → List String → List (String × String) → List (String × String)
set_defaults name [] mapping = mapping
set_defaults name (kind ∷ kinds) mapping =
    let kept = set_defaults name kinds mapping in
    let added = set_defaults name kinds (assign kind name mapping) in
    if has_key kind mapping then kept else added

abbrev pub normal_name : String → String
normal_name name = lower (strip name)

pub data RegisterError : Type 0 where
  name_required already_registered : RegisterError

unfoldable pub register :
    Verifier → Option (List String) → Bool → Registry → RegisterError ⊎ Registry
unfolding set_defaults strip lower
register v default_for_kinds allow_replace r =
    let name = normal_name v.name in
    if is_empty name
    then inl name_required
    else if has_key name r.verifiers && not allow_replace
    then inl already_registered
    else inr (record r {
      verifiers = assign name v r.verifiers;
      kind_mapping =
          set_defaults name
            (elim default_for_kinds [ none ↦ v.supported_requirement_kinds | some kinds ↦ kinds ])
            r.kind_mapping;
    })

-- the loop of `_ensure_builtins`
unfoldable pub register_all : List Verifier → Registry → RegisterError ⊎ Registry
unfolding register
register_all [] r = inr r
register_all (v ∷ vs) r = elim (register v none true r) [
  | inl e ↦ inl e
  | inr s ↦ register_all vs s
]

unfoldable pub ensure_builtins : List Verifier → Registry → RegisterError ⊎ Registry
unfolding register_all
ensure_builtins builtins r =
    if r.builtins_loaded then inr r else register_all builtins (record r { builtins_loaded = true })

-- what `get` and `get_for_kind` find, once the built-in verifiers are there
unfoldable pub get : String → Registry → Option Verifier
unfolding strip lower
get name r = lookup (normal_name name) r.verifiers

unfoldable pub get_for_kind : String → Registry → Option Verifier
get_for_kind kind r = elim (lookup kind r.kind_mapping) [
  | none ↦ none
  | some name ↦ if is_empty name then none else lookup name r.verifiers
]

unfoldable pub find_verifier : Requirement → Registry → Option Verifier
unfolding get get_for_kind
find_verifier requirement r =
    if is_empty requirement.verifier
    then get_for_kind requirement.kind r
    else get requirement.verifier r

unfoldable pub check :
    Requirement → String → List PluginEvidence → Option Verifier → VerificationResult
check requirement content evidence none = record {
  requirement_id = requirement.id;
  verifier = "unregistered";
  status = not_checked;
  evidence_ids = [];
  limitations = [];
}
check requirement content evidence (some v) = elim (v.verify requirement content evidence) [
  | some result ↦ result
  | none ↦ record {
    requirement_id = requirement.id;
    verifier = v.name;
    status = unknown;
    evidence_ids = [];
    limitations = "Unhandled runtime exception during verification" ∷ [];
  }
]

unfoldable pub verify_requirement :
    List Verifier
    → Requirement
    → String
    → List PluginEvidence
    → Registry
    → RegisterError ⊎ (Registry × VerificationResult)
unfolding ensure_builtins find_verifier check
verify_requirement builtins requirement content evidence r = elim (ensure_builtins builtins r) [
  | inl e ↦ inl e
  | inr s ↦ inr (s, check requirement content evidence (find_verifier requirement s))
]
