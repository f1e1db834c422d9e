-- ===== src/Policies/ImplicitMeta.antt =====
-- Implicit meta policies: common/policies/implicitmeta.go, a policy on how many of the policies of one
-- name in the sub-groups are satisfied.
use mathlib.Core.Path.{subst}
use fabric.Prelude.{
  ℕ, zero, suc, ◌+◌, ◌/◌, ◌≤◌, ◌<◌, ◌≡◌, ◌↔◌, ◌⊎◌, refl, ap, Bool, true, false, List, [], ◌∷◌,
  length, arith, if◌then◌else◌, map, inl, inr,
}
use fabric.Prelude.Bytes.{Bytes}
use fabric.Policies.Signature.{SignedData, ℤ, pos, negsuc}

-- The interface `Policy`; an error is a refusal.
abbrev pub Policy : Type 0
Policy = List SignedData → Bool

-- An enum of protocol buffers may have a value without a name.
pub data Rule : Type 0 where
  any : Rule
  all : Rule
  majority : Rule
  other : ℕ → Rule

pub record ImplicitMetaPolicy : Type 0 where
  pub sub_policy : Bytes
  pub rule : Rule

pub record Initialized : Type 0 where
  pub threshold : ℕ
  pub sub_policies : List Policy

-- A rule without a name leaves the zero value.
abbrev rule_threshold : Rule → ℕ → ℕ
rule_threshold any n = 1
rule_threshold all n = n
rule_threshold majority n = suc (n / 2)
rule_threshold (other value) n = 0

abbrev threshold_of : Rule → List Policy → ℕ
threshold_of rule [] = 0
threshold_of rule (p ∷ ps) = rule_threshold rule (length (p ∷ ps))

-- A manager of policies is what its `GetPolicy` returns, which is a policy that always refuses for a
-- missing name.
unfoldable pub initialize : ImplicitMetaPolicy → List (Bytes → Policy) → Initialized
initialize conf managers =
    let sub_policies = map (λ get_policy. get_policy conf.sub_policy) managers in
    record { threshold = threshold_of conf.rule sub_policies; sub_policies = sub_policies }

-- `remaining--` on an int.
abbrev decrement : ℤ → ℤ
decrement (pos zero) = negsuc zero
decrement (pos (suc n)) = pos n
decrement (negsuc n) = negsuc (suc n)

abbrev is_zero : ℤ → Bool
is_zero (pos zero) = true
is_zero _ = false

-- The loop of `Evaluate` with what remains.
unfoldable pub evaluate_from : ℤ → List Policy → List SignedData → Bool
evaluate_from remaining [] signature_set = is_zero remaining
evaluate_from remaining (policy ∷ policies) signature_set =
    let less = evaluate_from (decrement remaining) policies signature_set in
    let same = evaluate_from remaining policies signature_set in
    if policy signature_set then (if is_zero (decrement remaining) then true else less) else same

unfoldable pub evaluate : Initialized → List SignedData → Bool
unfolding evaluate_from
evaluate imp signature_set = evaluate_from (pos imp.threshold) imp.sub_policies signature_set

-- How many of the policies are satisfied.
unfoldable pub satisfied : List Policy → List SignedData → ℕ
satisfied [] s = 0
satisfied (p ∷ ps) s = if p s then suc (satisfied ps s) else satisfied ps s

negative-fails :
    (n : ℕ) (ps : List Policy) (s : List SignedData) → evaluate_from (negsuc n) ps s ≡ false
unfolding evaluate_from
negative-fails n [] s = refl
negative-fails n (p ∷ ps) s = ground (arith, negative-fails n ps s, negative-fails (suc n) ps s)

-- Above zero, the loop asks for that many satisfied policies.
evaluate_from_iff :
    (n : ℕ) (ps : List Policy) (s : List SignedData)
    → (evaluate_from (pos (suc n)) ps s ≡ true) ↔ (n < satisfied ps s)
unfolding evaluate_from satisfied
evaluate_from_iff n [] s = ground arith
evaluate_from_iff zero (p ∷ ps) s = ground (arith, evaluate_from_iff zero ps s)
evaluate_from_iff (suc n) (p ∷ ps) s =
    ground (arith, evaluate_from_iff n ps s, evaluate_from_iff (suc n) ps s)

-- At zero, it asks for none at all.
evaluate_from-zero :
    (ps : List Policy) (s : List SignedData)
    → (evaluate_from (pos zero) ps s ≡ true) ↔ (satisfied ps s ≡ 0)
unfolding evaluate_from satisfied
evaluate_from-zero [] s = ground arith
evaluate_from-zero (p ∷ ps) s = ground (arith, evaluate_from-zero ps s, negative-fails zero ps s)

-- What the rule means, for the number of sub-policies and that of the satisfied ones.
abbrev pub Meets : Rule → ℕ → ℕ → Type 0
Meets any n k = (n ≡ 0) ⊎ (0 < k)
Meets all n k = k ≡ n
Meets majority n k = (n ≡ 0) ⊎ (n < k + k)
Meets (other value) n k = k ≡ 0

satisfied-nil : (s : List SignedData) → satisfied [] s ≡ 0
unfolding satisfied
satisfied-nil s = refl

satisfied_le : (ps : List Policy) (s : List SignedData) → satisfied ps s ≤ length ps
unfolding satisfied
satisfied_le [] s = omega arith
satisfied_le (p ∷ ps) s = ground (arith, satisfied_le ps s)

length-map : {A B : Type 0} (f : A → B) (l : List A) → length (map f l) ≡ length l
length-map f [] = refl
length-map f (x ∷ l) = ap suc (length-map f l)

rule_iff :
    (r : Rule) (ps : List Policy) (s : List SignedData)
    → (evaluate_from (pos (threshold_of r ps)) ps s ≡ true) ↔ Meets r (length ps) (satisfied ps s)
rule_iff any [] s = let z = evaluate_from-zero [] s in (λ e. inl refl, λ m. z.1 (satisfied-nil s))
rule_iff any (p ∷ ps) s =
    let z = evaluate_from_iff 0 (p ∷ ps) s in (λ e. inr (z.0 e), λ m. z.1 (first m))
  where
    first : (suc (length ps) ≡ 0) ⊎ (0 < satisfied (p ∷ ps) s) → 0 < satisfied (p ∷ ps) s
    first (inl e) = omega (arith, e)
    first (inr e) = e
rule_iff all [] s = evaluate_from-zero [] s
rule_iff all (p ∷ ps) s =
    ground (arith, evaluate_from_iff (length ps) (p ∷ ps) s, satisfied_le (p ∷ ps) s)
rule_iff majority [] s =
    let z = evaluate_from-zero [] s in (λ e. inl refl, λ m. z.1 (satisfied-nil s))
rule_iff majority (p ∷ ps) s =
    let z = evaluate_from_iff (suc (length ps) / 2) (p ∷ ps) s in
    (λ e. inr (omega (arith, z.0 e)), λ m. z.1 (half m))
  where
    half :
        (suc (length ps) ≡ 0) ⊎ (suc (length ps) < satisfied (p ∷ ps) s + satisfied (p ∷ ps) s)
        → suc (length ps) / 2 < satisfied (p ∷ ps) s
    half (inl e) = omega (arith, e)
    half (inr e) = omega (arith, e)
rule_iff (other value) [] s = evaluate_from-zero [] s
rule_iff (other value) (p ∷ ps) s = evaluate_from-zero (p ∷ ps) s

-- An initialized policy accepts a set of signatures exactly if it meets the rule: any asks for one
-- satisfied sub-policy or none to exist, all for every one, majority for more than half or none to
-- exist, and a value that is no rule for no sub-policy to be satisfied.
pub evaluate-initialize_iff :
    (conf : ImplicitMetaPolicy) (managers : List (Bytes → Policy)) (s : List SignedData)
    → (evaluate (initialize conf managers) s ≡ true)
      ↔ Meets conf.rule
          (length managers)
          (satisfied (map (λ get_policy. get_policy conf.sub_policy) managers) s)
unfolding evaluate initialize
evaluate-initialize_iff conf managers s =
    let ps = map (λ get_policy. get_policy conf.sub_policy) managers in
    subst
      (λ n.
        (evaluate_from (pos (threshold_of conf.rule ps)) ps s ≡ true)
        ↔ Meets conf.rule n (satisfied ps s))
      (length-map (λ get_policy. get_policy conf.sub_policy) managers) (rule_iff conf.rule ps s)
