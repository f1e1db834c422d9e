-- ===== src/Examples/Policy.antt =====
-- Concrete runs of a signature policy: two of two principals.
use fabric.Prelude.{Bool, ◌↔◌, map, ◌+◌, ◌≤◌, ◌≡◌, refl, true, false, List, [], ◌∷◌, if◌then◌else◌}
use fabric.Prelude.Bytes.{Bytes, codes, bytes_eq}
use fabric.Prelude.Outcome.{ok, err}
use fabric.Policies.ImplicitMeta.{
  Policy, ImplicitMetaPolicy, majority, initialize, evaluate, satisfied, Meets,
  evaluate-initialize_iff,
}
use fabric.Policies.Signature.{
  SignedData, pos, signed_by, Rules, no_rules, rule, IdentityDeserializer, Evaluator, compile, gate,
  scan, run_rules, matches, deduplicate, deduplicate_from, seen,
}
use fabric.Policies.Signature.Marks.{count, AllPositive, compile-count}

-- An identity satisfies the principal of its name, and every signature is good.
abbrev by_name : IdentityDeserializer
by_name = record {
  Identity = Bytes;
  deserialize_identity = λ b. ok b;
  satisfies_principal = λ i p. if bytes_eq i p then ok tt else err (codes "another");
  verify = λ i b s. ok tt;
}

abbrev both : Rules
both = rule (signed_by (pos 0)) (rule (signed_by (pos 1)) no_rules)

abbrev members : List Bytes
members = codes "a" ∷ codes "b" ∷ []

abbrev by_a : SignedData
by_a = record { signed = codes "m"; identity = codes "a"; signature = [] }

abbrev by_b : SignedData
by_b = record { signed = codes "m"; identity = codes "b"; signature = [] }

abbrev compiled : Evaluator
compiled = gate by_name (pos 2) (scan by_name (codes "a") ∷ scan by_name (codes "b") ∷ [])

one_of_each : deduplicate (by_a ∷ by_b ∷ by_a ∷ []) ≡ by_a ∷ by_b ∷ []
unfolding deduplicate deduplicate_from seen bytes_eq
one_of_each = refl

compile-count_example : count (false ∷ false ∷ []) + 2 ≤ count (true ∷ true ∷ [])
unfolding compile scan run_rules matches bytes_eq AllPositive
compile-count_example =
    compile-count by_name 2 both members compiled (tt, (tt, tt)) refl (by_b ∷ by_a ∷ [])
      (false ∷ false ∷ []) (true ∷ true ∷ []) refl

-- Two of three sub-policies accept.
abbrev always : Bool → Bytes → Policy
always b name signature_set = b

abbrev managers : List (Bytes → Policy)
managers = always true ∷ always false ∷ always true ∷ []

abbrev admins : ImplicitMetaPolicy
admins = record { sub_policy = codes "Admins"; rule = majority }

evaluate-initialize_iff_example :
    (evaluate (initialize admins managers) [] ≡ true)
    ↔ Meets majority 3 (satisfied (map (λ get_policy. get_policy (codes "Admins")) managers) [])
evaluate-initialize_iff_example = evaluate-initialize_iff admins managers []

majority-accepts : evaluate (initialize admins managers) [] ≡ true
unfolding evaluate initialize
majority-accepts = refl
