-- ===== src/Policies/Signature.antt =====
-- Signature policies: common/cauthdsl/cauthdsl.go, and the evaluation of common/cauthdsl/policy.go.
pub mod Marks
use fabric.Prelude.{
  ℕ, ◌+◌, ◌%◌, ◌^◌, ◌&&◌, ◌||◌, none, some, Bool, true, false, List, [], ◌∷◌, ltb, leb, length,
  get_elem?, replicate, if◌then◌else◌,
}
use fabric.Prelude.Bytes.{Bytes, codes, bytes_eq}
use fabric.Prelude.Outcome.{Outcome, ok, err, panic, ◌>>=◌}

pub record SignedData : Type 0 where
  pub signed : Bytes
  pub identity : Bytes
  pub signature : Bytes

-- An int32: a number from 0, or `negsuc n` for the number `-(n + 1)`.
pub data ℤ : Type 0 where
  pos : ℕ → ℤ
  negsuc : ℕ → ℤ

-- A policy is nil, of no known type, or one of the two types of the message.
mutual
  pub data SignaturePolicy : Type 0 where
    nil_policy : SignaturePolicy
    unknown_type : SignaturePolicy
    n_out_of : ℤ → Rules → SignaturePolicy
    signed_by : ℤ → SignaturePolicy

  pub data Rules : Type 0 where
    no_rules : Rules
    rule : SignaturePolicy → Rules → Rules

-- The membership service: whether the identity of a signature can be read, satisfies a principal and
-- made the signature.
pub record IdentityDeserializer : Type 1 where
  pub Identity : Type 0
  pub deserialize_identity : Bytes → Outcome Identity
  pub satisfies_principal : Identity → Bytes → Outcome (Unit {0})
  pub verify : Identity → Bytes → Bytes → Outcome (Unit {0})

unfoldable pub seen : Bytes → List Bytes → Bool
seen id [] = false
seen id (i ∷ ids) = if bytes_eq i id then true else seen id ids

unfoldable pub deduplicate_from : List Bytes → List SignedData → List SignedData
unfolding seen
deduplicate_from ids [] = []
deduplicate_from ids (sd ∷ sds) =
    let skipped = deduplicate_from ids sds in
    let kept = deduplicate_from (sd.identity ∷ ids) sds in
    if seen sd.identity ids then skipped else sd ∷ kept

unfoldable pub deduplicate : List SignedData → List SignedData
unfolding deduplicate_from
deduplicate sds = deduplicate_from [] sds

-- A compiled policy takes the signatures and which of them are used, and marks those that it uses.
abbrev pub Evaluator : Type 0
Evaluator = List SignedData → List Bool → Outcome (Bool × List Bool)

-- `verified >= n`, where `verified` is an int32 that was counted up that many times.
abbrev pub at_least : ℤ → ℕ → Bool
at_least (pos n) verified = ltb (verified % 2 ^ 32) (2 ^ 31) && leb n (verified % 2 ^ 32)
at_least (negsuc n) verified =
    ltb (verified % 2 ^ 32) (2 ^ 31) || leb (2 ^ 32) (verified % 2 ^ 32 + n + 1)

module _ (msp : IdentityDeserializer) where
  open msp use {deserialize_identity, satisfies_principal, verify}

  abbrev checked : Outcome (Unit {0}) → Outcome Bool
  checked (ok _) = ok true
  checked (err e) = ok false
  checked panic = panic

  -- Whether one signature counts for the principal.
  unfoldable pub matches : Bytes → SignedData → Outcome Bool
  matches principal sd = elim (deserialize_identity sd.identity) [
    | panic ↦ panic
    | err e ↦ ok false
    | ok identity ↦ checked (satisfies_principal identity principal) >>= λ good.
        if good then checked (verify identity sd.signed sd.signature) else ok false
  ]

  abbrev cons_used : Bool → Bool × List Bool → Bool × List Bool
  cons_used u (found, used) = (found, u ∷ used)

  -- The first signature that is not used and counts is marked.
  unfoldable pub scan : Bytes → Evaluator
  unfolding matches
  scan principal [] used = ok (false, used)
  scan principal (sd ∷ sds) [] = panic
  scan principal (sd ∷ sds) (u ∷ used) =
      let later = scan principal sds used in
      if u
      then (later >>= λ r. ok (cons_used u r))
      else (matches principal sd >>= λ good.
          if good then ok (true, true ∷ used) else (later >>= λ r. ok (cons_used u r)))

  -- Every rule runs on a copy of the marks, which is kept if the rule is satisfied.
  unfoldable pub run_rules :
      List Evaluator → ℕ → List SignedData → List Bool → Outcome (ℕ × List Bool)
  run_rules [] verified sds used = ok (verified, used)
  run_rules (p ∷ ps) verified sds used = p sds used >>= λ (good, used').
      if good then run_rules ps (verified + 1) sds used' else run_rules ps verified sds used

  abbrev pub gate : ℤ → List Evaluator → Evaluator
  gate n ps sds used =
      run_rules ps 0 sds used >>= λ (verified, used'). ok (at_least n verified, used')

  abbrev principal_at : ℤ → List Bytes → Outcome Bytes
  principal_at (negsuc i) identities = err (codes "identity index out of range")
  principal_at (pos i) identities = elim (get_elem? identities i) [
    | none ↦ err (codes "identity index out of range")
    | some p ↦ ok p
  ]

  unfoldable mutual
    pub compile : SignaturePolicy → List Bytes → Outcome Evaluator
    compile nil_policy identities = err (codes "Empty policy element")
    compile unknown_type identities = err (codes "Unknown type")
    compile (n_out_of n rules) identities = compile_all rules identities >>= λ ps. ok (gate n ps)
    compile (signed_by i) identities = principal_at i identities >>= λ p. ok (scan p)

    pub compile_all : Rules → List Bytes → Outcome (List Evaluator)
    compile_all no_rules identities = ok []
    compile_all (rule p rules) identities =
        compile p identities >>= λ c. compile_all rules identities >>= λ cs. ok (c ∷ cs)

  -- `Evaluate`: nil for a satisfied policy, an error otherwise.
  unfoldable pub evaluate : Evaluator → List SignedData → Outcome (Unit {0})
  unfolding deduplicate
  evaluate evaluator signature_set =
      evaluator (deduplicate signature_set) (replicate (length signature_set) false)
      >>= λ (good, used). if good then ok tt else err (codes "Failed to authenticate policy")
