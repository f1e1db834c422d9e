-- ===== src/Policies/Signature/Marks.antt =====
-- A satisfied policy has used enough different signatures.
use fabric.Prelude.{
  ℕ, suc, ◌+◌, ◌≤◌, ◌≡◌, ap, ◌∙◌, Bool, true, false, List, [], ◌∷◌, All, arith, if◌then◌else◌,
}
use mathlib.Core.Path.{subst}
use fabric.Prelude.Bytes.{Bytes}
use fabric.Prelude.Outcome.{Outcome, ok, ◌>>=◌, >>=-eq-ok}
use fabric.Policies.Signature.{
  SignedData, pos, negsuc, SignaturePolicy, nil_policy, unknown_type, n_out_of, signed_by, Rules,
  no_rules, rule, IdentityDeserializer, Evaluator, at_least, matches, cons_used, scan, run_rules,
  gate, principal_at, compile, compile_all,
}

-- How many signatures are used.
abbrev pub count : List Bool → ℕ
count [] = 0
count (true ∷ used) = suc (count used)
count (false ∷ used) = count used

-- An evaluator that uses up one signature at least when it is satisfied.
abbrev pub Marks : Evaluator → Type 0
Marks e =
    (sds : List SignedData) (used used' : List Bool)
    → e sds used ≡ ok (true, used')
    → count used + 1 ≤ count used'

-- Every gate asks for one signature at least.
unfoldable mutual
  pub IsPositive : SignaturePolicy → Type 0
  IsPositive (n_out_of (pos n) rules) = (1 ≤ n) × AllPositive rules
  IsPositive (n_out_of (negsuc n) rules) = ⊥
  IsPositive _ = Unit

  pub AllPositive : Rules → Type 0
  AllPositive no_rules = Unit
  AllPositive (rule p rules) = IsPositive p × AllPositive rules

module _ (msp : IdentityDeserializer) where
  -- A signature that is passed over leaves the count to those behind it.
  skipped :
      (p : Bytes) (sds : List SignedData) (used used' : List Bool) (u : Bool) (r : Bool × List Bool)
      → scan msp p sds used ≡ ok r
      → ok (cons_used msp u r) ≡ ok (true, used')
      → ((v : List Bool) → scan msp p sds used ≡ ok (true, v) → count used + 1 ≤ count v)
      → count (u ∷ used) + 1 ≤ count used'
  skipped p sds used used' true (found, rest) e q ih =
      let good : found ≡ true = ground (arith, q) in
      let same : used' ≡ true ∷ rest = ground (arith, q) in
      let below = ih rest (e ∙ ap (λ b. ok (b, rest)) good) in rw same (omega (arith, below))
  skipped p sds used used' false (found, rest) e q ih =
      let good : found ≡ true = ground (arith, q) in
      let same : used' ≡ false ∷ rest = ground (arith, q) in
      rw same (ih rest (e ∙ ap (λ b. ok (b, rest)) good))

  scan-Marks : (p : Bytes) → Marks (scan msp p)
  unfolding scan
  scan-Marks p [] used used' h = cc
  scan-Marks p (sd ∷ sds) [] used' h = cc
  scan-Marks p (sd ∷ sds) (true ∷ used) used' h =
      let (r, e, e') = >>=-eq-ok (scan msp p sds used) _ h in
      skipped p sds used used' true r e e' (scan-Marks p sds used)
  scan-Marks p (sd ∷ sds) (false ∷ used) used' h =
      let (good, e, e') = >>=-eq-ok (matches msp p sd) _ h in
      by_match good e' (scan-Marks p sds used)
    where
      by_match :
          (good : Bool)
          → (if good
              then ok (true, true ∷ used)
              else (scan msp p sds used >>= λ r. ok (cons_used msp false r)))
            ≡ ok (true, used')
          → ((u : List Bool) → scan msp p sds used ≡ ok (true, u) → count used + 1 ≤ count u)
          → count used + 1 ≤ count used'
      by_match true q ih =
          let same : used' ≡ true ∷ used = ground (arith, q) in rw same (omega arith)
      by_match false q ih =
          let (r, e, e') = >>=-eq-ok (scan msp p sds used) _ q in
          skipped p sds used used' false r e e' ih

  run_rules-count :
      (ps : List Evaluator) (v : ℕ) (sds : List SignedData) (used : List Bool) (v' : ℕ)
      (used' : List Bool)
      → All Marks ps
      → run_rules msp ps v sds used ≡ ok (v', used')
      → count used + v' ≤ count used' + v
  unfolding run_rules
  run_rules-count [] v sds used v' used' m h =
      let ev : v' ≡ v = ground (arith, h) in
      let eu : used' ≡ used = ground (arith, h) in rw (ev, eu) (omega arith)
  run_rules-count (p ∷ ps) v sds used v' used' m h =
      let ((good, u), e, e') = >>=-eq-ok (p sds used) _ h in
      by_good good u e e' (λ v u. run_rules-count ps v sds u v' used' m.1)
    where
      by_good :
          (good : Bool) (u : List Bool)
          → p sds used ≡ ok (good, u)
          → (if good then run_rules msp ps (v + 1) sds u else run_rules msp ps v sds used)
            ≡ ok (v', used')
          → ((w : ℕ) (u : List Bool)
              → run_rules msp ps w sds u ≡ ok (v', used')
              → count u + v' ≤ count used' + w)
          → count used + v' ≤ count used' + v
      by_good true u e q ih = omega (arith, ih (v + 1) u q, m.0 sds used u e)
      by_good false u e q ih = ih v used q

  at_least-le : (n v : ℕ) → at_least (pos n) v ≡ true → n ≤ v
  at_least-le n v h = ground (arith, h)

  gate-count :
      (n : ℕ) (ps : List Evaluator) (sds : List SignedData) (used used' : List Bool)
      → All Marks ps
      → gate msp (pos n) ps sds used ≡ ok (true, used')
      → count used + n ≤ count used'
  gate-count n ps sds used used' m h =
      let (r, e, e') = >>=-eq-ok (run_rules msp ps 0 sds used) _ h in by_result r e e'
    where
      by_result :
          (r : ℕ × List Bool)
          → run_rules msp ps 0 sds used ≡ ok r
          → ◌≡◌ {A = Outcome (Bool × List Bool)} (ok (at_least (pos n) r.0, r.1)) (ok (true, used'))
          → count used + n ≤ count used'
      by_result (v, u) e q =
          let same : used' ≡ u = cc in
          let enough : at_least (pos n) v ≡ true = cc in
          rw same (omega (arith, run_rules-count ps 0 sds used v u m e, at_least-le n v enough))

  mutual
    unfolding compile compile_all IsPositive AllPositive

    compile-Marks :
        (p : SignaturePolicy) (identities : List Bytes) (c : Evaluator)
        → IsPositive p
        → compile msp p identities ≡ ok c
        → Marks c
    compile-Marks nil_policy identities c i h = cc
    compile-Marks unknown_type identities c i h = cc
    compile-Marks (n_out_of (negsuc n) rules) identities c i h = absurd i
    compile-Marks (n_out_of (pos n) rules) identities c i h =
        let (ps, e, e') = >>=-eq-ok (compile_all msp rules identities) _ h in
        let same : gate msp (pos n) ps ≡ c = cc in
        subst Marks same (λ sds used used' q. omega (
          arith,
          i.0,
          gate-count n ps sds used used' (compile_all-Marks rules identities ps i.1 e) q,
        ))
    compile-Marks (signed_by s) identities c i h =
        let (p, e, e') = >>=-eq-ok (principal_at msp s identities) _ h in
        let same : scan msp p ≡ c = cc in subst Marks same (scan-Marks p)

    compile_all-Marks :
        (rules : Rules) (identities : List Bytes) (cs : List Evaluator)
        → AllPositive rules
        → compile_all msp rules identities ≡ ok cs
        → All Marks cs
    compile_all-Marks no_rules identities cs i h =
        let same : [] ≡ cs = cc in subst (All Marks) same tt
    compile_all-Marks (rule p rules) identities cs i h =
        let (c, e, e') = >>=-eq-ok (compile msp p identities) _ h in
        let (rest, f, f') = >>=-eq-ok (compile_all msp rules identities) _ e' in
        let same : c ∷ rest ≡ cs = cc in
        subst (All Marks) same
          (compile-Marks p identities c i.0 e, compile_all-Marks rules identities rest i.1 f)

  -- If the rules below a gate that asks for `n` of them ask in turn for one signature at least in each
  -- of their own gates, the compiled gate is satisfied only after it has marked `n` more of the
  -- signatures, each a different one, as used.
  pub compile-count :
      (n : ℕ) (rules : Rules) (identities : List Bytes) (c : Evaluator)
      → AllPositive rules
      → compile msp (n_out_of (pos n) rules) identities ≡ ok c
      → (sds : List SignedData) (used used' : List Bool) → c sds used ≡ ok (true, used')
      → count used + n ≤ count used'
  unfolding compile
  compile-count n rules identities c i h sds used used' =
      let (ps, e, e') = >>=-eq-ok (compile_all msp rules identities) _ h in
      let same : gate msp (pos n) ps ≡ c = cc in
      subst (λ d. d sds used ≡ ok (true, used') → count used + n ≤ count used') same
        (gate-count n ps sds used used' (compile_all-Marks rules identities ps i e))
