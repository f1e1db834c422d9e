-- ===== src/Prelude/Assoc.antt =====
-- Go maps as association lists with one entry for each key. A write to a new key goes to the end;
-- nothing that the program shows depends on the order.
use mathlib.Core.Path.{◌≡◌, refl}
use mathlib.Core.Bool.{Bool, true, false, false≢true}
use mathlib.Core.Logic.{inl, inr}
use mathlib.Core.Option.{Option, none, some}
use mathlib.Core.List.{List, [], ◌∷◌}
use native.Mathlib.Omega.{arith}
use fabric.Prelude.Tests.{Eq, Bool-cases, if◌then◌else◌}

abbrev pub Assoc {ℓ κ} : Type ℓ → Type κ → Type (ℓ ⊔ κ)
Assoc K V = List (K × V)

module _ {ℓ κ} {K : Type ℓ} {V : Type κ} ⦃e : Eq K⦄ where
  unfoldable pub lookup : K → Assoc K V → Option V
  lookup k [] = none
  lookup k ((j, v) ∷ m) = if e.beq j k then some v else lookup k m

  unfoldable pub insert : K → V → Assoc K V → Assoc K V
  insert k v [] = (k, v) ∷ []
  insert k v ((j, w) ∷ m) = if e.beq j k then (k, v) ∷ m else (j, w) ∷ insert k v m

  unfoldable pub remove : K → Assoc K V → Assoc K V
  remove k [] = []
  remove k ((j, w) ∷ m) = let rest = remove k m in if e.beq j k then rest else (j, w) ∷ rest

  pub lookup-insert :
      (k j : K) (v : V) (m : Assoc K V)
      → lookup j (insert k v m) ≡ (if e.beq k j then some v else lookup j m)
  unfolding lookup insert
  lookup-insert k j v [] = refl
  lookup-insert k j v ((i, w) ∷ m) =
      ground (arith, e.beq_iff k j, e.beq_iff i k, e.beq_iff i j, lookup-insert k j v m)

  pub lookup-remove :
      (k j : K) (m : Assoc K V) → lookup j (remove k m) ≡ (if e.beq k j then none else lookup j m)
  unfolding lookup remove
  lookup-remove k j [] = ground arith
  lookup-remove k j ((i, w) ∷ m) =
      ground (arith, e.beq_iff k j, e.beq_iff i k, e.beq_iff i j, lookup-remove k j m)

abbrev pub keys {ℓ κ} : {K : Type ℓ} {V : Type κ} → Assoc K V → List K
keys [] = []
keys ((k, v) ∷ m) = k ∷ keys m

-- A lookup succeeds at the keys of the list only.
abbrev pub contains {ℓ} : {K : Type ℓ} ⦃e : Eq K⦄ → K → List K → Bool
contains k [] = false
contains ⦃e⦄ k (x ∷ xs) = if e.beq x k then true else contains ⦃e = e⦄ k xs

module _ {ℓ κ} {K : Type ℓ} {V : Type κ} ⦃e : Eq K⦄ where
  pub lookup-keys-none : (k : K) (m : Assoc K V) → contains k (keys m) ≡ false → lookup k m ≡ none
  unfolding lookup
  lookup-keys-none k [] h = refl
  lookup-keys-none k ((j, v) ∷ m) h = ground (arith, lookup-keys-none k m)

  pub lookup-keys-some :
      (k : K) (m : Assoc K V) → contains k (keys m) ≡ true → (v : V) × (lookup k m ≡ some v)
  unfolding lookup
  lookup-keys-some k [] h = absurd (false≢true h)
  lookup-keys-some k ((j, v) ∷ m) h = elim (Bool-cases (e.beq j k)) [
    | inl hit ↦ (v, rw hit)
    | inr miss ↦ rw miss (lookup-keys-some k m (rw miss at h))
  ]
