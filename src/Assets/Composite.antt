-- ===== src/Assets/Composite.antt =====
-- The composite keys of the shim, `createCompositeKey` of core/chaincode/shim/chaincode.go, for strings
-- that may stand in them.
use fabric.Prelude.{
  append_assoc, append-nil, ℕ, zero, suc, ◌≡◌, ◌<◌, refl, true, List, [], ◌∷◌, ◌++◌, All,
  Bool-cases, inl, inr, arith,
}
use fabric.Prelude.Bytes.{Bytes, codes}
use fabric.Prelude.Outcome.{ok, >>=-eq-ok}
use fabric.Assets.Shim.{
  Unicode, check_runes, validate_composite_key_attribute, add_attributes, create_composite_key,
  split_components, split_composite_key,
}

-- What Go documents of UTF-8: ASCII strings are valid, and their runes are their bytes; in a valid
-- string only the rune 0 is written with a zero byte.
pub record IsUnicode (unicode : Unicode) : Type 0 where
  pub ascii_valid : (s : Bytes) → All (λ b. b < 128) s → unicode.valid_string s ≡ true
  pub ascii_runes : (s : Bytes) → All (λ b. b < 128) s → unicode.runes s ≡ s
  pub zero_rune :
      (s : Bytes)
      → unicode.valid_string s ≡ true
      → All (λ r. 0 < r) (unicode.runes s)
      → All (λ b. 0 < b) s

-- A string that the shim takes as a part of a composite key.
abbrev pub IsKeyPart : Unicode → Bytes → Type 0
IsKeyPart unicode s = validate_composite_key_attribute unicode s ≡ ok tt

-- Each part of a composite key ends in a zero byte.
unfoldable pub parts : List Bytes → Bytes
parts [] = []
parts (s ∷ rest) = s ++ (0 ∷ parts rest)

pub IsKeyPart-valid :
    (unicode : Unicode) (s : Bytes) → IsKeyPart unicode s → unicode.valid_string s ≡ true
unfolding validate_composite_key_attribute
IsKeyPart-valid unicode s h = elim (Bool-cases (unicode.valid_string s)) [
  | inl e ↦ e
  | inr e ↦ ground (arith, e, h)
]

pub history-IsKeyPart :
    (unicode : Unicode) → IsUnicode unicode → IsKeyPart unicode (codes "history")
unfolding validate_composite_key_attribute check_runes
history-IsKeyPart unicode u =
    rw
      (u.ascii_valid (codes "history") (omega arith), u.ascii_runes (codes "history") (omega arith))
      refl

add_attributes-parts :
    (unicode : Unicode) (ck : Bytes) (ss : List Bytes)
    → All (IsKeyPart unicode) ss
    → add_attributes unicode ck ss ≡ ok (ck ++ parts ss)
unfolding add_attributes parts
add_attributes-parts unicode ck [] h = rw append-nil refl
add_attributes-parts unicode ck (s ∷ ss) h =
    rw (h.0, add_attributes-parts unicode (ck ++ (s ++ (0 ∷ []))) ss h.1) (simp (append_assoc) refl)

pub create_composite_key-parts :
    (unicode : Unicode) (object_type : Bytes) (ss : List Bytes)
    → IsKeyPart unicode object_type
    → All (IsKeyPart unicode) ss
    → create_composite_key unicode object_type ss ≡ ok (0 ∷ parts (object_type ∷ ss))
unfolding create_composite_key parts
create_composite_key-parts unicode object_type ss t h =
    rw (t, add_attributes-parts unicode (0 ∷ (object_type ++ (0 ∷ []))) ss h)
      (simp (append_assoc) refl)

check_runes-positive : (rs : List ℕ) → check_runes rs ≡ ok tt → All (λ r. 0 < r) rs
unfolding check_runes
check_runes-positive [] h = tt
check_runes-positive (zero ∷ rs) h = ground (arith, h)
check_runes-positive (suc r ∷ rs) h = (omega arith, check_runes-positive rs (ground (arith, h)))

-- A part that is accepted has no zero byte.
part-positive :
    (unicode : Unicode) (s : Bytes) → IsUnicode unicode → IsKeyPart unicode s → All (λ b. 0 < b) s
unfolding validate_composite_key_attribute
part-positive unicode s u h =
    let valid = IsKeyPart-valid unicode s h in
    u.zero_rune s valid (check_runes-positive (unicode.runes s) (ground (arith, valid, h)))

-- The parts of a key that was made.
made_parts :
    (unicode : Unicode) (ck key : Bytes) (ss : List Bytes)
    → add_attributes unicode ck ss ≡ ok key
    → All (IsKeyPart unicode) ss
unfolding add_attributes
made_parts unicode ck key [] h = tt
made_parts unicode ck key (s ∷ ss) h =
    let (t, e, rest) =
      >>=-eq-ok (validate_composite_key_attribute unicode s)
        (λ _. add_attributes unicode (ck ++ (s ++ (0 ∷ []))) ss) h in
    (e, made_parts unicode (ck ++ (s ++ (0 ∷ []))) key ss rest)

split_components-part :
    (component s bs : Bytes)
    → All (λ b. 0 < b) s
    → split_components component (s ++ (0 ∷ bs)) ≡ (component ++ s) ∷ split_components [] bs
unfolding split_components
split_components-part component [] bs h = rw append-nil refl
split_components-part component (zero ∷ s) bs h = absurd (omega (arith, h.0))
split_components-part component (suc b ∷ s) bs h =
    rw (split_components-part (component ++ (suc b ∷ [])) s bs h.1, append_assoc) refl

split_components-parts :
    (unicode : Unicode) (ss : List Bytes)
    → IsUnicode unicode
    → All (IsKeyPart unicode) ss
    → split_components [] (parts ss) ≡ ss
unfolding split_components parts
split_components-parts unicode [] u h = refl
split_components-parts unicode (s ∷ ss) u h =
    rw
      (
        split_components-part [] s (parts ss) (part-positive unicode s u h.0),
        split_components-parts unicode ss u h.1,
      )
      refl

-- Under what Go documents of UTF-8, a composite key that is made splits into the object type and the
-- attributes that it was made of.
pub split_composite_key-create_composite_key :
    (unicode : Unicode) (object_type key : Bytes) (attributes : List Bytes)
    → IsUnicode unicode
    → create_composite_key unicode object_type attributes ≡ ok key
    → split_composite_key key ≡ ok (object_type, attributes)
unfolding create_composite_key split_composite_key
split_composite_key-create_composite_key unicode object_type key attributes u h =
    let (_, e, rest) =
      >>=-eq-ok (validate_composite_key_attribute unicode object_type)
        (λ _. add_attributes unicode (0 ∷ (object_type ++ (0 ∷ []))) attributes) h in
    let all_parts = made_parts unicode (0 ∷ (object_type ++ (0 ∷ []))) key attributes rest in
    let made = create_composite_key-parts unicode object_type attributes e all_parts in
    let same : key ≡ 0 ∷ parts (object_type ∷ attributes) = cc in
    rw (same, split_components-parts unicode (object_type ∷ attributes) u (e, all_parts)) refl
