-- ===== src/Assets/Shim.antt =====
-- What the chaincode uses of the shim, core/chaincode/shim/chaincode.go: the state that a transaction
-- reads, the writes that it collects, and composite keys. Reads answer from the state at the start,
-- not from the writes. Messages are without the values that the code formats into them.
use fabric.Prelude.{
  ℕ, zero, suc, nat_eq, Option, none, some, Bool, true, false, not, ◌||◌, List, [], ◌∷◌, ◌++◌,
  if◌then◌else◌,
}
use fabric.Prelude.Bytes.{Bytes, codes}
use fabric.Prelude.Outcome.{Outcome, ok, err, panic, ◌>>=◌, ◌>>◌}

-- One write: a key with its value, or with none for a deletion.
abbrev pub StateWrite : Type 0
StateWrite = Bytes × Option Bytes

-- `utf8.ValidString`, and the runes that `range` goes through in a string.
pub record Unicode : Type 0 where
  pub valid_string : Bytes → Bool
  pub runes : Bytes → List ℕ

-- The handler, which asks the peer: an absent key is read as no bytes, and the peer may refuse a
-- write. A range is given as the values of its keys, or the error of a `Next`.
pub record Stub : Type 0 where
  pub unicode : Unicode
  pub handle_get_state : Bytes → Outcome Bytes
  pub handle_put_state : Bytes → Bytes → Outcome (Unit {0})
  pub handle_del_state : Bytes → Outcome (Unit {0})
  pub handle_get_state_by_range : Bytes → Bytes → Outcome (List (Outcome Bytes))

abbrev pub is_empty : Bytes → Bool
is_empty [] = true
is_empty (b ∷ bs) = false

abbrev pub min_unicode_rune_value : ℕ
min_unicode_rune_value = 0

abbrev pub max_unicode_rune_value : ℕ
max_unicode_rune_value = 1114111

unfoldable pub check_runes : List ℕ → Outcome (Unit {0})
check_runes [] = ok tt
check_runes (rune ∷ rest) =
    let others = check_runes rest in
    if nat_eq rune min_unicode_rune_value || nat_eq rune max_unicode_rune_value
    then err (codes "Input contain unicode starting at position")
    else others

unfoldable pub validate_composite_key_attribute : Unicode → Bytes → Outcome (Unit {0})
unfolding check_runes
validate_composite_key_attribute unicode str =
    if not (unicode.valid_string str)
    then err (codes "Not a valid utf8 string")
    else check_runes (unicode.runes str)

-- The loop over the attributes, with the key made so far.
unfoldable pub add_attributes : Unicode → Bytes → List Bytes → Outcome Bytes
unfolding validate_composite_key_attribute
add_attributes unicode ck [] = ok ck
add_attributes unicode ck (att ∷ rest) =
    validate_composite_key_attribute unicode att
    >> add_attributes unicode (ck ++ (att ++ (min_unicode_rune_value ∷ []))) rest

unfoldable pub create_composite_key : Unicode → Bytes → List Bytes → Outcome Bytes
unfolding validate_composite_key_attribute add_attributes
create_composite_key unicode object_type attributes =
    validate_composite_key_attribute unicode object_type
    >> add_attributes unicode (0 ∷ (object_type ++ (min_unicode_rune_value ∷ []))) attributes

-- The loop over the bytes, with the component read so far; what does not end in a zero byte is left out.
unfoldable pub split_components : Bytes → Bytes → List Bytes
split_components component [] = []
split_components component (zero ∷ bs) = component ∷ split_components [] bs
split_components component (suc b ∷ bs) = split_components (component ++ (suc b ∷ [])) bs

abbrev pub first_component : List Bytes → Outcome (Bytes × List Bytes)
first_component [] = panic
first_component (c ∷ cs) = ok (c, cs)

-- The first byte is the namespace of the composite keys.
unfoldable pub split_composite_key : Bytes → Outcome (Bytes × List Bytes)
unfolding split_components
split_composite_key [] = panic
split_composite_key (b ∷ bs) = first_component (split_components [] bs)

-- The last rune is written in four bytes.
unfoldable pub get_state_by_partial_composite_key :
    Stub → Bytes → List Bytes → Outcome (List (Outcome Bytes))
unfolding create_composite_key
get_state_by_partial_composite_key stub object_type attributes =
    create_composite_key stub.unicode object_type attributes >>= λ key.
    stub.handle_get_state_by_range key (key ++ (244 ∷ 143 ∷ 191 ∷ 191 ∷ []))

-- The writes so far, and how the call goes on: a value, or the message of an error response.
pub record Call (A : Type 0) : Type 0 where
  pub writes : List StateWrite
  pub result : Outcome A

abbrev pub lift : {A : Type 0} → Outcome A → Call A
lift o = record { writes = []; result = o }

abbrev pub done : {A : Type 0} → A → Call A
done a = lift (ok a)

abbrev pub fail : {A : Type 0} → Bytes → Call A
fail message = lift (err message)

abbrev pub and_then : {A B : Type 0} → List StateWrite → Outcome A → (A → Call B) → Call B
and_then ws (ok a) f = record { writes = ws ++ (f a).writes; result = (f a).result }
and_then ws (err e) f = record { writes = ws; result = err e }
and_then ws panic f = record { writes = ws; result = panic }

infixr 4 ◌>>>=◌
abbrev pub ◌>>>=◌ : {A B : Type 0} → Call A → (A → Call B) → Call B
c >>>= f = and_then c.writes c.result f

abbrev pub get_state : Stub → Bytes → Outcome Bytes
get_state stub key = stub.handle_get_state key

abbrev written : Bytes → Option Bytes → Outcome (Unit {0}) → Call (Unit {0})
written key value (ok _) = record { writes = (key, value) ∷ []; result = ok tt }
written key value (err e) = fail e
written key value panic = lift panic

unfoldable pub put_state : Stub → Bytes → Bytes → Call (Unit {0})
put_state stub key value = written key (some value) (
    if is_empty key
    then err (codes "key must not be an empty string")
    else stub.handle_put_state key value)

abbrev pub del_state : Stub → Bytes → Call (Unit {0})
del_state stub key = written key none (stub.handle_del_state key)
