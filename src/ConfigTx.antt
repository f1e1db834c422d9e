-- ===== src/ConfigTx.antt =====
-- Channel configuration: common/configtx. Here the messages, and the elements of a configuration that
-- are compared and looked up by their paths (compare.go).
pub mod Names
pub mod ConfigMap
pub mod Update
use fabric.Prelude.{
  ℕ, Option, none, some, Bool, true, false, not, ◌&&◌, ◌||◌, List, [], ◌∷◌, length, ltb, nat_eq,
  if◌then◌else◌,
}
use fabric.Prelude.Bytes.{Bytes, bytes_eq, bytes_Eq}
use fabric.Prelude.Assoc.{Assoc, lookup, keys}

-- The message `Policy`: its type and its value.
abbrev pub Policy : Type 0
Policy = ℕ × Bytes

pub record ConfigValue : Type 0 where
  pub version : ℕ
  pub value : Bytes
  pub mod_policy : Bytes

pub record ConfigPolicy : Type 0 where
  pub version : ℕ
  pub policy : Option Policy
  pub mod_policy : Bytes

-- The version, the groups, the values, the policies and the mod_policy of a group.
mutual
  pub data ConfigGroup : Type 0 where
    config_group :
        ℕ → Groups → Assoc Bytes ConfigValue → Assoc Bytes ConfigPolicy → Bytes → ConfigGroup

  pub data Groups : Type 0 where
    no_groups : Groups
    with_group : Bytes → ConfigGroup → Groups → Groups

-- One of the three pointers of `comparable` is not nil.
pub data Element : Type 0 where
  group : ConfigGroup → Element
  value : ConfigValue → Element
  policy : ConfigPolicy → Element

pub record Comparable : Type 0 where
  pub element : Element
  pub key : Bytes
  pub path : List Bytes

abbrev pub element_version : Element → ℕ
element_version (group (config_group v gs vs ps m)) = v
element_version (value v) = v.version
element_version (policy p) = p.version

unfoldable pub version : Comparable → ℕ
version cg = element_version cg.element

abbrev pub element_mod_policy : Element → Bytes
element_mod_policy (group (config_group v gs vs ps m)) = m
element_mod_policy (value v) = v.mod_policy
element_mod_policy (policy p) = p.mod_policy

unfoldable pub mod_policy : Comparable → Bytes
mod_policy cg = element_mod_policy cg.element

unfoldable pub equal_config_values : ConfigValue → ConfigValue → Bool
equal_config_values lhs rhs =
    nat_eq lhs.version rhs.version
    && bytes_eq lhs.mod_policy rhs.mod_policy
    && bytes_eq lhs.value rhs.value

abbrev equal_policies : Option Policy → Option Policy → Bool
equal_policies none none = true
equal_policies none (some q) = false
equal_policies (some p) none = false
equal_policies (some p) (some q) = nat_eq p.0 q.0 && bytes_eq p.1 q.1

unfoldable pub equal_config_policies : ConfigPolicy → ConfigPolicy → Bool
equal_config_policies lhs rhs =
    if not (nat_eq lhs.version rhs.version) || not (bytes_eq lhs.mod_policy rhs.mod_policy)
    then false
    else equal_policies lhs.policy rhs.policy

abbrev pub group_names : Groups → List Bytes
group_names no_groups = []
group_names (with_group name g gs) = name ∷ group_names gs

abbrev member : Bytes → List Bytes → Bool
member k [] = false
member k (x ∷ xs) = let rest = member k xs in if bytes_eq x k then true else rest

abbrev all_in : List Bytes → List Bytes → Bool
all_in [] outer = true
all_in (k ∷ inner) outer = member k outer && all_in inner outer

-- `subsetOfGroups`, `subsetOfPolicies` and `subsetOfValues`, on the keys of the maps.
unfoldable pub subset_of : List Bytes → List Bytes → Bool
subset_of [] outer = true
subset_of (k ∷ inner) outer =
    if ltb (length outer) (length (k ∷ inner)) then false else all_in (k ∷ inner) outer

unfoldable pub equal_config_group : ConfigGroup → ConfigGroup → Bool
unfolding subset_of
equal_config_group (config_group v gs vs ps m) (config_group v' gs' vs' ps' m') =
    if not (nat_eq v v') || not (bytes_eq m m')
    then false
    else subset_of (group_names gs) (group_names gs')
      && subset_of (group_names gs') (group_names gs)
      && subset_of (keys ps) (keys ps')
      && subset_of (keys ps') (keys ps)
      && subset_of (keys vs) (keys vs')
      && subset_of (keys vs') (keys vs)

abbrev element_equals : Element → Element → Bool
unfolding equal_config_group equal_config_values equal_config_policies
element_equals (group g) (group g') = equal_config_group g g'
element_equals (value v) (value v') = equal_config_values v v'
element_equals (policy p) (policy p') = equal_config_policies p p'
element_equals _ _ = false

unfoldable pub equals : Comparable → Comparable → Bool
unfolding element_equals
equals cg other = element_equals cg.element other.element
