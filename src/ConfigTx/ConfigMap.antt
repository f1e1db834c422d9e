-- ===== src/ConfigTx/ConfigMap.antt =====
-- common/configtx/configmap.go: a configuration as a map from the paths of its elements, and back. The
-- messages of the errors are left out.
pub mod Termination
use fabric.Prelude.{
  ℕ, zero, suc, ◌+◌, ◌≤◌, ◌<◌, ◌≡◌, refl, ap, sym, ◌∙◌, Option, none, some, Bool, true, false, List,
  [], ◌∷◌, ◌++◌, length, length-append, ltb, arith, if◌then◌else◌, Bool-cases, inl, inr,
}
use fabric.Prelude.Bytes.{Bytes, codes, bytes_eq, bytes_eq_iff, bytes_Eq}
use fabric.Prelude.Assoc.{Assoc, lookup, insert, keys}
use fabric.Prelude.Outcome.{Outcome, ok, err, panic, ◌>>=◌, ◌>>◌}
use fabric.ConfigTx.{
  ConfigValue, ConfigPolicy, ConfigGroup, config_group, Groups, no_groups, with_group, Element,
  group, value, policy, Comparable,
}
use fabric.ConfigTx.Names.{validate_config_id}

abbrev pub ConfigMap : Type 0
ConfigMap = Assoc Bytes Comparable

abbrev pub root_group_key : Bytes
root_group_key = codes "Channel"

abbrev pub group_prefix : Bytes
group_prefix = codes "[Groups] "

abbrev pub value_prefix : Bytes
value_prefix = codes "[Values] "

abbrev pub policy_prefix : Bytes
policy_prefix = codes "[Policy] "

abbrev prefix_of : Element → Bytes
prefix_of (group g) = group_prefix
prefix_of (value v) = value_prefix
prefix_of (policy p) = policy_prefix

-- `strings.Join` with the separator 47.
abbrev pub join : List Bytes → Bytes
join [] = []
join (p ∷ []) = p
join (p ∷ q ∷ path) = p ++ 47 ∷ join (q ∷ path)

abbrev pub fq_path : Comparable → Bytes
fq_path cg = elim cg.path [
  | [] ↦ prefix_of cg.element ++ 47 ∷ cg.key
  | p ∷ path ↦ prefix_of cg.element ++ 47 ∷ join (p ∷ path) ++ 47 ∷ cg.key
]

unfoldable pub add_to_map : Comparable → ConfigMap → Outcome ConfigMap
unfolding validate_config_id
add_to_map cg result = validate_config_id cg.key >> ok (insert (fq_path cg) cg result)

unfoldable pub add_values : ConfigMap → List Bytes → Assoc Bytes ConfigValue → Outcome ConfigMap
unfolding add_to_map
add_values result path [] = ok result
add_values result path ((k, v) ∷ vs) =
    add_to_map (record { element = value v; key = k; path = path }) result >>= λ r.
    add_values r path vs

unfoldable pub add_policies : ConfigMap → List Bytes → Assoc Bytes ConfigPolicy → Outcome ConfigMap
unfolding add_to_map
add_policies result path [] = ok result
add_policies result path ((k, p) ∷ ps) =
    add_to_map (record { element = policy p; key = k; path = path }) result >>= λ r.
    add_policies r path ps

-- The path of a group is that of its parents and its key.
unfoldable mutual
  unfolding add_to_map add_values add_policies

  pub recurse_config : ConfigMap → List Bytes → Bytes → ConfigGroup → Outcome ConfigMap
  recurse_config result parents key (config_group v gs vs ps m) =
      let path = parents ++ key ∷ [] in
      add_to_map (record { element = group (config_group v gs vs ps m); key = key; path = parents })
        result
      >>= λ r1. recurse_groups r1 path gs >>= λ r2.
          add_values r2 path vs >>= λ r3. add_policies r3 path ps

  pub recurse_groups : ConfigMap → List Bytes → Groups → Outcome ConfigMap
  recurse_groups result path no_groups = ok result
  recurse_groups result path (with_group key g gs) =
      recurse_config result path key g >>= λ r. recurse_groups r path gs

unfoldable pub map_config : Option ConfigGroup → Outcome ConfigMap
unfolding recurse_config
map_config none = ok []
map_config (some channel_group) = recurse_config [] [] root_group_key channel_group

abbrev value_at : Option Comparable → Outcome ConfigValue
value_at none = err []
value_at (some c) = elim c.element [ value v ↦ ok v | _ ↦ err [] ]

abbrev policy_at : Option Comparable → Outcome ConfigPolicy
policy_at none = err []
policy_at (some c) = elim c.element [ policy p ↦ ok p | _ ↦ err [] ]

module _ (config_map : ConfigMap) where
  unfoldable pub updated_values :
      Bytes → Assoc Bytes ConfigValue → Outcome (Assoc Bytes ConfigValue)
  updated_values path [] = ok []
  updated_values path ((k, old) ∷ vs) =
      value_at (lookup (value_prefix ++ path ++ 47 ∷ k) config_map) >>= λ v.
      updated_values path vs >>= λ rest. ok ((k, v) ∷ rest)

  unfoldable pub updated_policies :
      Bytes → Assoc Bytes ConfigPolicy → Outcome (Assoc Bytes ConfigPolicy)
  updated_policies path [] = ok []
  updated_policies path ((k, old) ∷ ps) =
      policy_at (lookup (policy_prefix ++ path ++ 47 ∷ k) config_map) >>= λ p.
      updated_policies path ps >>= λ rest. ok ((k, p) ∷ rest)

  -- The groups, each by a call that may run out of fuel.
  abbrev put_group : Bytes → Outcome ConfigGroup → Option (Outcome Groups) → Option (Outcome Groups)
  put_group key (ok g) (some rest) = some (rest >>= λ gs. ok (with_group key g gs))
  put_group key (ok g) none = none
  put_group key (err e) rest = some (err e)
  put_group key panic rest = some panic

  abbrev with_call :
      Bytes → Option (Outcome ConfigGroup) → Option (Outcome Groups) → Option (Outcome Groups)
  with_call key none rest = none
  with_call key (some o) rest = put_group key o rest

  unfoldable pub updated_groups :
      (Bytes → Option (Outcome ConfigGroup)) → Bytes → Groups → Option (Outcome Groups)
  updated_groups call path no_groups = some (ok no_groups)
  updated_groups call path (with_group key g gs) =
      let rest = updated_groups call path gs in with_call key (call (path ++ 47 ∷ key)) rest

  abbrev rebuilt :
      ℕ
      → Bytes
      → Assoc Bytes ConfigValue
      → Assoc Bytes ConfigPolicy
      → Bytes
      → Outcome Groups
      → Outcome ConfigGroup
  rebuilt v path vs ps m groups = groups >>= λ gs. updated_values path vs >>= λ vs'.
      updated_policies path ps >>= λ ps'. ok (config_group v gs vs' ps' m)

  abbrev when_done :
      (Outcome Groups → Outcome ConfigGroup)
      → Option (Outcome Groups)
      → Option (Outcome ConfigGroup)
  when_done f none = none
  when_done f (some o) = some (f o)

  abbrev group_of :
      (Bytes → Option (Outcome ConfigGroup)) → Bytes → Element → Option (Outcome ConfigGroup)
  group_of call path (group (config_group v gs vs ps m)) =
      when_done (rebuilt v path vs ps m) (updated_groups call path gs)
  group_of call path _ = some (err [])

  abbrev group_at :
      (Bytes → Option (Outcome ConfigGroup))
      → Bytes
      → Option Comparable
      → Option (Outcome ConfigGroup)
  group_at call path none = some (err [])
  group_at call path (some c) = group_of call path c.element

  -- Out of fuel is `none`.
  unfoldable pub recurse_config_map : ℕ → Bytes → Option (Outcome ConfigGroup)
  unfolding updated_groups updated_values updated_policies
  recurse_config_map zero path = none
  recurse_config_map (suc fuel) path =
      group_at (recurse_config_map fuel) path (lookup (group_prefix ++ path) config_map)

  unfoldable pub config_map_to_config : ℕ → Option (Outcome ConfigGroup)
  unfolding recurse_config_map
  config_map_to_config fuel = recurse_config_map fuel (47 ∷ root_group_key)
