-- ===== src/ConfigTx/Update.antt =====
-- common/configtx/update.go: whether an update of the configuration is authorized, and what it gives.
-- The messages of the errors are left out.
pub mod Authorized
use fabric.Prelude.{
  ℕ, suc, ◌%◌, ◌^◌, ◌≡◌, Option, none, some, Bool, true, false, not, ◌&&◌, List, [], ◌∷◌, ◌++◌,
  nat_eq, if◌then◌else◌,
}
use fabric.Prelude.Bytes.{Bytes, bytes_eq, bytes_Eq}
use fabric.Prelude.Assoc.{Assoc, lookup, insert}
use fabric.Prelude.Outcome.{Outcome, ok, err, panic, ◌>>=◌, ◌>>◌}
use fabric.Policies.Signature.{SignedData}
use fabric.ConfigTx.{ConfigGroup, Element, group, value, policy, Comparable, version, mod_policy}
use fabric.ConfigTx.Names.{validate_mod_policy}
use fabric.ConfigTx.ConfigMap.{ConfigMap, map_config}

-- The policy managers of common/policies: a manager of the groups at a path below one, and the
-- policies of a manager.
pub record PolicyManager : Type 1 where
  pub Manager : Type 0
  pub root : Manager
  pub manager : Manager → List Bytes → Option Manager
  pub get_policy : Manager → Bytes → Option (List SignedData → Bool)

pub record ConfigUpdate : Type 0 where
  pub channel_id : Bytes
  pub read_set : Option ConfigGroup
  pub write_set : Option ConfigGroup

-- The message, whose signatures are not read here.
pub record ConfigUpdateEnvelope : Type 0 where
  pub config_update : Bytes
  pub signatures : List Bytes

-- The decoding of the update and of the signatures of its envelope, from protos.
pub record Messages : Type 0 where
  pub unmarshal_config_update : Bytes → Outcome ConfigUpdate
  pub as_signed_data : ConfigUpdateEnvelope → Outcome (List SignedData)

pub record ConfigSet : Type 0 where
  pub channel_id : Bytes
  pub config_map : ConfigMap

abbrev at_version : ℕ → Option Comparable → Outcome (Unit {0})
at_version v none = err []
at_version v (some existing) = if nat_eq (version existing) v then ok tt else err []

unfoldable pub verify_read_set : ConfigMap → ConfigMap → Outcome (Unit {0})
unfolding version
verify_read_set config_map [] = ok tt
verify_read_set config_map ((key, v) ∷ read_set) =
    at_version (version v) (lookup key config_map) >> verify_read_set config_map read_set

abbrev is_read : Option Comparable → ℕ → Bool
is_read none v = false
is_read (some read_val) v = nat_eq (version read_val) v

unfoldable pub compute_delta_set : ConfigMap → ConfigMap → ConfigMap
unfolding version
compute_delta_set read_set [] = []
compute_delta_set read_set ((key, v) ∷ write_set) =
    let rest = compute_delta_set read_set write_set in
    if is_read (lookup key read_set) (version v) then rest else insert key v rest

module _ (policies : PolicyManager) where
  abbrev in_group : Comparable → policies.Manager → Option policies.Manager
  in_group item m = elim item.element [ group g ↦ policies.manager m (item.key ∷ []) | _ ↦ some m ]

  abbrev policy_of : Comparable → Option policies.Manager → Option (List SignedData → Bool)
  policy_of item none = none
  policy_of item (some m) = policies.get_policy m (mod_policy item)

  abbrev and_then :
      Option policies.Manager
      → (policies.Manager → Option policies.Manager)
      → Option policies.Manager
  and_then none f = none
  and_then (some m) f = f m

  -- `item.path[1:]` of an empty path panics.
  unfoldable pub policy_for_item : Comparable → Outcome (Option (List SignedData → Bool))
  unfolding mod_policy
  policy_for_item item = elim item.path [
    | [] ↦ panic
    | p ∷ path ↦
        ok (policy_of item (and_then (policies.manager policies.root path) (in_group item)))
  ]

  abbrev satisfied : List SignedData → Option (List SignedData → Bool) → Outcome (Unit {0})
  satisfied signed_data none = err []
  satisfied signed_data (some p) = if p signed_data then ok tt else err []

  -- `existing.version()+1` of a uint64 wraps around.
  abbrev verify_element : List SignedData → Comparable → Option Comparable → Outcome (Unit {0})
  verify_element signed_data v none = if nat_eq (version v) 0 then ok tt else err []
  verify_element signed_data v (some existing) =
      if nat_eq (version v) (suc (version existing) % 2 ^ 64)
      then policy_for_item existing >>= satisfied signed_data
      else err []

  unfoldable pub verify_elements : ConfigMap → List SignedData → ConfigMap → Outcome (Unit {0})
  unfolding version validate_mod_policy mod_policy policy_for_item
  verify_elements config_map signed_data [] = ok tt
  verify_elements config_map signed_data ((key, v) ∷ delta_set) =
      validate_mod_policy (mod_policy v)
      >> (verify_element signed_data v (lookup key config_map)
          >> verify_elements config_map signed_data delta_set)

  unfoldable pub verify_delta_set : ConfigMap → List SignedData → ConfigMap → Outcome (Unit {0})
  unfolding verify_elements
  verify_delta_set config_map signed_data [] = err []
  verify_delta_set config_map signed_data (e ∷ delta_set) =
      verify_elements config_map signed_data (e ∷ delta_set)

  -- The current map with the updated elements written over it.
  unfoldable pub compute_update_result : ConfigMap → ConfigMap → ConfigMap
  compute_update_result config_map [] = config_map
  compute_update_result config_map ((key, v) ∷ updated_config) =
      compute_update_result (insert key v config_map) updated_config

  abbrev present : Option Comparable → Outcome (Unit {0})
  present none = err []
  present (some c) = ok tt

  unfoldable pub verify_full_proposed_config : ConfigMap → ConfigMap → Outcome (Unit {0})
  verify_full_proposed_config [] full_proposed_config = ok tt
  verify_full_proposed_config ((key, v) ∷ write_set) full_proposed_config =
      present (lookup key full_proposed_config)
      >> verify_full_proposed_config write_set full_proposed_config

  unfoldable pub authorize_update :
      Messages → ConfigSet → Option ConfigUpdateEnvelope → Outcome ConfigMap
  unfolding map_config verify_read_set compute_delta_set verify_delta_set compute_update_result
      verify_full_proposed_config
  authorize_update messages current none = err []
  authorize_update messages current (some env) = do
    config_update ← messages.unmarshal_config_update env.config_update
    right_channel ← if bytes_eq config_update.channel_id current.channel_id then ok true else err []
    read_set ← map_config config_update.read_set
    read_ok ← verify_read_set current.config_map read_set
    write_set ← map_config config_update.write_set
    signed_data ← messages.as_signed_data env
    delta_ok ←
        verify_delta_set current.config_map signed_data (compute_delta_set read_set write_set)
    full_ok ←
        verify_full_proposed_config write_set
          (compute_update_result current.config_map (compute_delta_set read_set write_set))
    ok (compute_update_result current.config_map (compute_delta_set read_set write_set))
