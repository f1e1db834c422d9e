-- ===== src/Examples/Configuration.antt =====
-- Updates of a small channel configuration.
use fabric.Prelude.{ℕ, ◌≡◌, ◌↔◌, refl, some, true, List, [], ◌∷◌, arith}
use fabric.Prelude.Bytes.{Bytes, codes, bytes_eq}
use fabric.Prelude.Assoc.{lookup, insert}
use fabric.Prelude.Outcome.{Outcome, ok, panic}
use fabric.ConfigTx.{ConfigGroup, config_group, no_groups, with_group, ConfigValue}
use fabric.ConfigTx.Names.{IsConfigId, validate_config_id, validate_config_id_iff}
use fabric.ConfigTx.ConfigMap.{ConfigMap, map_config, config_map_to_config}
use fabric.ConfigTx.ConfigMap.Termination.{Returns, config_map_to_config-Returns}
use fabric.ConfigTx.Update.{
  PolicyManager, ConfigUpdateEnvelope, Messages, ConfigSet, authorize_update,
}
use fabric.ConfigTx.Update.Authorized.{IsAuthorized, authorize_update-IsAuthorized}

abbrev willing : PolicyManager
willing = record {
  Manager = Unit {0};
  root = tt;
  manager = λ m path. some m;
  get_policy = λ m name. some (λ signed_data. true);
}

abbrev size_at : ℕ → ConfigValue
size_at v = record { version = v; value = codes "10"; mod_policy = codes "Admins" }

-- The root group at a version, with one group that holds one value or none.
abbrev channel_at : ℕ → List (Bytes × ConfigValue) → ConfigGroup
channel_at v values =
    config_group v
      (with_group (codes "App") (config_group 0 no_groups values [] (codes "Admins")) no_groups) []
      [] (codes "Admins")

abbrev or_empty : Outcome ConfigMap → ConfigMap
or_empty (ok m) = m
or_empty _ = []

abbrev config_map : ConfigMap
config_map = or_empty (map_config (some (channel_at 0 ((codes "Size", size_at 0) ∷ []))))

abbrev current : ConfigSet
current = record { channel_id = codes "ch"; config_map = config_map }

-- An envelope whose update is known.
abbrev update_to : ConfigGroup → Messages
update_to write_set = record {
  unmarshal_config_update = λ b. ok (record {
    channel_id = codes "ch";
    read_set = some (channel_at 0 []);
    write_set = some write_set;
  });
  as_signed_data = λ env. ok [];
}

abbrev envelope : ConfigUpdateEnvelope
envelope = record { config_update = []; signatures = [] }

abbrev new_size : Messages
new_size = update_to (channel_at 0 ((codes "Size", size_at 1) ∷ []))

abbrev full : ConfigMap
full = or_empty (authorize_update willing new_size current (some envelope))

authorize_update-IsAuthorized_example : IsAuthorized willing new_size current envelope full
unfolding authorize_update validate_config_id bytes_eq insert lookup
authorize_update-IsAuthorized_example =
    authorize_update-IsAuthorized willing new_size current envelope full refl

-- An update of the root group.
abbrev new_root : Messages
new_root = update_to (channel_at 1 [])

new_root-panics : authorize_update willing new_root current (some envelope) ≡ panic
unfolding authorize_update validate_config_id bytes_eq insert lookup
new_root-panics = refl

config_map_to_config-Returns_example : Returns (config_map_to_config config_map 100)
unfolding map_config validate_config_id bytes_eq insert
config_map_to_config-Returns_example = config_map_to_config-Returns config_map 100 (omega arith)

validate_config_id_iff_example :
    (validate_config_id (codes "App") ≡ ok tt) ↔ IsConfigId (codes "App")
validate_config_id_iff_example = validate_config_id_iff (codes "App")
