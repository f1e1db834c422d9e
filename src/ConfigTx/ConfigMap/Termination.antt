-- ===== src/ConfigTx/ConfigMap/Termination.antt =====
-- The recursion that reads a configuration back from a map ends.
use mathlib.Core.Path.{subst}
use fabric.Prelude.{
  ℕ, zero, suc, ◌+◌, ◌≤◌, ◌<◌, ◌≡◌, refl, sym, Option, none, some, [], ◌∷◌, ◌++◌, length,
  length-append, ltb, arith, if◌then◌else◌, Bool-cases, inl, inr,
}
use fabric.Prelude.Bytes.{Bytes, bytes_eq, bytes_eq_iff, bytes_Eq}
use fabric.Prelude.Assoc.{lookup}
use fabric.Prelude.Outcome.{Outcome, ok, err, panic}
use fabric.ConfigTx.{
  ConfigGroup, config_group, Groups, no_groups, with_group, Element, group, value, policy,
  Comparable,
}
use fabric.ConfigTx.ConfigMap.{
  ConfigMap, root_group_key, group_prefix, put_group, with_call, updated_groups, group_of, group_at,
  recurse_config_map, config_map_to_config,
}

abbrev longer : ℕ → ℕ → ℕ
longer a b = if ltb a b then b else a

-- The length of the longest path in the map.
abbrev pub longest_path : ConfigMap → ℕ
longest_path [] = 0
longest_path ((k, c) ∷ m) = longer (length k) (longest_path m)

lookup-longest_path :
    (k : Bytes) (m : ConfigMap) (c : Comparable) → lookup k m ≡ some c → length k ≤ longest_path m
unfolding lookup
lookup-longest_path k [] c e = cc
lookup-longest_path k ((j, d) ∷ m) c e = elim (Bool-cases (bytes_eq j k)) [
  | inl hit ↦ rw (← (bytes_eq_iff j k).0 hit) (ground arith)
  | inr miss ↦ ground (arith, lookup-longest_path k m c (rw miss at e))
]

-- A call that returned.
abbrev pub Returns : {A : Type 0} → Option (Outcome A) → Type 0
Returns {A = A} o = (r : Outcome A) × (o ≡ some r)

module _ (config_map : ConfigMap) where
  updated_groups-Returns :
      (call : Bytes → Option (Outcome ConfigGroup)) (path : Bytes) (gs : Groups)
      → ((key : Bytes) → Returns (call (path ++ 47 ∷ key)))
      → Returns (updated_groups config_map call path gs)
  unfolding updated_groups
  updated_groups-Returns call path no_groups h = (_, refl)
  updated_groups-Returns call path (with_group key g gs) h =
      let (o, e) = h key in
      let (r, f) = updated_groups-Returns call path gs h in
      subst (λ x. Returns (with_call config_map key x (updated_groups config_map call path gs)))
        (sym e) (subst (λ x. Returns (put_group config_map key o x)) (sym f) (by_outcome key o r))
    where
      by_outcome :
          (key : Bytes) (o : Outcome ConfigGroup) (r : Outcome Groups)
          → Returns (put_group config_map key o (some r))
      by_outcome key (ok g') r = (_, refl)
      by_outcome key (err message) r = (_, refl)
      by_outcome key panic r = (_, refl)

  group_of-Returns :
      (call : Bytes → Option (Outcome ConfigGroup)) (path : Bytes) (e : Element)
      → ((key : Bytes) → Returns (call (path ++ 47 ∷ key)))
      → Returns (group_of config_map call path e)
  group_of-Returns call path (group (config_group v gs vs ps m)) h =
      let (r, f) = updated_groups-Returns call path gs h in rw f (_, refl)
  group_of-Returns call path (value v) h = (_, refl)
  group_of-Returns call path (policy p) h = (_, refl)

  -- A path in the map is no longer than the longest, and each call makes it longer.
  recurse_config_map-Returns :
      (fuel : ℕ) (path : Bytes)
      → 0 < fuel
      → suc (longest_path config_map) < length (group_prefix ++ path) + fuel
      → Returns (recurse_config_map config_map fuel path)
  unfolding recurse_config_map
  recurse_config_map-Returns zero path p b = absurd (omega (arith, p))
  recurse_config_map-Returns (suc fuel) path p b =
      by_entry (lookup (group_prefix ++ path) config_map) refl (λ key q.
        recurse_config_map-Returns fuel (path ++ 47 ∷ key) q (
          omega (
            arith,
            b,
            length-append path (47 ∷ key),
            length-append group_prefix path,
            length-append group_prefix (path ++ 47 ∷ key),
          )))
    where
      by_entry :
          (o : Option Comparable)
          → lookup (group_prefix ++ path) config_map ≡ o
          → ((key : Bytes)
              → 0 < fuel
              → Returns (recurse_config_map config_map fuel (path ++ 47 ∷ key)))
          → Returns (group_at config_map (recurse_config_map config_map fuel) path o)
      by_entry none e h = (_, refl)
      by_entry (some c) e h =
          group_of-Returns (recurse_config_map config_map fuel) path c.element (λ key.
            h key (omega (arith, b, lookup-longest_path (group_prefix ++ path) config_map c e)))

  -- Reading a configuration back from a map ends, with a configuration, an error or a panic, for
  -- every fuel that is more than one above the length of the longest path in the map.
  pub config_map_to_config-Returns :
      (fuel : ℕ)
      → suc (longest_path config_map) < fuel
      → Returns (config_map_to_config config_map fuel)
  unfolding config_map_to_config
  config_map_to_config-Returns fuel b =
      recurse_config_map-Returns fuel (47 ∷ root_group_key) (omega (arith, b)) (omega (arith, b))
