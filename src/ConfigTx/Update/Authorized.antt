-- ===== src/ConfigTx/Update/Authorized.antt =====
-- What an authorized update may change.
use mathlib.Core.Path.{subst}
use fabric.Prelude.{
  suc, ◌%◌, ◌^◌, ◌≡◌, ◌⊎◌, inl, inr, refl, Option, none, some, Bool, true, List, [], ◌∷◌, nat_eq,
  if◌then◌else◌, arith, Bool-cases, All,
}
use fabric.Prelude.Bytes.{Bytes, bytes_eq, bytes_eq_iff, bytes_Eq}
use fabric.Prelude.Assoc.{lookup, insert, lookup-insert}
use fabric.Prelude.Outcome.{Outcome, ok, err, >>=-eq-ok}
use fabric.Policies.Signature.{SignedData}
use fabric.ConfigTx.{Comparable, version, mod_policy}
use fabric.ConfigTx.Names.{validate_mod_policy}
use fabric.ConfigTx.ConfigMap.{ConfigMap, map_config}
use fabric.ConfigTx.Update.{
  PolicyManager, ConfigUpdate, ConfigUpdateEnvelope, Messages, ConfigSet, verify_read_set,
  compute_delta_set, policy_for_item, satisfied, verify_element, verify_elements, verify_delta_set,
  compute_update_result, verify_full_proposed_config, authorize_update,
}

abbrev Test : Type 0
Test = Outcome (Unit {0})

module _ (policies : PolicyManager) (config_map : ConfigMap) (signed_data : List SignedData) where
  -- A new element has version 0; one that exists gets the next version, and the policy that it names
  -- is satisfied.
  pub data MayWrite (key : Bytes) (v : Comparable) : Type 0 where
    new_element : lookup key config_map ≡ none → version v ≡ 0 → MayWrite key v
    next_version :
        (existing : Comparable) (p : List SignedData → Bool)
        → lookup key config_map ≡ some existing
        → version v ≡ suc (version existing) % 2 ^ 64
        → policy_for_item policies existing ≡ ok (some p)
        → p signed_data ≡ true
        → MayWrite key v

  verify_element-MayWrite :
      (key : Bytes) (v : Comparable)
      → verify_element policies signed_data v (lookup key config_map) ≡ ok tt
      → MayWrite key v
  verify_element-MayWrite key v e = by_existing (lookup key config_map) refl e
    where
      by_policy :
          (existing : Comparable) (o : Option (List SignedData → Bool))
          → lookup key config_map ≡ some existing
          → version v ≡ suc (version existing) % 2 ^ 64
          → policy_for_item policies existing ≡ ok o
          → satisfied policies signed_data o ≡ ok tt
          → MayWrite key v
      by_policy existing none l w p s = cc
      by_policy existing (some q) l w p s = next_version existing q l w p (ground (arith, s))

      by_existing :
          (o : Option Comparable)
          → lookup key config_map ≡ o
          → verify_element policies signed_data v o ≡ ok tt
          → MayWrite key v
      by_existing none l s = new_element l (ground (arith, s))
      by_existing (some existing) l s =
          elim (Bool-cases (nat_eq (version v) (suc (version existing) % 2 ^ 64))) [
            | inl same ↦
                let (o, p, s') =
                  >>=-eq-ok (policy_for_item policies existing) (satisfied policies signed_data)
                    (rw same at s) in
                by_policy existing o l (ground (arith, same)) p s'
            | inr other ↦ absurd (refused (rw other at s))
          ]
        where
          refused : ◌≡◌ {A = Test} (err []) (ok tt) → ⊥
          refused g = cc

  abbrev AllMayWrite : ConfigMap → Type 0
  AllMayWrite = All (λ (key, v). MayWrite key v)

  verify_elements-AllMayWrite :
      (delta_set : ConfigMap)
      → verify_elements policies config_map signed_data delta_set ≡ ok tt
      → AllMayWrite delta_set
  unfolding verify_elements
  verify_elements-AllMayWrite [] e = tt
  verify_elements-AllMayWrite ((key, v) ∷ delta_set) e =
      let (a, m, e') = >>=-eq-ok (validate_mod_policy (mod_policy v)) _ e in
      let (b, w, e'') =
        >>=-eq-ok (verify_element policies signed_data v (lookup key config_map)) _ e' in
      (verify_element-MayWrite key v w, verify_elements-AllMayWrite delta_set e'')

  -- The element at a key stays as it is, or a permitted one is written there.
  abbrev pub IsPermitted : Bytes → Option Comparable → Type 0
  IsPermitted key o =
      (o ≡ lookup key config_map) ⊎ ((v : Comparable) × (o ≡ some v) × MayWrite key v)

  compute_update_result-IsPermitted :
      (delta_set m : ConfigMap)
      → AllMayWrite delta_set
      → ((key : Bytes) → IsPermitted key (lookup key m))
      → (key : Bytes) → IsPermitted key (lookup key (compute_update_result policies m delta_set))
  unfolding compute_update_result
  compute_update_result-IsPermitted [] m w h key = h key
  compute_update_result-IsPermitted ((k, v) ∷ delta_set) m w h key =
      compute_update_result-IsPermitted delta_set (insert k v m) w.1 (λ j. written j) key
    where
      written : (j : Bytes) → IsPermitted j (lookup j (insert k v m))
      written j = elim (Bool-cases (bytes_eq k j)) [
        | inl same ↦
            rw (lookup-insert k j v m, same)
              (inr (v, refl, subst (λ x. MayWrite x v) ((bytes_eq_iff k j).0 same) w.0))
        | inr other ↦ rw (lookup-insert k j v m, other) (h j)
      ]

  delta-AllMayWrite :
      (delta_set : ConfigMap)
      → verify_delta_set policies config_map signed_data delta_set ≡ ok tt
      → AllMayWrite delta_set
  unfolding verify_delta_set
  delta-AllMayWrite [] e = tt
  delta-AllMayWrite (d ∷ delta_set) e = verify_elements-AllMayWrite (d ∷ delta_set) e

module _ (policies : PolicyManager) (messages : Messages) (current : ConfigSet) where
  -- What is known of the configuration that an update gives.
  pub record IsAuthorized (env : ConfigUpdateEnvelope) (full : ConfigMap) : Type 0 where
    pub update : ConfigUpdate
    pub signed_data : List SignedData
    pub is_update : messages.unmarshal_config_update env.config_update ≡ ok update
    pub right_channel : update.channel_id ≡ current.channel_id
    pub signed : messages.as_signed_data env ≡ ok signed_data
    pub permitted :
        (key : Bytes) → IsPermitted policies current.config_map signed_data key (lookup key full)

  -- If an update is authorized, its envelope is one for this channel, and every element of the
  -- configuration that it gives is the current one at its path or a permitted one: new with version 0,
  -- or with the version after that of the current one, whose policy the signatures of the envelope
  -- satisfy. No element is removed.
  pub authorize_update-IsAuthorized :
      (env : ConfigUpdateEnvelope) (full : ConfigMap)
      → authorize_update policies messages current (some env) ≡ ok full
      → IsAuthorized env full
  unfolding authorize_update
  authorize_update-IsAuthorized env full e =
      let (update, u, e1) = >>=-eq-ok (messages.unmarshal_config_update env.config_update) _ e in
      let (t, c, e2) =
        >>=-eq-ok (if bytes_eq update.channel_id current.channel_id then ok true else err []) _
          e1 in
      let (read_set, r, e3) = >>=-eq-ok (map_config update.read_set) _ e2 in
      let (read_ok, v, e4) = >>=-eq-ok (verify_read_set current.config_map read_set) _ e3 in
      let (write_set, w, e5) = >>=-eq-ok (map_config update.write_set) _ e4 in
      let (signed_data, s, e6) = >>=-eq-ok (messages.as_signed_data env) _ e5 in
      let (delta_ok, d, e7) =
        >>=-eq-ok
          (verify_delta_set policies current.config_map signed_data
            (compute_delta_set read_set write_set))
          _ e6 in
      let (full_ok, f, e8) =
        >>=-eq-ok
          (verify_full_proposed_config policies write_set (
            compute_update_result policies current.config_map
              (compute_delta_set read_set write_set)))
          _ e7 in
      record {
        update = update;
        signed_data = signed_data;
        is_update = u;
        right_channel = ground (arith, c, bytes_eq_iff update.channel_id current.channel_id);
        signed = s;
        permitted = λ key.
            subst (λ m. IsPermitted policies current.config_map signed_data key (lookup key m))
              (ok-same e8)
              (compute_update_result-IsPermitted policies current.config_map signed_data
                (compute_delta_set read_set write_set) current.config_map
                (delta-AllMayWrite policies current.config_map signed_data _ d) (λ j. inl refl)
                key);
      }
    where
      ok-same : {a b : ConfigMap} → ok a ≡ ok b → a ≡ b
      ok-same g = cc
