-- ===== src/Assets.antt =====
-- The chaincode of imocc/chaincode/assetsExchange: users that own assets, and the history of the
-- owners of each asset. The message of a failed call of the shim or of `encoding/json` is passed on
-- as it is, without the words that the chaincode puts before it.
pub mod Shim
pub mod Composite
pub mod Transfer
use fabric.Prelude.{
  Option, none, some, Bool, true, false, ◌||◌, ◌&&◌, not, List, [], ◌∷◌, ◌++◌, if◌then◌else◌,
}
use fabric.Prelude.Bytes.{Bytes, codes, bytes_eq}
use fabric.Prelude.Outcome.{Outcome, ok, err, panic, ◌>>=◌}
use Shim.{
  Stub, Call, lift, is_empty, get_state, put_state, del_state, create_composite_key,
  get_state_by_partial_composite_key, fail, done, ◌>>>=◌,
}

pub record User : Type 0 where
  pub name : Bytes
  pub id : Bytes
  pub assets : List Bytes

pub record Asset : Type 0 where
  pub name : Bytes
  pub id : Bytes
  pub metadata : Bytes

pub record AssetHistory : Type 0 where
  pub asset_id : Bytes
  pub origin_owner_id : Bytes
  pub current_owner_id : Bytes

-- `encoding/json` on the three types. `marshal_histories` is for a list of them.
pub record Json : Type 0 where
  pub marshal_user : User → Outcome Bytes
  pub unmarshal_user : Bytes → Outcome User
  pub marshal_asset : Asset → Outcome Bytes
  pub marshal_history : AssetHistory → Outcome Bytes
  pub unmarshal_history : Bytes → Outcome AssetHistory
  pub marshal_histories : List AssetHistory → Outcome Bytes

abbrev pub origin_owner : Bytes
origin_owner = codes "originOwnerPlaceholder"

unfoldable pub construct_user_key : Bytes → Bytes
construct_user_key user_id = codes "user_" ++ user_id

unfoldable pub construct_asset_key : Bytes → Bytes
construct_asset_key asset_id = codes "asset_" ++ asset_id

-- A read that must find something, and one that must not.
abbrev pub must_exist : Bytes → Outcome Bytes → Call Bytes
must_exist message (ok (b ∷ bs)) = lift (ok (b ∷ bs))
must_exist message (ok []) = fail message
must_exist message (err e) = fail message
must_exist message panic = lift panic

abbrev pub must_not_exist : Bytes → Outcome Bytes → Call (Unit {0})
must_not_exist message (ok (b ∷ bs)) = fail message
must_not_exist message (ok []) = lift (ok tt)
must_not_exist message (err e) = lift (ok tt)
must_not_exist message panic = lift panic

-- A check of the arguments.
abbrev pub when : Bool → Bytes → Call (Unit {0})
when true message = fail message
when false message = lift (ok tt)

-- The loop that looks an asset up, and the one that leaves it out.
unfoldable pub owns : Bytes → List Bytes → Bool
owns asset_id [] = false
owns asset_id (a ∷ rest) = if bytes_eq a asset_id then true else owns asset_id rest

unfoldable pub without : Bytes → List Bytes → List Bytes
without asset_id [] = []
without asset_id (a ∷ rest) =
    let kept = without asset_id rest in if bytes_eq a asset_id then kept else a ∷ kept

module _ (stub : Stub) (json : Json) where
  open json use {marshal_user, unmarshal_user, marshal_asset, marshal_history}

  unfoldable pub user_register : List Bytes → Call Bytes
  unfolding construct_user_key
  user_register (name ∷ id ∷ []) =
      when (is_empty name || is_empty id) (codes "invalid args") >>>= λ _.
      must_not_exist (codes "user already exist") (get_state stub (construct_user_key id)) >>>= λ _.
      lift (marshal_user (record { name = name; id = id; assets = [] })) >>>= λ user_bytes.
      put_state stub (construct_user_key id) user_bytes >>>= λ _. done user_bytes
  user_register args = fail (codes "not enough args")

  -- The assets that a destroyed user owned go with it.
  unfoldable pub delete_assets : List Bytes → Call (Unit {0})
  unfolding construct_asset_key
  delete_assets [] = lift (ok tt)
  delete_assets (a ∷ rest) = del_state stub (construct_asset_key a) >>>= λ _. delete_assets rest

  unfoldable pub user_destroy : List Bytes → Call Bytes
  unfolding construct_user_key delete_assets
  user_destroy (id ∷ []) = when (is_empty id) (codes "invalid args") >>>= λ _.
      must_exist (codes "user not found") (get_state stub (construct_user_key id))
      >>>= λ user_bytes. del_state stub (construct_user_key id) >>>= λ _.
          lift (unmarshal_user user_bytes) >>>= λ user. delete_assets user.assets >>>= λ _. done []
  user_destroy args = fail (codes "not enough args")

  -- The record of a change of owner, under its composite key.
  unfoldable pub put_history : Bytes → Bytes → Bytes → Call Bytes
  unfolding create_composite_key
  put_history asset_id origin current =
      lift (
        marshal_history
          (record { asset_id = asset_id; origin_owner_id = origin; current_owner_id = current }))
      >>>= λ history_bytes.
          lift
            (create_composite_key stub.unicode (codes "history") (asset_id ∷ origin ∷ current ∷ []))
          >>>= λ history_key. put_state stub history_key history_bytes >>>= λ _. done []

  unfoldable pub asset_enroll : List Bytes → Call Bytes
  unfolding construct_user_key construct_asset_key put_history
  asset_enroll (asset_name ∷ asset_id ∷ metadata ∷ owner_id ∷ []) =
      when (is_empty asset_name || (is_empty asset_id || is_empty owner_id)) (codes "invalid args")
      >>>= λ _.
          must_exist (codes "user not found") (get_state stub (construct_user_key owner_id))
          >>>= λ user_bytes.
              must_not_exist (codes "asset already exist")
                (get_state stub (construct_asset_key asset_id))
              >>>= λ _.
                  lift (
                    marshal_asset
                      (record { name = asset_name; id = asset_id; metadata = metadata }))
                  >>>= λ asset_bytes.
                      put_state stub (construct_asset_key asset_id) asset_bytes >>>= λ _.
                      lift (unmarshal_user user_bytes) >>>= λ user.
                      lift (marshal_user (record user { assets = user.assets ++ (asset_id ∷ []) }))
                      >>>= λ user_bytes'.
                          put_state stub (construct_user_key user.id) user_bytes' >>>= λ _.
                          put_history asset_id origin_owner owner_id
  asset_enroll args = fail (codes "not enough args")

  -- The second marshalling of a user drops its error, so that the bytes are then nil.
  abbrev or_nil : Outcome Bytes → Outcome Bytes
  or_nil (ok b) = ok b
  or_nil (err e) = ok []
  or_nil panic = panic

  unfoldable pub asset_change : List Bytes → Call Bytes
  unfolding construct_user_key construct_asset_key owns without put_history
  asset_change (owner_id ∷ asset_id ∷ current_owner_id ∷ []) =
      when (is_empty owner_id || (is_empty asset_id || is_empty current_owner_id))
        (codes "invalid args")
      >>>= λ _.
          must_exist (codes "user not found") (get_state stub (construct_user_key owner_id))
          >>>= λ origin_owner_bytes.
              must_exist (codes "user not found")
                (get_state stub (construct_user_key current_owner_id))
              >>>= λ current_owner_bytes.
                  must_exist (codes "asset not found")
                    (get_state stub (construct_asset_key asset_id))
                  >>>= λ asset_bytes. lift (unmarshal_user origin_owner_bytes) >>>= λ origin.
                      when (not (owns asset_id origin.assets)) (codes "asset owner not match")
                      >>>= λ _.
                          lift (
                            marshal_user
                              (record origin { assets = without asset_id origin.assets }))
                          >>>= λ origin_bytes.
                              put_state stub (construct_user_key owner_id) origin_bytes >>>= λ _.
                              lift (unmarshal_user current_owner_bytes) >>>= λ current.
                              lift (
                                or_nil (
                                  marshal_user (record current {
                                    assets = current.assets ++ (asset_id ∷ []);
                                  })))
                              >>>= λ current_bytes.
                                  put_state stub (construct_user_key current_owner_id) current_bytes
                                  >>>= λ _. put_history asset_id owner_id current_owner_id
  asset_change args = fail (codes "not enough args")

  unfoldable pub query_user : List Bytes → Call Bytes
  unfolding construct_user_key
  query_user (owner_id ∷ []) = when (is_empty owner_id) (codes "invalid args") >>>= λ _.
      must_exist (codes "user not found") (get_state stub (construct_user_key owner_id))
  query_user args = fail (codes "not enough args")

  unfoldable pub query_asset : List Bytes → Call Bytes
  unfolding construct_asset_key
  query_asset (asset_id ∷ []) = when (is_empty asset_id) (codes "invalid args") >>>= λ _.
      must_exist (codes "asset not found") (get_state stub (construct_asset_key asset_id))
  query_asset args = fail (codes "not enough args")

  -- A record of the history, unless the query leaves it out.
  abbrev keep : Bytes → AssetHistory → List AssetHistory → List AssetHistory
  keep query_type history rest =
      if bytes_eq query_type (codes "exchange") && bytes_eq history.origin_owner_id origin_owner
      then rest
      else history ∷ rest

  unfoldable pub collect : Bytes → List (Outcome Bytes) → Call (List AssetHistory)
  collect query_type [] = done []
  collect query_type (value ∷ rest) =
      let others = collect query_type rest in
      lift value >>>= λ bytes. lift (json.unmarshal_history bytes) >>>= λ history.
      others >>>= λ histories. done (keep query_type history histories)

  abbrev is_query_type : Bytes → Bool
  is_query_type t =
      bytes_eq t (codes "all") || (bytes_eq t (codes "enroll") || bytes_eq t (codes "exchange"))

  abbrev history_keys : Bytes → Bytes → List Bytes
  history_keys asset_id query_type =
      if bytes_eq query_type (codes "enroll") then asset_id ∷ origin_owner ∷ [] else asset_id ∷ []

  unfoldable pub query_history : Bytes → Bytes → Call Bytes
  unfolding construct_asset_key collect get_state_by_partial_composite_key
  query_history asset_id query_type = when (is_empty asset_id) (codes "invalid args") >>>= λ _.
      when (not (is_query_type query_type)) (codes "queryType unknow : " ++ query_type) >>>= λ _.
      must_exist (codes "asset not found") (get_state stub (construct_asset_key asset_id)) >>>= λ _.
      lift (
        get_state_by_partial_composite_key stub (codes "history")
          (history_keys asset_id query_type))
      >>>= λ values.
          collect query_type values >>>= λ histories. lift (json.marshal_histories histories)

  unfoldable pub query_asset_history : List Bytes → Call Bytes
  unfolding query_history
  query_asset_history (asset_id ∷ []) = query_history asset_id (codes "all")
  query_asset_history (asset_id ∷ query_type ∷ []) = query_history asset_id query_type
  query_asset_history args = fail (codes "not enough args")

  unfoldable pub invoke : Bytes → List Bytes → Call Bytes
  unfolding user_register user_destroy asset_enroll asset_change query_user query_asset
      query_asset_history
  invoke func_name args =
      if bytes_eq func_name (codes "userRegister")
      then user_register args
      else if bytes_eq func_name (codes "userDestroy")
      then user_destroy args
      else if bytes_eq func_name (codes "AssetEnroll")
      then asset_enroll args
      else if bytes_eq func_name (codes "AssetExchange")
      then asset_change args
      else if bytes_eq func_name (codes "queryUser")
      then query_user args
      else if bytes_eq func_name (codes "queryAsset")
      then query_asset args
      else if bytes_eq func_name (codes "queryAssetHistory")
      then query_asset_history args
      else fail (codes "unsupported function :" ++ func_name ++ codes " ")
