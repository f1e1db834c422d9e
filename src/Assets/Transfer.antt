-- ===== src/Assets/Transfer.antt =====
-- What a transfer of an asset leaves in the state: the function `AssetChange`.
use fabric.Prelude.{
  ℕ, ◌≡◌, refl, none, some, true, false, List, [], ◌∷◌, ◌++◌, if◌then◌else◌, All, All-append,
}
use fabric.Prelude.Bytes.{Bytes, codes, bytes_eq, bytes_eq_iff, bytes_Eq}
use fabric.Prelude.Outcome.{Outcome, ok, ◌>>=◌}
use fabric.Assets.Shim.{Stub, StateWrite, Call, Unicode, is_empty, put_state}
use fabric.Assets.Composite.{
  IsUnicode, IsKeyPart, IsKeyPart-valid, parts, history-IsKeyPart, create_composite_key-parts,
}
use fabric.Assets.{
  User, AssetHistory, Json, construct_user_key, construct_asset_key, owns, without, put_history,
  asset_change,
}

-- What `GetState` answers once the writes are committed.
unfoldable pub committed : List StateWrite → (Bytes → Outcome Bytes) → Bytes → Outcome Bytes
committed [] get k = get k
committed ((key, none) ∷ ws) get k = committed ws (λ j. if bytes_eq key j then ok [] else get j) k
committed ((key, some v) ∷ ws) get k = committed ws (λ j. if bytes_eq key j then ok v else get j) k

unfoldable pub user_at : Json → (Bytes → Outcome Bytes) → Bytes → Outcome User
user_at json get id = get (construct_user_key id) >>= json.unmarshal_user

put_user :
    (stub : Stub) (id value : Bytes)
    → stub.handle_put_state (construct_user_key id) value ≡ ok tt
    → put_state stub (construct_user_key id) value
      ≡ record { writes = (construct_user_key id, some value) ∷ []; result = ok tt }
unfolding put_state construct_user_key
put_user stub id value e = rw e refl

put_composite :
    (stub : Stub) (key value : Bytes)
    → stub.handle_put_state (0 ∷ key) value ≡ ok tt
    → put_state stub (0 ∷ key) value
      ≡ record { writes = (0 ∷ key, some value) ∷ []; result = ok tt }
unfolding put_state
put_composite stub key value e = rw e refl

same_key : (a : Bytes) → bytes_eq (construct_user_key a) (construct_user_key a) ≡ true
same_key a = (bytes_eq_iff (construct_user_key a) (construct_user_key a)).1 refl

-- The strings of a user are valid UTF-8.
pub record IsText (unicode : Unicode) (u : User) : Type 0 where
  pub name_valid : unicode.valid_string u.name ≡ true
  pub id_valid : unicode.valid_string u.id ≡ true
  pub assets_valid : All (λ a. unicode.valid_string a ≡ true) u.assets

-- What `unicode/utf8` and `encoding/json` document: these structures are always marshalled, and what
-- was marshalled of valid strings is read back.
pub record Works (stub : Stub) (json : Json) : Type 0 where
  pub is_unicode : IsUnicode stub.unicode
  pub user_bytes : User → Bytes
  pub marshal_ok : (u : User) → json.marshal_user u ≡ ok (user_bytes u)
  pub unmarshal_ok : (u : User) → IsText stub.unicode u → json.unmarshal_user (user_bytes u) ≡ ok u
  pub history_bytes : AssetHistory → Bytes
  pub history_ok : (h : AssetHistory) → json.marshal_history h ≡ ok (history_bytes h)

-- The composite key of the record of a transfer.
abbrev pub history_key : Bytes → Bytes → Bytes → Bytes
history_key owner asset current = 0 ∷ parts (codes "history" ∷ asset ∷ owner ∷ current ∷ [])

-- The state has both users and the asset, and the first user owns it; the users are of valid strings,
-- the three names may stand in a composite key, and the peer takes the three writes.
pub record IsTransfer (stub : Stub) (json : Json) (owner asset current : Bytes) (u v : User)
    : Type 0 where
  pub owner_given : is_empty owner ≡ false
  pub asset_given : is_empty asset ≡ false
  pub current_given : is_empty current ≡ false
  pub owner_bytes : ℕ × Bytes
  pub owner_read :
      stub.handle_get_state (construct_user_key owner) ≡ ok (owner_bytes.0 ∷ owner_bytes.1)
  pub owner_user : json.unmarshal_user (owner_bytes.0 ∷ owner_bytes.1) ≡ ok u
  pub current_bytes : ℕ × Bytes
  pub current_read :
      stub.handle_get_state (construct_user_key current) ≡ ok (current_bytes.0 ∷ current_bytes.1)
  pub current_user : json.unmarshal_user (current_bytes.0 ∷ current_bytes.1) ≡ ok v
  pub asset_bytes : ℕ × Bytes
  pub asset_read :
      stub.handle_get_state (construct_asset_key asset) ≡ ok (asset_bytes.0 ∷ asset_bytes.1)
  pub owned : owns asset u.assets ≡ true
  pub owner_text : IsText stub.unicode u
  pub current_text : IsText stub.unicode v
  pub owner_part : IsKeyPart stub.unicode owner
  pub asset_part : IsKeyPart stub.unicode asset
  pub current_part : IsKeyPart stub.unicode current
  pub owner_taken : (value : Bytes) → stub.handle_put_state (construct_user_key owner) value ≡ ok tt
  pub current_taken :
      (value : Bytes) → stub.handle_put_state (construct_user_key current) value ≡ ok tt
  pub history_taken :
      (value : Bytes) → stub.handle_put_state (history_key owner asset current) value ≡ ok tt

snoc-IsText :
    (unicode : Unicode) (asset : Bytes) (u : User)
    → IsKeyPart unicode asset
    → IsText unicode u
    → IsText unicode (record u { assets = u.assets ++ (asset ∷ []) })
snoc-IsText unicode asset u part t = record {
  name_valid = t.name_valid;
  id_valid = t.id_valid;
  assets_valid =
      All-append (λ a. unicode.valid_string a ≡ true) u.assets (asset ∷ []) t.assets_valid
        (IsKeyPart-valid unicode asset part, tt);
}

-- The keys of users do not begin with the zero byte of the composite ones.
key_apart : (ks id : Bytes) → bytes_eq (0 ∷ ks) (construct_user_key id) ≡ false
unfolding bytes_eq construct_user_key
key_apart ks id = refl

module _ (stub : Stub) (json : Json) (w : Works stub json) where
  abbrev moved : Bytes → Bytes → Bytes → User → User → Call Bytes
  moved owner asset current u v = record {
    writes =
        (
          construct_user_key owner,
          some (w.user_bytes (record u { assets = without asset u.assets })),
        )
        ∷ (
          construct_user_key current,
          some (w.user_bytes (record v { assets = v.assets ++ (asset ∷ []) })),
        )
        ∷ (
          history_key owner asset current,
          some (
              w.history_bytes
                (record { asset_id = asset; origin_owner_id = owner; current_owner_id = current })),
        )
        ∷ [];
    result = ok [];
  }

  asset_change-moved :
      (owner asset current : Bytes) (u v : User)
      → IsTransfer stub json owner asset current u v
      → asset_change stub json (owner ∷ asset ∷ current ∷ []) ≡ moved owner asset current u v
  unfolding asset_change put_history
  asset_change-moved owner asset current u v t =
      rw
        (
          t.owner_given,
          t.asset_given,
          t.current_given,
          t.owner_read,
          t.current_read,
          t.asset_read,
          t.owner_user,
          t.owned,
          w.marshal_ok (record u { assets = without asset u.assets }),
          put_user stub owner _
              (t.owner_taken (w.user_bytes (record u { assets = without asset u.assets }))),
          t.current_user,
          w.marshal_ok (record v { assets = v.assets ++ (asset ∷ []) }),
          put_user stub current _
              (t.current_taken (w.user_bytes (record v { assets = v.assets ++ (asset ∷ []) }))),
          w.history_ok
              (record { asset_id = asset; origin_owner_id = owner; current_owner_id = current }),
          create_composite_key-parts stub.unicode (codes "history") (asset ∷ owner ∷ current ∷ [])
              (history-IsKeyPart stub.unicode w.is_unicode)
              (t.asset_part, (t.owner_part, (t.current_part, tt))),
          put_composite stub _ _ (
              t.history_taken (
                w.history_bytes (record {
                  asset_id = asset;
                  origin_owner_id = owner;
                  current_owner_id = current;
                }))),
        )
        refl

  -- Under the same conditions, a transfer of an asset to its owner leaves the owner's record with the
  -- asset once more at its end, although it had the asset already: what the first write removes, the
  -- second, made from the record as it was read, restores.
  pub asset_change_self :
      (owner asset : Bytes) (u : User)
      → IsTransfer stub json owner asset owner u u
      → user_at json
          (committed
            (asset_change stub json (owner ∷ asset ∷ owner ∷ [])).writes
            stub.handle_get_state)
          owner
        ≡ ok (record u { assets = u.assets ++ (asset ∷ []) })
  unfolding user_at committed
  asset_change_self owner asset u t =
      rw
        (
          asset_change-moved owner asset owner u u t,
          key_apart (parts (codes "history" ∷ asset ∷ owner ∷ owner ∷ [])) owner,
          same_key owner,
        )
        (w.unmarshal_ok (record u { assets = u.assets ++ (asset ∷ []) })
          (snoc-IsText stub.unicode asset u t.asset_part t.owner_text))
