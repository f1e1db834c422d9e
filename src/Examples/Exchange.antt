-- ===== src/Examples/Exchange.antt =====
-- Concrete transfers of an asset, with length-prefixed lists in place of JSON and ASCII for UTF-8.
use fabric.Prelude.{
  ℕ, zero, suc, ◌≡◌, refl, List, [], ◌∷◌, ◌++◌, length, take, drop, take-append, drop-append,
  if◌then◌else◌, arith, Bool, true, ltb, ◌&&◌, ◌<◌, All,
}
use fabric.Prelude.Bytes.{Bytes, codes, bytes_eq}
use fabric.Prelude.Outcome.{Outcome, ok, err}
use fabric.Assets.{User, Json, construct_user_key, construct_asset_key, asset_change, owns}
use fabric.Assets.Shim.{
  Stub, Unicode, validate_composite_key_attribute, check_runes, create_composite_key,
  split_composite_key,
}
use fabric.Assets.Composite.{IsUnicode, split_composite_key-create_composite_key}
use fabric.Assets.Transfer.{IsText, Works, IsTransfer, committed, user_at, asset_change_self}

abbrev encode_list : List Bytes → Bytes
encode_list [] = []
encode_list (b ∷ bs) = length b ∷ (b ++ encode_list bs)

abbrev decode_list : ℕ → Bytes → List Bytes
decode_list zero bytes = []
decode_list (suc n) [] = []
decode_list (suc n) (l ∷ rest) = take l rest ∷ decode_list n (drop l rest)

decode_list-encode_list : (bs : List Bytes) → decode_list (length bs) (encode_list bs) ≡ bs
decode_list-encode_list [] = refl
decode_list-encode_list (b ∷ bs) =
    rw (take-append b (encode_list bs), drop-append b (encode_list bs), decode_list-encode_list bs)
      refl

abbrev user_bytes : User → Bytes
user_bytes u = length u.assets ∷ encode_list (u.name ∷ u.id ∷ u.assets)

abbrev to_user : List Bytes → Outcome User
to_user (name ∷ id ∷ assets) = ok (record { name = name; id = id; assets = assets })
to_user _ = err (codes "unexpected end of input")

abbrev user_of : Bytes → Outcome User
user_of [] = err (codes "unexpected end of input")
user_of (n ∷ rest) = to_user (decode_list (suc (suc n)) rest)

user_of-user_bytes : (u : User) → user_of (user_bytes u) ≡ ok u
user_of-user_bytes u = rw (decode_list-encode_list (u.name ∷ u.id ∷ u.assets)) refl

abbrev json : Json
json = record {
  marshal_user = λ u. ok (user_bytes u);
  unmarshal_user = user_of;
  marshal_asset = λ a. ok a.name;
  marshal_history = λ h. ok h.asset_id;
  unmarshal_history = λ b. err b;
  marshal_histories = λ hs. ok [];
}

abbrev alice : User
alice = record { name = codes "A"; id = codes "1"; assets = codes "x" ∷ [] }

abbrev bob : User
bob = record { name = codes "B"; id = codes "2"; assets = [] }

abbrev answer : Bytes → Outcome Bytes
answer key =
    if bytes_eq key (codes "user_1")
    then ok (user_bytes alice)
    else if bytes_eq key (codes "user_2")
    then ok (user_bytes bob)
    else if bytes_eq key (codes "asset_x")
    then ok (codes "gem")
    else ok []

-- Strings of ASCII alone, whose runes are their bytes.
abbrev is_ascii : Bytes → Bool
is_ascii [] = true
is_ascii (b ∷ bs) = ltb b 128 && is_ascii bs

abbrev ascii : Unicode
ascii = record { valid_string = is_ascii; runes = λ s. s }

is_ascii-true : (s : Bytes) → All (λ b. b < 128) s → is_ascii s ≡ true
is_ascii-true [] h = refl
is_ascii-true (b ∷ bs) h = ground (arith, h.0, is_ascii-true bs h.1)

ascii-IsUnicode : IsUnicode ascii
ascii-IsUnicode = record {
  ascii_valid = is_ascii-true;
  ascii_runes = λ s h. refl;
  zero_rune = λ s v h. h;
}

abbrev stub : Stub
stub = record {
  unicode = ascii;
  handle_get_state = answer;
  handle_put_state = λ key value. ok tt;
  handle_del_state = λ key. ok tt;
  handle_get_state_by_range = λ start_key end_key. ok [];
}

stub-Works : Works stub json
stub-Works = record {
  is_unicode = ascii-IsUnicode;
  user_bytes = user_bytes;
  marshal_ok = λ u. refl;
  unmarshal_ok = λ u t. user_of-user_bytes u;
  history_bytes = λ h. h.asset_id;
  history_ok = λ h. refl;
}

alice-IsText : IsText ascii alice
alice-IsText = record { name_valid = refl; id_valid = refl; assets_valid = (refl, tt) }

to_herself : IsTransfer stub json (codes "1") (codes "x") (codes "1") alice alice
unfolding bytes_eq construct_user_key construct_asset_key owns validate_composite_key_attribute
    check_runes
to_herself = record {
  owner_given = refl;
  asset_given = refl;
  current_given = refl;
  owner_bytes = (1, 1 ∷ 65 ∷ 1 ∷ 49 ∷ 1 ∷ 120 ∷ []);
  owner_read = refl;
  owner_user = refl;
  current_bytes = (1, 1 ∷ 65 ∷ 1 ∷ 49 ∷ 1 ∷ 120 ∷ []);
  current_read = refl;
  current_user = refl;
  asset_bytes = (103, 101 ∷ 109 ∷ []);
  asset_read = refl;
  owned = refl;
  owner_text = alice-IsText;
  current_text = alice-IsText;
  owner_part = refl;
  asset_part = refl;
  current_part = refl;
  owner_taken = λ value. refl;
  current_taken = λ value. refl;
  history_taken = λ value. refl;
}

asset_change_self_example :
    user_at json
      (committed
        (asset_change stub json (codes "1" ∷ codes "x" ∷ codes "1" ∷ [])).writes
        stub.handle_get_state)
      (codes "1")
    ≡ ok (record { name = codes "A"; id = codes "1"; assets = codes "x" ∷ codes "x" ∷ [] })
asset_change_self_example =
    asset_change_self stub json stub-Works (codes "1") (codes "x") alice to_herself

abbrev after : Bytes → Outcome Bytes
after =
    committed (asset_change stub json (codes "1" ∷ codes "x" ∷ codes "2" ∷ [])).writes
      stub.handle_get_state

-- The key of the record of an enrolment.
abbrev enrolment : Bytes
enrolment = 0 ∷ (codes "history" ++ (0 ∷ (codes "x" ++ (0 ∷ (codes "1" ++ (0 ∷ []))))))

split_composite_key-create_composite_key_example :
    split_composite_key enrolment ≡ ok (codes "history", codes "x" ∷ codes "1" ∷ [])
unfolding create_composite_key validate_composite_key_attribute check_runes
split_composite_key-create_composite_key_example =
    split_composite_key-create_composite_key ascii (codes "history") enrolment
      (codes "x" ∷ codes "1" ∷ []) ascii-IsUnicode refl
