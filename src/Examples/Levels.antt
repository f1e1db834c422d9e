-- ===== src/Examples/Levels.antt =====
-- A store of one entry as a concrete LevelDB, with the handles, the versioned database and the
-- updates over it.
use fabric.Prelude.{
  ◌≡◌, ◌≢◌, ℕ, refl, sym, ap, Option, none, some, Bool, true, false, List, [], ◌∷◌, arith,
  if◌then◌else◌, Bool-cases, inl, inr,
}
use fabric.Prelude.Bytes.{Bytes, codes, bytes_eq, bytes_eq_iff}
use fabric.Prelude.Outcome.{ok}
use fabric.StateDb.VersionedDb.{IsName, Serves}
use fabric.LevelDb.Store.{
  KvBatch, written, LevelStore, Contents, find_entry, between, onward, IsRange, Gives, Holds,
}
use fabric.LevelDb.Prefix.{join_key, prefixed}
use fabric.LevelDb.Handle.{handle, handle-Holds, level_batch, level_batch-written}
use fabric.LevelDb.Versioned.{versioned_db}
use fabric.LevelDb.Versioned.Reads.{state_of, IsEncoded, versioned_db-Serves}
use fabric.Codec.BigEndian.{uint64}
use fabric.Codec.{decode_order_preserving_var_uint64}
use fabric.Version.{IsUint64, new_height_from_bytes}
use fabric.StateDb.{UpdateBatch}
use fabric.Validator.Combined.Overlay.{overlay}
use fabric.LevelDb.Values.{encode_value, decode_value, decode_value-encode_value}
use fabric.LevelDb.Versioned.{save_point_key, apply_updates}
use fabric.LevelDb.Versioned.Updates.{CanApply, apply_updates-overlay}
use fabric.Examples.Encoding.{one_byte}
use fabric.Examples.Database.{chaincode, chaincode-IsName, key_a, genesis, entry}

abbrev first_entry : List (Bytes × Bytes) → Option (Bytes × Bytes) × List (Bytes × Bytes)
first_entry [] = (none, [])
first_entry (e ∷ l) = (some e, l)

abbrev within : Bytes → Option Bytes → Bytes → Bool
within start_key none k = onward start_key k
within start_key (some end_key) k = between start_key end_key k

module _ (key value : Bytes) where
  abbrev pub one_key : Contents
  one_key k = if bytes_eq key k then some value else none

  abbrev pub one_level : LevelStore
  one_level = record {
    Itr = List (Bytes × Bytes);
    get = λ k. ok (one_key k);
    get_iterator = λ s e. if within s e key then (key, value) ∷ [] else [];
    next = λ l. ok (first_entry l);
  }

  IsRange-entry : (test : Bytes → Bool) → test key ≡ true → IsRange one_key test ((key, value) ∷ [])
  unfolding find_entry
  IsRange-entry test h = record {
    ascending = (tt, tt);
    exact = λ k. elim (Bool-cases (bytes_eq key k)) [
      | inl e ↦ rw (sym ((bytes_eq_iff key k).0 e)) (ground (arith, h))
      | inr e ↦ ground (arith, h, e)
    ];
  }

  IsRange-nothing : (test : Bytes → Bool) → test key ≡ false → IsRange one_key test []
  unfolding find_entry
  IsRange-nothing test h = record {
    ascending = tt;
    exact = λ k. elim (Bool-cases (bytes_eq key k)) [
      | inl e ↦ rw (sym ((bytes_eq_iff key k).0 e)) (ground (arith, h))
      | inr e ↦ ground (arith, h, e)
    ];
  }

  one_level-Holds : Holds one_level one_key
  one_level-Holds = record { get_ok = λ k. refl; range_ok = range; open_ok = open_range }
    where
      range :
          (s e : Bytes)
          → (l : List (Bytes × Bytes)) × Gives one_level.next (one_level.get_iterator s (some e)) l
            × IsRange one_key (between s e) l
      range s e = elim (Bool-cases (between s e key)) [
        | inl h ↦ ((key, value) ∷ [], rw h ([], refl, ([], refl)), IsRange-entry (between s e) h)
        | inr h ↦ ([], rw h ([], refl), IsRange-nothing (between s e) h)
      ]

      open_range :
          (s : Bytes)
          → (l : List (Bytes × Bytes)) × Gives one_level.next (one_level.get_iterator s none) l
            × IsRange one_key (onward s) l
      open_range s = elim (Bool-cases (onward s key)) [
        | inl h ↦ ((key, value) ∷ [], rw h ([], refl, ([], refl)), IsRange-entry (onward s) h)
        | inr h ↦ ([], rw h ([], refl), IsRange-nothing (onward s) h)
      ]

-- The database of a channel, its one key in the namespace of the chaincode.
abbrev channel : Bytes
channel = codes "ch"

abbrev level_key : Bytes
level_key = join_key channel (join_key chaincode key_a)

handle-Holds_example :
    Holds
      (handle (one_level level_key (codes "1")) channel)
      (prefixed (one_key level_key (codes "1")) channel)
handle-Holds_example =
    handle-Holds (one_level level_key (codes "1")) channel (omega arith)
      (one_key level_key (codes "1")) (one_level-Holds level_key (codes "1"))

-- The encoding of the value "1" at the height (0, 0).
abbrev pub stored : Bytes
stored = 0 ∷ 0 ∷ codes "1"

abbrev pub state_key : Bytes
state_key = join_key chaincode key_a

abbrev pub state_values : Contents
state_values = one_key state_key stored

genesis-IsUint64 : IsUint64 genesis
genesis-IsUint64 = record { block_fits = omega arith; tx_fits = omega arith }

decode_value-encode_value_example :
    (b : Bytes) × (encode_value one_byte (some (codes "1")) (some genesis) ≡ ok b)
    × (decode_value one_byte b ≡ ok entry)
decode_value-encode_value_example =
    decode_value-encode_value one_byte (codes "1") genesis genesis-IsUint64

pub state_values-IsEncoded : IsEncoded one_byte state_values
unfolding decode_value new_height_from_bytes decode_order_preserving_var_uint64 uint64
state_values-IsEncoded key b e = elim (Bool-cases (bytes_eq state_key key)) [
  | inl h ↦ (entry, ap (decode_value one_byte) (found (rw h at e)))
  | inr h ↦ absurd (missing (rw h at e))
]
  where
    found : some stored ≡ some b → b ≡ stored
    found e = cc

    missing : none ≡ some b → ⊥
    missing e = cc

versioned_db-Serves_example :
    Serves (versioned_db one_byte (one_level state_key stored)) (state_of one_byte state_values)
versioned_db-Serves_example =
    versioned_db-Serves one_byte (one_level state_key stored) state_values
      (one_level-Holds state_key stored) state_values-IsEncoded

abbrev updates : UpdateBatch
updates =
    (chaincode, (key_a, record { value = none; version = none }) ∷ (codes "b", entry) ∷ []) ∷ []

updates-CanApply : CanApply updates
unfolding bytes_eq
updates-CanApply = record {
  once = (tt, tt);
  named = (chaincode-IsName, tt);
  ns_ok = (
    (
      ((ground (arith), tt), (tt, tt)),
      ((λ b e. cc), ((λ b e. (genesis, refl, genesis-IsUint64)), tt)),
    ),
    tt,
  );
}

apply_updates-overlay_example :
    (kvs : KvBatch) × (apply_updates one_byte updates genesis ≡ ok kvs)
    × IsEncoded one_byte (written state_values kvs)
    × ((ns k : Bytes)
        → IsName ns
        → ns ≢ []
        → state_of one_byte (written state_values kvs) ns k
          ≡ overlay (state_of one_byte state_values) updates ns k)
    × (saved : Bytes) × (written state_values kvs save_point_key ≡ some saved)
    × (n : ℕ) × (new_height_from_bytes one_byte saved ≡ ok (genesis, n))
apply_updates-overlay_example =
    apply_updates-overlay one_byte state_values updates genesis state_values-IsEncoded
      updates-CanApply genesis-IsUint64

level_batch-written_example :
    prefixed (written state_values (level_batch channel ((key_a, none) ∷ []))) chaincode key_a
    ≡ some stored
unfolding bytes_eq
level_batch-written_example =
    level_batch-written state_values channel chaincode key_a ((key_a, none) ∷ []) (omega arith)
      chaincode-IsName
