-- ===== src/LevelDb/Handle.antt =====
-- The handles of common/ledger/util/leveldbhelper: a named database is the part of one LevelDB whose
-- keys begin with its name and a zero byte.
use mathlib.Core.Path.{subst}
use fabric.Prelude.{◌≡◌, refl, Option, none, some, List, [], ◌∷◌, ◌++◌, if◌then◌else◌, arith}
use fabric.Prelude.Bytes.{Bytes, bytes_eq, bytes_Eq}
use fabric.Prelude.Assoc.{lookup}
use fabric.Prelude.Outcome.{Outcome, ok, panic, ◌>>=◌}
use fabric.StateDb.VersionedDb.{IsName}
use fabric.LevelDb.Store.{
  LevelStore, Contents, between, onward, IsRange, Gives, Holds, KvBatch, written,
}
use fabric.LevelDb.Prefix.{
  split_n, split_n-join_key, join_key-eq, join_key, prefixed, under, between-join, between-join_key,
  is_before-join, is_before-end, key-Ends, last-Ends, prefixed-IsRange,
}

unfoldable pub construct_level_key : Bytes → Bytes → Bytes
construct_level_key db_name key = db_name ++ 0 ∷ key

-- A key without a separator panics on the missing second part.
unfoldable pub retrieve_app_key : Bytes → Outcome Bytes
unfolding split_n
retrieve_app_key level_key = elim (split_n level_key) [ none ↦ panic | some (name, key) ↦ ok key ]

-- Without an end key the separator at the end becomes the byte 1.
abbrev pub end_of : Bytes → Option Bytes → Bytes
end_of db_name none = db_name ++ 1 ∷ []
end_of db_name (some end_key) = db_name ++ 0 ∷ end_key

abbrev pub strip : {S : Type 0} → Option (Bytes × Bytes) × S → Outcome (Option (Bytes × Bytes) × S)
strip (none, itr) = ok (none, itr)
strip (some (level_key, value), itr) =
    retrieve_app_key level_key >>= λ key. ok (some (key, value), itr)

-- `DBHandle` with its `Get`, `GetIterator` and the iterator's `Next`, `Key` and `Value`.
abbrev pub handle : LevelStore → Bytes → LevelStore
handle db db_name = record {
  Itr = db.Itr;
  get = λ key. db.get (construct_level_key db_name key);
  get_iterator = λ start_key end_key.
      db.get_iterator (construct_level_key db_name start_key) (some (end_of db_name end_key));
  next = λ itr. db.next itr >>= strip;
}

-- `WriteBatch`: the batch of the handle, at the keys of the database.
unfoldable pub level_batch : Bytes → KvBatch → KvBatch
unfolding construct_level_key
level_batch db_name [] = []
level_batch db_name ((k, v) ∷ kvs) = (construct_level_key db_name k, v) ∷ level_batch db_name kvs

-- `Put` and `Delete`, which write one key.
unfoldable pub put_key : Bytes → Bytes → Bytes → KvBatch
unfolding construct_level_key
put_key db_name key value = (construct_level_key db_name key, some value) ∷ []

unfoldable pub delete_key : Bytes → Bytes → KvBatch
unfolding construct_level_key
delete_key db_name key = (construct_level_key db_name key, none) ∷ []

-- Each is a batch of one.
put_key-level_batch :
    (db_name key value : Bytes)
    → put_key db_name key value ≡ level_batch db_name ((key, some value) ∷ [])
unfolding put_key level_batch
put_key-level_batch db_name key value = refl

delete_key-level_batch :
    (db_name key : Bytes) → delete_key db_name key ≡ level_batch db_name ((key, none) ∷ [])
unfolding delete_key level_batch
delete_key-level_batch db_name key = refl

lookup-level_batch :
    (db_name db_name' k : Bytes) (kvs : KvBatch)
    → IsName db_name
    → IsName db_name'
    → lookup (join_key db_name' k) (level_batch db_name kvs)
      ≡ (if bytes_eq db_name db_name' then lookup k kvs else none)
unfolding level_batch lookup
lookup-level_batch db_name db_name' k [] n n' = ground arith
lookup-level_batch db_name db_name' k ((j, v) ∷ kvs) n n' =
    rw (join_key-eq db_name db_name' j k n n')
      (ground (arith, lookup-level_batch db_name db_name' k kvs n n'))

-- A batch that the handle of one name writes changes the database of that name as the batch says, and
-- no database of another name, where the names have no zero bytes.
pub level_batch-written :
    (contents : Contents) (db_name db_name' k : Bytes) (kvs : KvBatch)
    → IsName db_name
    → IsName db_name'
    → prefixed (written contents (level_batch db_name kvs)) db_name' k ≡ (
        if bytes_eq db_name db_name'
        then written (prefixed contents db_name') kvs k
        else prefixed contents db_name' k)
unfolding written
level_batch-written contents db_name db_name' k kvs n n' =
    rw (lookup-level_batch db_name db_name' k kvs n n') (ground arith)

module _ (db : LevelStore) (db_name : Bytes) (named : IsName db_name) where
  retrieve-join : (k : Bytes) → retrieve_app_key (join_key db_name k) ≡ ok k
  unfolding retrieve_app_key
  retrieve-join k = rw (split_n-join_key db_name k named, retrieve_app_key) refl

  strip-Gives :
      (itr : db.Itr) (l : List (Bytes × Bytes))
      → Gives db.next itr (under db_name l)
      → Gives (λ i. db.next i >>= strip) itr l
  strip-Gives itr [] (itr', e) = (itr', rw e refl)
  strip-Gives itr ((k, v) ∷ l) (itr', e, rest) =
      (itr', rw (e, retrieve-join k) refl, strip-Gives itr' l rest)

  open_between :
      (s k : Bytes)
      → between (join_key db_name s) (end_of db_name none) (join_key db_name k) ≡ onward s k
  open_between s k = rw (is_before-join db_name s k, is_before-end db_name k) (ground arith)

  -- If LevelDB holds some contents, the handle of a name without zero bytes holds the contents at the
  -- keys of the name: it reads them one at a time, it gives every range of them between two keys in
  -- order, and with a nil end key every key of the name from the start on, and none of another name.
  pub handle-Holds :
      (contents : Contents)
      → Holds db contents
      → Holds (handle db db_name) (prefixed contents db_name)
  unfolding construct_level_key
  handle-Holds contents h = record {
    get_ok = λ key. h.get_ok (join_key db_name key);
    range_ok = range;
    open_ok = open_range;
  }
    where
      range :
          (s e : Bytes)
          → (l : List (Bytes × Bytes)) × Gives
              (λ i. db.next i >>= strip)
              (db.get_iterator (join_key db_name s) (some (join_key db_name e)))
              l
            × IsRange (prefixed contents db_name) (between s e) l
      range s e =
          let (l, gives, r) = h.range_ok (join_key db_name s) (join_key db_name e) in
          let (l', same, r') =
            prefixed-IsRange contents db_name (between (join_key db_name s) (join_key db_name e))
              (between s e) l (λ x. between-join_key db_name s (0 ∷ e) x (key-Ends e))
              (between-join db_name s e) r in
          (l', strip-Gives _ l' (subst (Gives db.next _) same gives), r')

      open_range :
          (s : Bytes)
          → (l : List (Bytes × Bytes)) × Gives
              (λ i. db.next i >>= strip)
              (db.get_iterator (join_key db_name s) (some (end_of db_name none)))
              l
            × IsRange (prefixed contents db_name) (onward s) l
      open_range s =
          let (l, gives, r) = h.range_ok (join_key db_name s) (end_of db_name none) in
          let (l', same, r') =
            prefixed-IsRange contents db_name (between (join_key db_name s) (end_of db_name none))
              (onward s) l (λ x. between-join_key db_name s (1 ∷ []) x last-Ends) (open_between s)
              r in
          (l', strip-Gives _ l' (subst (Gives db.next _) same gives), r')
