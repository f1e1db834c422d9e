-- ===== src/LevelDb/Versioned/Reads.antt =====
-- Reading the database: it serves the contents of LevelDB, decoded.
use mathlib.Core.Path.{subst}
use fabric.Prelude.{
  ◌≡◌, refl, sym, ap, ◌∙◌, Option, none, some, Bool, true, false, List, [], ◌∷◌, ◌++◌, arith,
  if◌then◌else◌, All,
}
use fabric.Prelude.Bytes.{Bytes, Before, Before-ne, bytes_eq, bytes_eq_iff}
use fabric.Prelude.Outcome.{Outcome, ok}
use fabric.Codec.{Varint}
use fabric.StateDb.{VersionedValue, VersionedKv}
use fabric.StateDb.SortedKeys.{Ascending}
use fabric.StateDb.Scan.{find, kv_keys, in_range, IsScan, Yields}
use fabric.StateDb.VersionedDb.{Serves, IsName}
use fabric.LevelDb.Store.{
  LevelStore, Contents, entry_keys, find_entry, between, IsRange, Gives, Holds,
}
use fabric.LevelDb.Prefix.{
  split_n-join_key, join_key, prefixed, under, is_before-join, between-join, between-join_key,
  key-Ends, last-Ends, is_before-end, prefixed-IsRange,
}
use fabric.LevelDb.Values.{decode_value}
use fabric.LevelDb.Versioned.{
  split_composite_key, scan_end, decode_found, get_state, get_state_range_scan_iterator, next,
  versioned_db,
}

module _ (v : Varint) where
  abbrev decoded : Outcome VersionedValue → Option VersionedValue
  decoded (ok vv) = some vv
  decoded _ = none

  abbrev pub decode_stored : Option Bytes → Option VersionedValue
  decode_stored none = none
  decode_stored (some b) = decoded (decode_value v b)

  -- The state that the contents stand for.
  unfoldable pub state_of : Contents → Bytes → Bytes → Option VersionedValue
  state_of contents ns key = decode_stored (contents (join_key ns key))

  -- Every value decodes.
  abbrev pub IsEncoded : Contents → Type 0
  IsEncoded contents =
      (key b : Bytes) → contents key ≡ some b → (vv : VersionedValue) × (decode_value v b ≡ ok vv)

  abbrev item : Bytes → Bytes → Outcome VersionedValue → List VersionedKv → List VersionedKv
  item ns k (ok vv) l =
      record { namespace = ns; key = k; value = vv.value; version = vv.version } ∷ l
  item ns k _ l = l

  -- The entries of a namespace, as the scanner delivers them.
  unfoldable scan_items : Bytes → List (Bytes × Bytes) → List VersionedKv
  scan_items ns [] = []
  scan_items ns ((k, b) ∷ l) = item ns k (decode_value v b) (scan_items ns l)

  scan_items-cons :
      (ns k b : Bytes) (l : List (Bytes × Bytes)) (vv : VersionedValue)
      → decode_value v b ≡ ok vv
      → scan_items ns ((k, b) ∷ l)
        ≡ record { namespace = ns; key = k; value = vv.value; version = vv.version }
          ∷ scan_items ns l
  unfolding scan_items
  scan_items-cons ns k b l vv e = ap (λ o. item ns k o (scan_items ns l)) e

  abbrev Decoded : List (Bytes × Bytes) → Type 0
  Decoded = All (λ e. (vv : VersionedValue) × (decode_value v e.1 ≡ ok vv))

  find_entry-Before :
      (k : Bytes) (l : List (Bytes × Bytes)) → All (Before k) (entry_keys l) → find_entry k l ≡ none
  unfolding find_entry
  find_entry-Before k [] h = refl
  find_entry-Before k ((j, b) ∷ l) h =
      ground
        (arith, find_entry-Before k l h.1, bytes_eq_iff j k, λ (e : k ≡ j). Before-ne k j h.0 e)

  -- What is found decodes, so every entry does.
  entries-Decoded :
      (l : List (Bytes × Bytes))
      → Ascending (entry_keys l)
      → ((k b : Bytes)
          → find_entry k l ≡ some b
          → (vv : VersionedValue) × (decode_value v b ≡ ok vv))
      → Decoded l
  unfolding find_entry
  entries-Decoded [] a h = tt
  entries-Decoded ((j, b) ∷ l) a h = (
    h j b (rw ((bytes_eq_iff j j).1 refl) refl),
    entries-Decoded l a.1 (λ k c e. h k c (later k c e)),
  )
    where
      later :
          (k c : Bytes)
          → find_entry k l ≡ some c
          → (if bytes_eq j k then some b else find_entry k l) ≡ some c
      later k c e = ground (arith, e, bytes_eq_iff j k, find_entry-Before j l a.0)

  kv_keys-scan_items :
      (ns : Bytes) (l : List (Bytes × Bytes)) → Decoded l → kv_keys (scan_items ns l) ≡ entry_keys l
  unfolding scan_items
  kv_keys-scan_items ns [] d = refl
  kv_keys-scan_items ns ((k, b) ∷ l) ((vv, e), d) =
      rw (scan_items-cons ns k b l vv e) (ap (◌∷◌ k) (kv_keys-scan_items ns l d))

  scan_items-in_ns :
      (ns : Bytes) (l : List (Bytes × Bytes))
      → Decoded l
      → All (λ kv. kv.namespace ≡ ns) (scan_items ns l)
  unfolding scan_items
  scan_items-in_ns ns [] d = tt
  scan_items-in_ns ns ((k, b) ∷ l) ((vv, e), d) =
      rw (scan_items-cons ns k b l vv e) (refl, scan_items-in_ns ns l d)

  find-scan_items :
      (ns k : Bytes) (l : List (Bytes × Bytes))
      → Decoded l
      → find k (scan_items ns l) ≡ decode_stored (find_entry k l)
  unfolding find find_entry scan_items
  find-scan_items ns k [] d = refl
  find-scan_items ns k ((j, b) ∷ l) ((vv, e), d) =
      rw (scan_items-cons ns j b l vv e) (ground (arith, e, find-scan_items ns k l d))

  split-join : (ns k : Bytes) → IsName ns → split_composite_key (join_key ns k) ≡ ok (ns, k)
  unfolding split_composite_key
  split-join ns k named = rw (split_n-join_key ns k named, split_composite_key) refl

  module _ (db : LevelStore) (contents : Contents) (holds : Holds db contents)
      (encoded : IsEncoded contents) where
    get_state_lem : (ns key : Bytes) → get_state v db ns key ≡ ok (state_of contents ns key)
    unfolding get_state state_of
    get_state_lem ns key =
        rw (holds.get_ok (join_key ns key)) (by_value (contents (join_key ns key)) refl)
      where
        by_value :
            (o : Option Bytes)
            → contents (join_key ns key) ≡ o
            → decode_found v db o ≡ ok (decode_stored o)
        by_value none e = refl
        by_value (some b) e = let (vv, d) = encoded (join_key ns key) b e in rw d refl

    scan_items-Yields :
        (ns : Bytes) (itr : db.Itr) (l : List (Bytes × Bytes))
        → IsName ns
        → Decoded l
        → Gives db.next itr (under ns l)
        → Yields (next v db) (ns, itr) (scan_items ns l)
    unfolding next scan_items
    scan_items-Yields ns itr [] named d (itr', e) = ((ns, itr'), rw e refl)
    scan_items-Yields ns itr ((k, b) ∷ l) named ((vv, f), d) (itr', e, rest) =
        rw (scan_items-cons ns k b l vv f) (
          (ns, itr'),
          rw (e, split-join ns k named, f) refl,
          scan_items-Yields ns itr' l named d rest,
        )

    open_between :
        (ns start_key k : Bytes)
        → between (join_key ns start_key) (ns ++ 1 ∷ []) (join_key ns k) ≡ in_range start_key [] k
    open_between ns start_key k =
        rw (is_before-join ns start_key k, is_before-end ns k) (ground arith)

    -- The range of LevelDB that a scan asks for is the range of the namespace.
    scan_entries :
        (ns start_key end_key : Bytes)
        → (l : List (Bytes × Bytes)) × Gives db.next
            (db.get_iterator (join_key ns start_key) (some (scan_end ns end_key)))
            (under ns l)
          × IsRange (prefixed contents ns) (in_range start_key end_key) l
    scan_entries ns start_key [] =
        let (l, gives, r) = holds.range_ok (join_key ns start_key) (ns ++ 1 ∷ []) in
        let (l', same, r') =
          prefixed-IsRange contents ns (between (join_key ns start_key) (ns ++ 1 ∷ []))
            (in_range start_key []) l (λ x. between-join_key ns start_key (1 ∷ []) x last-Ends)
            (open_between ns start_key) r in
        (l', subst (Gives db.next _) same gives, r')
    scan_entries ns start_key (b ∷ end_key) =
        let (l, gives, r) = holds.range_ok (join_key ns start_key) (join_key ns (b ∷ end_key)) in
        let (l', same, r') =
          prefixed-IsRange contents ns (between (join_key ns start_key) (join_key ns (b ∷ end_key)))
            (in_range start_key (b ∷ end_key)) l
            (λ x. between-join_key ns start_key (0 ∷ b ∷ end_key) x (key-Ends (b ∷ end_key)))
            (between-join ns start_key (b ∷ end_key)) r in
        (l', subst (Gives db.next _) same gives, r')

    get_state_range_scan_iterator_lem :
        (ns start_key end_key : Bytes)
        → IsName ns
        → (itr : Bytes × db.Itr) × (l : List VersionedKv) × (get_state_range_scan_iterator v db ns
              start_key end_key
            ≡ ok itr)
          × Yields (next v db) itr l
          × IsScan ns (in_range start_key end_key) (state_of contents ns) l
    unfolding get_state_range_scan_iterator state_of
    get_state_range_scan_iterator_lem ns start_key end_key named =
        let (l, gives, r) = scan_entries ns start_key end_key in
        let d =
          entries-Decoded l r.ascending
            (λ k b e. found k b (in_range start_key end_key k) (sym (r.exact k) ∙ e)) in
        (
          (ns, db.get_iterator (join_key ns start_key) (some (scan_end ns end_key))),
          scan_items ns l,
          refl,
          scan_items-Yields ns _ l named d gives,
          record {
            ascending = subst Ascending (sym (kv_keys-scan_items ns l d)) r.ascending;
            in_ns = scan_items-in_ns ns l d;
            exact = λ k.
                find-scan_items ns k l d
                ∙ ap decode_stored (r.exact k)
                ∙ decode_if (in_range start_key end_key k) (contents (join_key ns k));
          },
        )
      where
        found :
            (k b : Bytes) (t : Bool)
            → (if t then contents (join_key ns k) else none) ≡ some b
            → (vv : VersionedValue) × (decode_value v b ≡ ok vv)
        found k b true e = encoded (join_key ns k) b e
        found k b false e = cc

        decode_if :
            (t : Bool) (o : Option Bytes)
            → decode_stored (if t then o else none) ≡ (if t then decode_stored o else none)
        decode_if true o = refl
        decode_if false o = refl

    -- If LevelDB holds contents whose values all decode, the versioned database serves the state that
    -- they stand for: `GetState` reads it, and a range scan of a namespace without zero bytes delivers
    -- the range of the namespace in order, up to its end if the end key is empty.
    pub versioned_db-Serves : Serves (versioned_db v db) (state_of contents)
    versioned_db-Serves = record {
      get_state_ok = get_state_lem;
      scan_ok = get_state_range_scan_iterator_lem;
    }
