-- ===== src/Simulator/Scans.antt =====
-- The iterators of a simulation: what they have delivered and what is left of their scans.
use mathlib.Core.Path.{subst}
use fabric.Prelude.{
  append_assoc, ◌≡◌, refl, sym, ap, ◌∙◌, Option, none, some, true, false, List, [], ◌∷◌, ◌++◌, map,
  inl, inr, ◌⊎◌,
}
use fabric.Prelude.Bytes.{Bytes}
use fabric.Prelude.Outcome.{ok}
use fabric.StateDb.{VersionedValue, VersionedKv}
use fabric.StateDb.Scan.{in_range, IsScan, Yields}
use fabric.StateDb.Scan.Prefix.{last_key, last_key-snoc}
use fabric.StateDb.VersionedDb.{VersionedDb, Serves, IsName}
use fabric.RwSet.{KvRead, no_reads, new_kv_read}
use fabric.RwSet.QueryResults.{
  Hasher, RangeQueryResultsHelper, add_result, new_range_query_results_helper,
}
use fabric.Validator.RangeQuery.RawReads.{to_read}
use fabric.Simulator.{
  Settings, ResultsItr, Kv, to_kv, update_range_query_info, next_result, new_results_itr,
}

-- An iterator that has ended stays so.
abbrev pub Stays : VersionedDb → Type 0
Stays db =
    (i i' : db.Itr)
    → db.next_item i ≡ ok (none, i')
    → (i'' : db.Itr) × (db.next_item i' ≡ ok (none, i''))

module _ (db : VersionedDb) (hasher : Hasher) (settings : Settings)
    (state : Bytes → Bytes → Option VersionedValue) where
  -- The recorded end of the range: that of the query once the iterator has ended, and else the last
  -- key that was delivered.
  abbrev pub IsEnd : ResultsItr db hasher settings → List VersionedKv → List VersionedKv → Type 0
  IsEnd it delivered rest =
      ((it.range_query_info.itr_exhausted ≡ false)
        × (it.range_query_info.end_key ≡ last_key delivered))
      ⊎ ((rest ≡ [])
          × (it.range_query_info.itr_exhausted ≡ true)
          × (it.range_query_info.end_key ≡ it.end_key))

  pub record IsItr (it : ResultsItr db hasher settings) : Type 0 where
    pub delivered : List VersionedKv
    pub rest : List VersionedKv
    pub named : IsName it.ns
    pub plain : it.range_query_results_helper.hashing_enabled ≡ false
    pub kept : it.range_query_results_helper.pending_results ≡ map to_read delivered
    pub unset : it.range_query_info.reads_info ≡ no_reads
    pub scan :
        IsScan it.ns
          (in_range it.range_query_info.start_key it.end_key)
          (state it.ns)
          (delivered ++ rest)
    pub yields : Yields db.next_item it.db_itr rest
    pub end_ok : IsEnd it delivered rest

  -- A new iterator, one that has ended, and one that has delivered an item.
  abbrev opened : Bytes → Bytes → Bytes → db.Itr → ResultsItr db hasher settings
  opened ns start_key end_key itr = record {
    ns = ns;
    end_key = end_key;
    db_itr = itr;
    range_query_info = record {
      start_key = start_key;
      end_key = [];
      itr_exhausted = false;
      reads_info = no_reads;
    };
    range_query_results_helper = record {
      pending_results = [];
      mt = none;
      max_degree = settings.max_degree;
      hashing_enabled = false;
    };
  }

  abbrev ended : ResultsItr db hasher settings → db.Itr → ResultsItr db hasher settings
  ended it itr = record it {
    db_itr = itr;
    range_query_info = record it.range_query_info { itr_exhausted = true; end_key = it.end_key };
  }

  abbrev kept_with : RangeQueryResultsHelper → KvRead → RangeQueryResultsHelper
  kept_with helper r = record helper { pending_results = helper.pending_results ++ r ∷ [] }

  abbrev moved :
      ResultsItr db hasher settings → db.Itr → VersionedKv → ResultsItr db hasher settings
  moved it itr kv = record it {
    db_itr = itr;
    range_query_results_helper =
        kept_with it.range_query_results_helper (new_kv_read kv.key kv.version);
    range_query_info = record it.range_query_info { end_key = kv.key };
  }

  pub new_results_itr-IsItr :
      Serves db state
      → settings.hashing_enabled ≡ false
      → (ns start_key end_key : Bytes) → IsName ns
      → (it : ResultsItr db hasher settings) × (new_results_itr db hasher settings ns start_key
            end_key
          ≡ ok it)
        × IsItr it
  unfolding new_results_itr
  new_results_itr-IsItr serves off ns start_key end_key named =
      let (itr, l, e, yields, scan) = serves.scan_ok ns start_key end_key named in
      (
        opened ns start_key end_key itr,
        rw (e, off, new_range_query_results_helper) refl,
        record {
          delivered = [];
          rest = l;
          named = named;
          plain = refl;
          kept = refl;
          unset = refl;
          scan = scan;
          yields = yields;
          end_ok = inl (refl, refl);
        },
      )

  add_result-kept :
      (helper : RangeQueryResultsHelper) (r : KvRead)
      → helper.hashing_enabled ≡ false
      → add_result hasher helper r ≡ ok (kept_with helper r, true)
  unfolding add_result
  add_result-kept helper r e = rw (e, add_result)

  map-append :
      (a : List VersionedKv) (kv : VersionedKv)
      → map to_read a ++ to_read kv ∷ [] ≡ map to_read (a ++ kv ∷ [])
  map-append [] kv = refl
  map-append (x ∷ a) kv = ap (◌∷◌ (to_read x)) (map-append a kv)

  not_ended :
      (it : ResultsItr db hasher settings) (d : List VersionedKv) (kv : VersionedKv)
      (l rest : List VersionedKv)
      → rest ≡ kv ∷ l
      → IsEnd it d rest
      → it.range_query_info.itr_exhausted ≡ false
  not_ended it d kv l rest e (inl (off, same)) = off
  not_ended it d kv l rest e (inr (nothing, on, same)) = cc (e, nothing)

  -- `Next` always returns, and keeps what is known of the iterator.
  pub next_result-IsItr :
      Stays db
      → (it : ResultsItr db hasher settings) → IsItr it
      → (r : Option Kv) × (it' : ResultsItr db hasher settings) × (next_result db hasher settings it
          ≡ ok (r, it'))
        × IsItr it'
  unfolding next_result update_range_query_info
  next_result-IsItr stays it h = by_rest h.rest refl
    where
      by_rest :
          (l : List VersionedKv)
          → h.rest ≡ l
          → (r : Option Kv) × (it' : ResultsItr db hasher settings) × (next_result db hasher
                settings it
              ≡ ok (r, it'))
            × IsItr it'
      by_rest [] e =
          let (itr, n) : Yields db.next_item it.db_itr [] =
            subst (Yields db.next_item it.db_itr) e h.yields in
          (
            none,
            ended it itr,
            rw (n, next_result) refl,
            record {
              delivered = h.delivered;
              rest = [];
              named = h.named;
              plain = h.plain;
              kept = h.kept;
              unset = h.unset;
              scan =
                  subst
                    (λ m.
                      IsScan it.ns (in_range it.range_query_info.start_key it.end_key) (state it.ns)
                        (h.delivered ++ m))
                    e h.scan;
              yields = stays it.db_itr itr n;
              end_ok = inr (refl, refl, refl);
            },
          )
      by_rest (kv ∷ l) e =
          let (itr, n, y) : Yields db.next_item it.db_itr (kv ∷ l) =
            subst (Yields db.next_item it.db_itr) e h.yields in
          let added =
            add_result-kept it.range_query_results_helper (new_kv_read kv.key kv.version) h.plain in
          (
            to_kv (some kv),
            moved it itr kv,
            rw (n, added) refl,
            record {
              delivered = h.delivered ++ kv ∷ [];
              rest = l;
              named = h.named;
              plain = h.plain;
              kept = ap (λ m. m ++ to_read kv ∷ []) h.kept ∙ map-append h.delivered kv;
              unset = h.unset;
              scan =
                  subst
                    (IsScan it.ns (in_range it.range_query_info.start_key it.end_key) (state it.ns))
                    (ap (λ m. h.delivered ++ m) e ∙ sym (append_assoc h.delivered (kv ∷ []) l))
                    h.scan;
              yields = y;
              end_ok = inl (
                not_ended it h.delivered kv l h.rest e h.end_ok,
                sym (last_key-snoc h.delivered kv),
              );
            },
          )
