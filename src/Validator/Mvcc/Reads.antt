-- ===== src/Validator/Mvcc/Reads.antt =====
-- The reads of a transaction: each is of the committed version of a key that the batch leaves alone.
use mathlib.Core.Bool.{false≢true}
use fabric.Prelude.{
  ◌≡◌, ◌↔◌, refl, sym, ◌∙◌, Option, none, some, Bool, true, false, List, [], ◌∷◌, arith, All,
}
use fabric.Prelude.Bytes.{Bytes}
use fabric.Prelude.Outcome.{Outcome, ok}
use fabric.Version.{are_same}
use fabric.Version.Comparison.{are_same_iff}
use fabric.StateDb
use fabric.StateDb.{VersionedValue, VersionedKv, UpdateBatch, exists}
use fabric.StateDb.Batch.{exists-get}
use fabric.StateDb.VersionedDb.{VersionedDb, Serves}
use fabric.RwSet.{KvRead, new_version}
use fabric.Validator.Mvcc.{committed_version, validate_kv_read, validate_read_set}
use fabric.Validator.Mvcc.Current.{ReadIsCurrent}

-- A call that returns, and returns true exactly when `P` holds.
abbrev pub Decides : Outcome Bool → Type 0 → Type 0
Decides r P = (b : Bool) × (r ≡ ok b) × ((b ≡ true) ↔ P)

module _ (db : VersionedDb) (state : Bytes → Bytes → Option VersionedValue)
    (serves : Serves db state) (updates : UpdateBatch) where
  read_current :
      (ns : Bytes) (r : KvRead)
      → Decides (validate_kv_read db ns r updates) (ReadIsCurrent state updates ns r)
  unfolding validate_kv_read
  read_current ns r = go (StateDb.get updates ns r.key) refl
    where
      same : new_version r.version ≡ r.version
      same = ground arith

      go :
          (o : Option VersionedValue)
          → StateDb.get updates ns r.key ≡ o
          → Decides (validate_kv_read db ns r updates) (ReadIsCurrent state updates ns r)
      go (some vv) e = (
        false,
        rw (exists-get updates ns r.key, validate_kv_read) (rw e),
        (λ p. cc, λ p. cc (p.not_updated, e)),
      )
      go none e = (
        are_same (committed_version (state ns r.key)) (new_version r.version),
        rw (exists-get updates ns r.key, validate_kv_read) (rw (e, serves.get_state_ok ns r.key)),
        (
          λ p. record {
            not_updated = e;
            same_version =
                (are_same_iff (committed_version (state ns r.key)) (new_version r.version)).0 p
                ∙ same;
          },
          λ p. (are_same_iff _ _).1 (p.same_version ∙ sym same),
        ),
      )

  -- A list is checked item by item, and the first failure ends the check.
  pub read_set_current :
      (ns : Bytes) (rs : List KvRead)
      → Decides (validate_read_set db ns rs updates) (All (ReadIsCurrent state updates ns) rs)
  unfolding validate_read_set
  read_set_current ns [] = (true, refl, (λ _. tt, λ _. refl))
  read_set_current ns (r ∷ rs) = both (read_current ns r) (read_set_current ns rs)
    where
      both :
          Decides (validate_kv_read db ns r updates) (ReadIsCurrent state updates ns r)
          → Decides (validate_read_set db ns rs updates) (All (ReadIsCurrent state updates ns) rs)
          → Decides
              (validate_read_set db ns (r ∷ rs) updates)
              (All (ReadIsCurrent state updates ns) (r ∷ rs))
      both (false, e, i) rest =
          (false, rw (e, validate_read_set), (λ p. absurd (false≢true p), λ p. i.1 p.0))
      both (true, e, i) (b, e', i') =
          (b, rw (e, validate_read_set) e', (λ p. (i.0 refl, i'.0 p), λ p. i'.1 p.1))
