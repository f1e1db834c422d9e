-- ===== src/StateDb/Scan/Append.antt =====
-- A last item behind a scan.
use fabric.Prelude.{
  ◌≡◌, refl, Option, none, some, Bool, true, false, List, [], ◌∷◌, ◌++◌, arith, All, Bool-cases,
  inl, inr,
}
use fabric.Prelude.Bytes.{Bytes, Before, bytes_eq_iff}
use fabric.StateDb.{VersionedValue, VersionedKv}
use fabric.StateDb.Scan.{find, kv_keys}
use fabric.StateDb.SortedKeys.{Ascending}

abbrev pub or_else : Option VersionedValue → Option VersionedValue → Option VersionedValue
or_else none o = o
or_else (some v) o = some v

pub find-append :
    (k : Bytes) (l e : List VersionedKv) → find k (l ++ e) ≡ or_else (find k l) (find k e)
unfolding find
find-append k [] e = refl
find-append k (kv ∷ l) e = ground (arith, find-append k l e)

All-snoc :
    (P : Bytes → Type 0) (l : List VersionedKv) (kv : VersionedKv)
    → All P (kv_keys l)
    → P kv.key
    → All P (kv_keys (l ++ kv ∷ []))
All-snoc P [] kv h p = (p, tt)
All-snoc P (x ∷ l) kv h p = (h.0, All-snoc P l kv h.1 p)

pub Ascending-snoc :
    (l : List VersionedKv) (kv : VersionedKv)
    → Ascending (kv_keys l)
    → All (λ k. Before k kv.key) (kv_keys l)
    → Ascending (kv_keys (l ++ kv ∷ []))
Ascending-snoc [] kv h b = (tt, tt)
Ascending-snoc (x ∷ l) kv h b = (All-snoc (Before x.key) l kv h.0 b.0, Ascending-snoc l kv h.1 b.1)

-- A scan holds only keys that pass its test.
pub keys_pass :
    (test : Bytes → Bool) (l : List VersionedKv)
    → ((k : Bytes) → test k ≡ false → find k l ≡ none)
    → All (λ k. test k ≡ true) (kv_keys l)
unfolding find
keys_pass test [] h = tt
keys_pass test (kv ∷ l) h = (
  elim (Bool-cases (test kv.key)) [
    | inl e ↦ e
    | inr e ↦ ground (arith, h kv.key e, bytes_eq_iff kv.key kv.key)
  ],
  keys_pass test l (λ k e. ground (arith, h k e)),
)
