-- ===== src/RwSet/Builder/Everywhere.antt =====
-- A predicate that holds of all that is added to the builder holds of the read-write set.
use mathlib.Core.Path.{subst}
use fabric.Prelude.{
  ◌≡◌, refl, Option, none, some, List, [], ◌∷◌, ◌++◌, All, Eq, Bool-cases, inl, inr,
}
use fabric.Prelude.Bytes.{Bytes, bytes_Eq}
use fabric.Prelude.Assoc.{Assoc, lookup, insert}
use fabric.Version.{Height}
use fabric.RwSet.{KvRead, RangeQueryInfo, NsRwSet, new_kv_read}
use fabric.RwSet.Builder.{
  NsRws, RwSetBuilder, query_key_Eq, key_of, or_new, get_or_create_ns_rw, add_to_read_set,
  add_to_write_set, add_to_range_query_set, with_query, at_keys, to_ns_rw_set, ns_rw_sets,
  get_tx_read_write_set,
}

module _ {ℓ κ} {K : Type ℓ} {V : Type κ} ⦃e : Eq K⦄ where
  abbrev pub AllEntries : (K → V → Type 0) → Assoc K V → Type 0
  AllEntries P = All (λ (k, v). P k v)

  pub lookup-AllEntries :
      (P : K → V → Type 0) (k : K) (m : Assoc K V) (v : V)
      → AllEntries P m
      → lookup k m ≡ some v
      → P k v
  unfolding lookup
  lookup-AllEntries P k [] v h f = cc
  lookup-AllEntries P k ((j, w) ∷ m) v h f = elim (Bool-cases (e.beq j k)) [
    | inl hit ↦ subst (P k) (same (rw hit at f)) (subst (λ x. P x w) ((e.beq_iff j k).0 hit) h.0)
    | inr miss ↦ lookup-AllEntries P k m v h.1 (rw miss at f)
  ]
    where
      same : some w ≡ some v → w ≡ v
      same g = cc

  pub insert-AllEntries :
      (P : K → V → Type 0) (k : K) (v : V) (m : Assoc K V)
      → P k v
      → AllEntries P m
      → AllEntries P (insert k v m)
  unfolding insert
  insert-AllEntries P k v [] p h = (p, tt)
  insert-AllEntries P k v ((j, w) ∷ m) p h = elim (Bool-cases (e.beq j k)) [
    | inl hit ↦ rw hit (p, h.1)
    | inr miss ↦ rw miss (h.0, insert-AllEntries P k v m p h.1)
  ]

  at_keys-All :
      (P : V → Type 0) (m : Assoc K V) (ks : List K) → AllEntries (λ k. P) m → All P (at_keys m ks)
  at_keys-All P m [] h = tt
  at_keys-All P m (k ∷ ks) h = by_value (lookup k m) refl (at_keys-All P m ks h)
    where
      by_value :
          (o : Option V)
          → lookup k m ≡ o
          → All P (at_keys m ks)
          → All P (elim o [ none ↦ at_keys m ks | some v ↦ v ∷ at_keys m ks ])
      by_value none f rest = rest
      by_value (some v) f rest = (lookup-AllEntries (λ k. P) k m v h f, rest)

-- What is to hold of every namespace, read and range query.
module _ (N : Bytes → Type 0) (R : Bytes → KvRead → Type 0)
    (Q : Bytes → RangeQueryInfo → Type 0) where
  pub record IsNsRws (ns : Bytes) (n : NsRws) : Type 0 where
    pub named : N ns
    pub reads_ok : AllEntries (λ k. R ns) n.read_map
    pub queries_ok : AllEntries (λ k. Q ns) n.range_queries_map

  abbrev pub IsBuilder : RwSetBuilder → Type 0
  IsBuilder = AllEntries IsNsRws

  get_or_create_ns_rw-IsNsRws :
      (rws : RwSetBuilder) (ns : Bytes)
      → N ns
      → IsBuilder rws
      → IsNsRws ns (get_or_create_ns_rw rws ns)
  unfolding get_or_create_ns_rw
  get_or_create_ns_rw-IsNsRws rws ns n h = by_entry (lookup ns rws) refl
    where
      by_entry : (o : Option NsRws) → lookup ns rws ≡ o → IsNsRws ns (or_new o)
      by_entry none e = record { named = n; reads_ok = tt; queries_ok = tt }
      by_entry (some m) e = lookup-AllEntries IsNsRws ns rws m h e

  pub add_to_read_set-IsBuilder :
      (rws : RwSetBuilder) (ns key : Bytes) (version : Option Height)
      → N ns
      → R ns (new_kv_read key version)
      → IsBuilder rws
      → IsBuilder (add_to_read_set rws ns key version)
  unfolding add_to_read_set
  add_to_read_set-IsBuilder rws ns key version n r h =
      let m = get_or_create_ns_rw-IsNsRws rws ns n h in
      insert-AllEntries IsNsRws ns _ rws
        (record {
          named = n;
          reads_ok = insert-AllEntries (λ k. R ns) key (new_kv_read key version) _ r m.reads_ok;
          queries_ok = m.queries_ok;
        })
        h

  pub add_to_write_set-IsBuilder :
      (rws : RwSetBuilder) (ns key : Bytes) (value : Option Bytes)
      → N ns
      → IsBuilder rws
      → IsBuilder (add_to_write_set rws ns key value)
  unfolding add_to_write_set
  add_to_write_set-IsBuilder rws ns key value n h =
      let m = get_or_create_ns_rw-IsNsRws rws ns n h in
      insert-AllEntries IsNsRws ns _ rws
        (record { named = n; reads_ok = m.reads_ok; queries_ok = m.queries_ok }) h

  with_query-IsNsRws :
      (ns : Bytes) (rqi : RangeQueryInfo) (m : NsRws)
      → Q ns rqi
      → IsNsRws ns m
      → IsNsRws ns (with_query rqi m)
  with_query-IsNsRws ns rqi m q h = by_old (lookup (key_of rqi) m.range_queries_map)
    where
      by_old :
          (o : Option RangeQueryInfo)
          → IsNsRws ns (elim o [
            | some old ↦ m
            | none ↦ record m {
              range_queries_map = insert (key_of rqi) rqi m.range_queries_map;
              range_queries_keys = m.range_queries_keys ++ key_of rqi ∷ [];
            }
          ])
      by_old (some old) = h
      by_old none = record {
        named = h.named;
        reads_ok = h.reads_ok;
        queries_ok =
            insert-AllEntries (λ k. Q ns) (key_of rqi) rqi m.range_queries_map q h.queries_ok;
      }

  pub add_to_range_query_set-IsBuilder :
      (rws : RwSetBuilder) (ns : Bytes) (rqi : RangeQueryInfo)
      → N ns
      → Q ns rqi
      → IsBuilder rws
      → IsBuilder (add_to_range_query_set rws ns rqi)
  unfolding add_to_range_query_set
  add_to_range_query_set-IsBuilder rws ns rqi n q h =
      insert-AllEntries IsNsRws ns _ rws
        (with_query-IsNsRws ns rqi _ q (get_or_create_ns_rw-IsNsRws rws ns n h)) h

  pub record IsNsSet (s : NsRwSet) : Type 0 where
    pub named : N s.name_space
    pub reads_ok : All (R s.name_space) s.reads
    pub queries_ok : All (Q s.name_space) s.range_queries_info

  ns_rw_sets-All :
      (rws : RwSetBuilder) (nss : List Bytes) → IsBuilder rws → All IsNsSet (ns_rw_sets rws nss)
  unfolding to_ns_rw_set
  ns_rw_sets-All rws [] h = tt
  ns_rw_sets-All rws (ns ∷ nss) h = by_entry (lookup ns rws) refl (ns_rw_sets-All rws nss h)
    where
      by_entry :
          (o : Option NsRws)
          → lookup ns rws ≡ o
          → All IsNsSet (ns_rw_sets rws nss)
          → All IsNsSet (elim o [
            | none ↦ ns_rw_sets rws nss
            | some m ↦ to_ns_rw_set ns m ∷ ns_rw_sets rws nss
          ])
      by_entry none e rest = rest
      by_entry (some m) e rest =
          let n = lookup-AllEntries IsNsRws ns rws m h e in
          (
            record {
              named = n.named;
              reads_ok = at_keys-All (R ns) m.read_map _ n.reads_ok;
              queries_ok = at_keys-All (Q ns) m.range_queries_map _ n.queries_ok;
            },
            rest,
          )

  pub get_tx_read_write_set-All :
      (rws : RwSetBuilder) → IsBuilder rws → All IsNsSet (get_tx_read_write_set rws)
  unfolding get_tx_read_write_set
  get_tx_read_write_set-All rws h = ns_rw_sets-All rws _ h
