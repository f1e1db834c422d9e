-- ===== src/Examples/Simulation.antt =====
-- Simulations on the database of one entry, and what the validation says of their results.
use mathlib.Core.Path.{subst}
use fabric.Prelude.{
  ℕ, ◌<◌, ◌≡◌, refl, sym, ap, ◌&&◌, if◌then◌else◌, Option, none, some, Bool, true, false, List, [],
  ◌∷◌, inl, inr,
}
use fabric.Prelude.Bytes.{Bytes, codes, bytes_eq, compare_bytes}
use fabric.Prelude.Assoc.{lookup, insert}
use fabric.Prelude.Outcome.{Outcome, ok, ◌>>=◌}
use fabric.Version.{Height}
use fabric.StateDb.{VersionedValue, VersionedKv}
use fabric.RwSet.{TxRwSet}
use fabric.Validator.Mvcc.{valid, phantom_read_conflict, validate_tx}
use fabric.StateDb
use fabric.StateDb.{get_range_scan_iterator}
use fabric.StateDb.SortedKeys.{get_sorted_keys}
use fabric.RwSet.Builder.{get_tx_read_write_set, to_ns_rw_set}
use fabric.Validator.Combined
use fabric.Validator.Combined.{new_combined_iterator}
use fabric.Simulator.{
  add_range_queries, Settings, Simulator, new_simulator, get_tx_simulation_results,
}
use fabric.Simulator.Scans.{Stays}
use fabric.Simulator.Queries.{IsStored}
use fabric.Simulator.Calls.{Call, run}
use fabric.Simulator.Runs.{validate_tx-get_tx_simulation_results}
use fabric.Examples.Database.{
  chaincode, chaincode-IsName, key_a, contents, one_entry, one_entry-Serves, genesis, entry,
}
use fabric.Examples.Validation.{identity_hasher}

abbrev plain_settings : Settings
plain_settings = record { hashing_enabled = false; max_degree = 2; validate_key = λ key. ok tt }

one_entry-Stays : Stays one_entry
one_entry-Stays [] i' e =
    subst (λ i. (i'' : one_entry.Itr) × (one_entry.next_item i ≡ ok (none, i''))) (same e)
      ([], refl)
  where
    same :
        ◌≡◌ {A = Outcome (Option VersionedKv × List VersionedKv)} (ok (none, [])) (ok (none, i'))
        → [] ≡ i'
    same g = cc
one_entry-Stays (kv ∷ l) i' e = absurd (never e)
  where
    never :
        ◌≡◌ {A = Outcome (Option VersionedKv × List VersionedKv)} (ok (some kv, l)) (ok (none, i'))
        → ⊥
    never g = cc

contents-IsStored : IsStored contents
contents-IsStored ns k vv e = by_test (bytes_eq chaincode ns && bytes_eq key_a k) e
  where
    by_test :
        (t : Bool)
        → (if t then some entry else none) ≡ some vv
        → ((b : Bytes) × (vv.value ≡ some b)) × ((h : Height) × (vv.version ≡ some h))
    by_test true g = (
      (codes "1", ap (λ w. w.value) (sym (same g))),
      (genesis, ap (λ w. w.version) (sym (same g))),
    )
      where
        same : some entry ≡ some vv → entry ≡ vv
        same f = cc
    by_test false g = cc

-- A read, a write, a scan of every key to its end and one that stops at its first key.
abbrev calls : List Call
calls =
    Call.read chaincode key_a
    ∷ Call.write chaincode (codes "b") (some (codes "2"))
    ∷ Call.scan chaincode [] []
    ∷ Call.advance 0
    ∷ Call.advance 0
    ∷ Call.scan chaincode [] (codes "z")
    ∷ Call.advance 1
    ∷ []

abbrev Sim : Type 0
Sim = Simulator one_entry identity_hasher plain_settings

abbrev started : Sim
started = new_simulator one_entry identity_hasher plain_settings

abbrev or_started : Outcome Sim → Sim
or_started (ok s) = s
or_started _ = started

abbrev simulated : Sim
simulated = or_started (run one_entry identity_hasher plain_settings started calls)

validate_tx-get_tx_simulation_results_example :
    (tx : TxRwSet) × (s' : Sim) × (get_tx_simulation_results one_entry identity_hasher
        plain_settings simulated
      ≡ ok (tx, s'))
    × (n : ℕ) × ((fuel : ℕ)
        → n < fuel
        → validate_tx one_entry identity_hasher fuel tx [] ≡ ok valid)
unfolding run bytes_eq compare_bytes
validate_tx-get_tx_simulation_results_example =
    validate_tx-get_tx_simulation_results one_entry identity_hasher plain_settings contents
      one_entry-Serves one_entry-Stays refl contents-IsStored calls simulated
      (
        chaincode-IsName,
        (chaincode-IsName, (chaincode-IsName, (tt, (tt, (chaincode-IsName, (tt, tt)))))),
      )
      refl (inl refl, (inr (λ e. cc), tt))

abbrev after_results : Outcome (TxRwSet × Sim) → Sim
after_results (ok r) = r.1
after_results _ = started

abbrev results_part : Outcome (TxRwSet × Sim) → TxRwSet
results_part (ok r) = r.0
results_part _ = []

abbrev results : Outcome (TxRwSet × Sim)
results = get_tx_simulation_results one_entry identity_hasher plain_settings simulated

-- A scan that is opened and never advanced.
abbrev unadvanced : List Call
unadvanced = Call.scan chaincode [] [] ∷ []

abbrev validated : List Call → Outcome ℕ
validated calls =
    run one_entry identity_hasher plain_settings
      (new_simulator one_entry identity_hasher plain_settings) calls
    >>= λ s. get_tx_simulation_results one_entry identity_hasher plain_settings s >>= λ r.
        validate_tx one_entry identity_hasher 5 r.0 []

validated-unadvanced : validated unadvanced ≡ ok phantom_read_conflict
unfolding run get_tx_simulation_results add_range_queries validate_tx get_tx_read_write_set
    get_sorted_keys insert lookup bytes_eq to_ns_rw_set new_combined_iterator StateDb.next
    get_range_scan_iterator Combined.next compare_bytes
validated-unadvanced = refl
