-- ===== src/Simulator/Runs.antt =====
-- A simulation on a state, and the validation of its results on the same state.
use mathlib.Core.Path.{subst}
use fabric.Prelude.{
  ℕ, ◌<◌, ◌≡◌, refl, ap, ◌∙◌, Option, none, some, true, false, List, [], ◌∷◌, All, All-append,
  get_elem?, get_elem?-All, set-All,
}
use fabric.Prelude.Bytes.{Bytes}
use fabric.Prelude.Outcome.{ok, panic, >>=-eq-ok}
use fabric.StateDb.{VersionedValue}
use fabric.StateDb.VersionedDb.{VersionedDb, Serves, IsName}
use fabric.RwSet.{TxRwSet}
use fabric.RwSet.QueryResults.{Hasher, done_results}
use fabric.RwSet.Builder.{RwSetBuilder, add_to_range_query_set, get_tx_read_write_set}
use fabric.RwSet.Builder.Everywhere.{
  IsBuilder, add_to_read_set-IsBuilder, add_to_write_set-IsBuilder,
  add_to_range_query_set-IsBuilder, get_tx_read_write_set-All,
}
use fabric.Validator.Mvcc.{valid, validate_tx}
use fabric.Validator.Mvcc.Current.{IsRawTx, ReadIsCurrent, TxIsCurrent}
use fabric.Validator.Mvcc.Correct.{validate_tx_iff}
use fabric.Simulator.{
  Settings, ResultsItr, Simulator, new_simulator, check_done, get_state, set_state,
  get_state_range_scan_iterator, next, add_range_queries, done, get_tx_simulation_results,
  results_of, with_results,
}
use fabric.Simulator.Scans.{Stays, IsItr, new_results_itr-IsItr, next_result-IsItr}
use fabric.Simulator.Calls.{Call, read, write, scan, advance, InNs, call, run}
use fabric.Simulator.Queries.{
  IsQuery, read-ReadIsCurrent, sets-TxIsCurrent, IsStored, IsAdvanced, recorded-QueryIsCurrent,
}

module _ (db : VersionedDb) (hasher : Hasher) (settings : Settings) where
  abbrev Sim : Type 0
  Sim = Simulator db hasher settings

  module _ (state : Bytes → Bytes → Option VersionedValue) (serves : Serves db state)
      (stays : Stays db) (plain : settings.hashing_enabled ≡ false) (stored : IsStored state) where
    abbrev IsCurrentBuilder : RwSetBuilder → Type 0
    IsCurrentBuilder = IsBuilder IsName (ReadIsCurrent state []) (IsQuery state)

    -- Before `done`: everything recorded is current, and every iterator is within its scan.
    pub record IsOpen (s : Sim) : Type 0 where
      pub builder_ok : IsCurrentBuilder s.rwset_builder
      pub itrs_ok : All (IsItr db hasher settings state) s.itrs
      pub no_error : s.error ≡ none
      pub not_done : s.done_invoked ≡ false

    check_done-open : (s : Sim) → IsOpen s → check_done db hasher settings s ≡ ok tt
    unfolding check_done
    check_done-open s h = rw h.not_done refl

    ok-same : {a b : Sim} → ok a ≡ ok b → a ≡ b
    ok-same e = cc

    never : {s : Sim} → panic ≡ ok s → IsOpen s
    never e = cc

    read-IsOpen :
        (s s' : Sim) (ns key : Bytes)
        → IsName ns
        → IsOpen s
        → call db hasher settings s (read ns key) ≡ ok s'
        → IsOpen s'
    unfolding call get_state
    read-IsOpen s s' ns key n h e =
        subst IsOpen (ok-same (rw (check_done-open s h, serves.get_state_ok ns key) at e)) (record {
          builder_ok =
              add_to_read_set-IsBuilder IsName (ReadIsCurrent state []) (IsQuery state)
                s.rwset_builder ns key _ n (read-ReadIsCurrent state ns key) h.builder_ok;
          itrs_ok = h.itrs_ok;
          no_error = h.no_error;
          not_done = h.not_done;
        })

    write-IsOpen :
        (s s' : Sim) (ns key : Bytes) (value : Option Bytes)
        → IsName ns
        → IsOpen s
        → call db hasher settings s (write ns key value) ≡ ok s'
        → IsOpen s'
    unfolding call set_state
    write-IsOpen s s' ns key value n h e =
        let (u, valid_key, e') =
          >>=-eq-ok (settings.validate_key key) _ (rw (check_done-open s h) at e) in
        subst IsOpen (ok-same e') (record {
          builder_ok =
              add_to_write_set-IsBuilder IsName (ReadIsCurrent state []) (IsQuery state)
                s.rwset_builder ns key value n h.builder_ok;
          itrs_ok = h.itrs_ok;
          no_error = h.no_error;
          not_done = h.not_done;
        })

    scan-IsOpen :
        (s s' : Sim) (ns start_key end_key : Bytes)
        → IsName ns
        → IsOpen s
        → call db hasher settings s (scan ns start_key end_key) ≡ ok s'
        → IsOpen s'
    unfolding call get_state_range_scan_iterator
    scan-IsOpen s s' ns start_key end_key n h e =
        let (itr, opened, itr_ok) =
          new_results_itr-IsItr db hasher settings state serves plain ns start_key end_key n in
        subst IsOpen (ok-same (rw (check_done-open s h, opened) at e)) (record {
          builder_ok = h.builder_ok;
          itrs_ok =
              All-append (IsItr db hasher settings state) s.itrs (itr ∷ []) h.itrs_ok (itr_ok, tt);
          no_error = h.no_error;
          not_done = h.not_done;
        })

    advance-IsOpen :
        (s s' : Sim) (i : ℕ) → IsOpen s → call db hasher settings s (advance i) ≡ ok s' → IsOpen s'
    unfolding call next
    advance-IsOpen s s' i h e = by_itr (get_elem? s.itrs i) refl
      where
        by_itr : (o : Option (ResultsItr db hasher settings)) → get_elem? s.itrs i ≡ o → IsOpen s'
        by_itr none f = never (rw (f, next) at e)
        by_itr (some itr) f =
            let (r, itr', moved, itr_ok) =
              next_result-IsItr db hasher settings state stays itr
                (get_elem?-All (IsItr db hasher settings state) s.itrs i itr h.itrs_ok f) in
            subst IsOpen (ok-same (rw (f, next, moved) at e)) (record {
              builder_ok = h.builder_ok;
              itrs_ok = set-All (IsItr db hasher settings state) s.itrs i itr' itr_ok h.itrs_ok;
              no_error = h.no_error;
              not_done = h.not_done;
            })

    call-IsOpen :
        (s s' : Sim) (c : Call)
        → InNs c
        → IsOpen s
        → call db hasher settings s c ≡ ok s'
        → IsOpen s'
    call-IsOpen s s' (read ns key) n h e = read-IsOpen s s' ns key n h e
    call-IsOpen s s' (write ns key value) n h e = write-IsOpen s s' ns key value n h e
    call-IsOpen s s' (scan ns start_key end_key) n h e = scan-IsOpen s s' ns start_key end_key n h e
    call-IsOpen s s' (advance i) n h e = advance-IsOpen s s' i h e

    run-IsOpen :
        (s s' : Sim) (calls : List Call)
        → All InNs calls
        → IsOpen s
        → run db hasher settings s calls ≡ ok s'
        → IsOpen s'
    unfolding run
    run-IsOpen s s' [] n h e = subst IsOpen (ok-same e) h
    run-IsOpen s s' (c ∷ calls) n h e =
        let (t, called, e') =
          >>=-eq-ok (call db hasher settings s c) (λ t. run db hasher settings t calls) e in
        run-IsOpen t s' calls n.1 (call-IsOpen s t c n.0 h called) e'

    abbrev recorded : Sim → ResultsItr db hasher settings → Sim
    recorded s itr = record s {
      rwset_builder = add_to_range_query_set s.rwset_builder itr.ns (
          with_results (itr.range_query_results_helper.pending_results, none) itr.range_query_info);
    }

    -- `done` records every iterator.
    add_range_queries-IsCurrentBuilder :
        (s : Sim) (itrs : List (ResultsItr db hasher settings))
        → IsCurrentBuilder s.rwset_builder
        → All (IsItr db hasher settings state) itrs
        → All (IsAdvanced db hasher settings state stored) itrs
        → (s' : Sim) × (add_range_queries db hasher settings s itrs ≡ ok s')
          × IsCurrentBuilder s'.rwset_builder
          × (s'.error ≡ s.error)
          × (s'.done_invoked ≡ s.done_invoked)
    unfolding add_range_queries done_results
    add_range_queries-IsCurrentBuilder s [] b h a = (s, refl, b, refl, refl)
    add_range_queries-IsCurrentBuilder s (itr ∷ itrs) b h a =
        let added =
          add_to_range_query_set-IsBuilder IsName (ReadIsCurrent state []) (IsQuery state)
            s.rwset_builder itr.ns
            (with_results (itr.range_query_results_helper.pending_results, none)
              itr.range_query_info)
            h.0.named (recorded-QueryIsCurrent db hasher settings state stored itr h.0 a.0) b in
        let (s', e, b', same, same') =
          add_range_queries-IsCurrentBuilder (recorded s itr) itrs added h.1 a.1 in
        (s', rw (h.0.plain, done_results) e, b', same, same')

    get_tx_simulation_results-TxIsCurrent :
        (s : Sim)
        → IsOpen s
        → All (IsAdvanced db hasher settings state stored) s.itrs
        → (tx : TxRwSet) × (s' : Sim) × (get_tx_simulation_results db hasher settings s
            ≡ ok (tx, s'))
          × TxIsCurrent state [] tx
          × IsRawTx tx
    unfolding get_tx_simulation_results done
    get_tx_simulation_results-TxIsCurrent s h a =
        let (s', e, b, same, same') =
          add_range_queries-IsCurrentBuilder (record s { done_invoked = true }) s.itrs h.builder_ok
            h.itrs_ok a in
        let (current, raw) = sets-TxIsCurrent state _ (
          get_tx_read_write_set-All IsName (ReadIsCurrent state []) (IsQuery state) s'.rwset_builder
            b) in
        (
          get_tx_read_write_set s'.rwset_builder,
          s',
          rw (h.not_done, e) (ap (λ o. results_of db hasher settings o s') (same ∙ h.no_error)),
          current,
          raw,
        )

    -- If a simulation on a database that serves a state makes calls in namespaces without zero bytes
    -- that all return, with the hashing of query results off, every value of the state stored with a
    -- version, iterators that stay ended, and every iterator advanced to its end or last to a key that
    -- is not empty, then its results are returned, and the validation of them on the same state
    -- against no updates answers valid for every fuel from some bound on.
    pub validate_tx-get_tx_simulation_results :
        (calls : List Call) (s : Sim)
        → All InNs calls
        → run db hasher settings (new_simulator db hasher settings) calls ≡ ok s
        → All (IsAdvanced db hasher settings state stored) s.itrs
        → (tx : TxRwSet) × (s' : Sim) × (get_tx_simulation_results db hasher settings s
            ≡ ok (tx, s'))
          × (n : ℕ) × ((fuel : ℕ) → n < fuel → validate_tx db hasher fuel tx [] ≡ ok valid)
    validate_tx-get_tx_simulation_results calls s named e a =
        let started : IsOpen (new_simulator db hasher settings) = record {
          builder_ok = tt;
          itrs_ok = tt;
          no_error = refl;
          not_done = refl;
        } in
        let (tx, s', results, current, raw) =
          get_tx_simulation_results-TxIsCurrent s (run-IsOpen _ s calls named started e) a in
        let (c, n, validated, verdict, iff) =
          validate_tx_iff db state serves [] (record { distinct = tt }) hasher tx raw in
        (tx, s', results, n, λ fuel m. validated fuel m ∙ ap ok (iff.1 current))
