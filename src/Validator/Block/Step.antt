-- ===== src/Validator/Block/Step.antt =====
-- One round of the loop over the transactions of a block: its effect on the batch and the flags.
use fabric.Prelude.{
  ℕ, ◌%◌, ◌^◌, ◌≡◌, ◌≢◌, ◌⊎◌, inl, inr, refl, ◌∙◌, Option, none, some, Bool, true, false, List, [],
  ◌∷◌, arith, nat_eq, get_elem?, set, if◌then◌else◌, get_elem?-set_self, get_elem?-set_ne,
}
use fabric.Prelude.Bytes.{Bytes}
use fabric.Prelude.Outcome.{Outcome, ok, err, panic, >>=-eq-ok}
use fabric.StateDb.{UpdateBatch}
use fabric.StateDb.VersionedDb.{VersionedDb}
use fabric.RwSet.{TxRwSet}
use fabric.RwSet.QueryResults.{Hasher}
use fabric.Validator.Combined.Overlay.{overlay}
use fabric.Validator.Mvcc.{valid, mvcc_read_conflict, phantom_read_conflict, validate_tx}
use fabric.Validator.Block.{
  Decoder, add_write_set_to_batch, set_flag, record_result, verdict_of, after_decoding,
  validate_endorser_tx,
}
use fabric.Validator.Block.Serial.{State, run_tx, tx_of, commits, is_type, overlay-add_write_set}

-- Whatever the database answers, a code is one of three.
validate_tx_codes :
    (db : VersionedDb) (hasher : Hasher) (fuel : ℕ) (tx : TxRwSet) (updates : UpdateBatch) (c : ℕ)
    → validate_tx db hasher fuel tx updates ≡ ok c
    → (c ≡ valid) ⊎ ((c ≡ mvcc_read_conflict) ⊎ (c ≡ phantom_read_conflict))
unfolding validate_tx
validate_tx_codes db hasher fuel [] updates c h = inl (ground arith)
validate_tx_codes db hasher fuel (s ∷ rest) updates c h =
    ground (arith, validate_tx_codes db hasher fuel rest updates c)

module _ (db : VersionedDb) (hasher : Hasher) (decoder : Decoder) (fuel : ℕ) (do_mvcc : Bool) where
  open decoder use {channel_header_type, action_results, from_proto_bytes}

  -- Either the transaction is dropped with a code that is not valid, or its set is kept.
  abbrev pub Outcomes : Bytes → Option TxRwSet → ℕ → Type 0
  Outcomes env o code =
      ((o ≡ none) × (nat_eq (code % 2 ^ 8) valid ≡ false))
      ⊎ ((o ≡ some (tx_of decoder env)) × (code ≡ valid))

  verdict_outcomes :
      (tx : TxRwSet) (updates : UpdateBatch) (o : Option TxRwSet) (code : ℕ)
      → verdict_of db hasher decoder fuel do_mvcc tx (validate_tx db hasher fuel tx updates)
        ≡ ok (o, code)
      → ((o ≡ none) × (nat_eq (code % 2 ^ 8) valid ≡ false)) ⊎ ((o ≡ some tx) × (code ≡ valid))
  verdict_outcomes tx updates o code h = go (validate_tx db hasher fuel tx updates) refl h
    where
      go :
          (r : Outcome ℕ)
          → validate_tx db hasher fuel tx updates ≡ r
          → verdict_of db hasher decoder fuel do_mvcc tx r ≡ ok (o, code)
          → ((o ≡ none) × (nat_eq (code % 2 ^ 8) valid ≡ false)) ⊎ ((o ≡ some tx) × (code ≡ valid))
      go (err e) p q = cc
      go panic p q = cc
      go (ok c) p q = ground (arith, validate_tx_codes db hasher fuel tx updates c p)

  pub endorser-Outcomes :
      (env : Bytes) (updates : UpdateBatch) (o : Option TxRwSet) (code : ℕ)
      → validate_endorser_tx db hasher decoder fuel do_mvcc env updates ≡ ok (o, code)
      → Outcomes env o code
  unfolding validate_endorser_tx
  endorser-Outcomes env updates o code h = by_results (action_results env) refl
    where
      by_set :
          (results : Bytes) (r : Outcome TxRwSet)
          → action_results env ≡ ok results
          → from_proto_bytes results ≡ r
          → after_decoding db hasher decoder fuel do_mvcc r updates ≡ ok (o, code)
          → Outcomes env o code
      by_set results (err x) e e' q = ground arith
      by_set results panic e e' q = cc
      by_set results (ok tx) e e' q =
          let same : tx_of decoder env ≡ tx = rw (e, e') in rw same (by_mvcc do_mvcc refl q)
        where
          by_mvcc :
              (m : Bool)
              → do_mvcc ≡ m
              → (if m
                  then verdict_of db hasher decoder fuel do_mvcc tx
                      (validate_tx db hasher fuel tx updates)
                  else ok (some tx, valid))
                ≡ ok (o, code)
              → ((o ≡ none) × (nat_eq (code % 2 ^ 8) valid ≡ false))
                ⊎ ((o ≡ some tx) × (code ≡ valid))
          by_mvcc true _ q = verdict_outcomes tx updates o code q
          by_mvcc false _ q = ground arith

      by_results : (r : Outcome Bytes) → action_results env ≡ r → Outcomes env o code
      by_results (err x) e = ground (arith, h, e)
      by_results panic e = ground (arith, h, e)
      by_results (ok results) e =
          by_set results (from_proto_bytes results) e refl (rw (e, validate_endorser_tx) at h)

  -- The effect of one round: the transaction runs exactly if it ends as a valid endorser
  -- transaction, and no other flag changes.
  pub record Effect (number i : ℕ) (env : Bytes) (updates updates' : UpdateBatch)
      (flags flags' : List ℕ) (s : State) : Type 0 where
    pub runs : overlay s updates' ≡ (
        if commits decoder env (get_elem? flags' i)
        then run_tx
            (tx_of decoder env)
            (record { block_num = number; tx_num = i })
            (overlay s updates)
        else overlay s updates)
    pub keeps : (j : ℕ) → i ≢ j → get_elem? flags' j ≡ get_elem? flags j

  set_twice-keeps :
      (flags : List ℕ) (i a b j : ℕ)
      → i ≢ j
      → get_elem? (set (set flags i a) i b) j ≡ get_elem? flags j
  set_twice-keeps flags i a b j h =
      get_elem?-set_ne (set flags i a) i j b h ∙ get_elem?-set_ne flags i j a h

  pub skipped-Effect :
      (number i : ℕ) (env : Bytes) (updates : UpdateBatch) (flags : List ℕ) (s : State)
      → commits decoder env (get_elem? flags i) ≡ false
      → Effect number i env updates updates flags flags s
  skipped-Effect number i env updates flags s h = record { runs = rw h; keeps = λ j n. refl }

  pub result-Effect :
      (number i : ℕ) (env : Bytes) (updates updates' : UpdateBatch) (flags flags' : List ℕ)
      (s : State) (flag : ℕ) (o : Option TxRwSet) (code : ℕ)
      → get_elem? flags i ≡ some flag
      → is_type decoder (channel_header_type env) ≡ true
      → Outcomes env o code
      → record_result db hasher decoder fuel do_mvcc number i flags updates (o, code)
        ≡ ok (updates', flags')
      → Effect number i env updates updates' flags flags' s
  unfolding record_result set_flag
  result-Effect number i env updates updates' flags flags' s flag none code e t (inr (p, q)) h = cc
  result-Effect number i env updates updates' flags flags' s flag none code e t (inl (p, q)) h =
      let eu : updates' ≡ updates = ground arith in
      let ef : flags' ≡ set flags i (code % 2 ^ 8) = ground arith in
      let no : commits decoder env (get_elem? (set flags i (code % 2 ^ 8)) i) ≡ false =
        rw (get_elem?-set_self flags i flag (code % 2 ^ 8) e, t, q) in
      rw (eu, ef)
        (record { runs = rw no; keeps = λ j n. get_elem?-set_ne flags i j (code % 2 ^ 8) n })
  result-Effect number i env updates updates' flags flags' s flag (some tx) code e t (inl (p, q))
        h =
      cc
  result-Effect number i env updates updates' flags flags' s flag (some tx) code e t (inr (p, q))
        h =
      let (c, added, last) =
        >>=-eq-ok (add_write_set_to_batch tx (record { block_num = number; tx_num = i }) updates) _
          h in
      let eu : updates' ≡ c = cc in
      let ef : flags' ≡ set (set flags i (code % 2 ^ 8)) i 0 = cc in
      let et : tx_of decoder env ≡ tx = cc in
      let yes : commits decoder env (get_elem? (set (set flags i (code % 2 ^ 8)) i 0) i) ≡ true =
        rw (
          get_elem?-set_self (set flags i (code % 2 ^ 8)) i (code % 2 ^ 8) 0
              (get_elem?-set_self flags i flag (code % 2 ^ 8) e),
          t,
        ) in
      rw (eu, ef)
        (record {
          runs =
              rw (yes, et)
                (overlay-add_write_set s tx (record { block_num = number; tx_num = i }) updates c
                  added);
          keeps = λ j n. set_twice-keeps flags i (code % 2 ^ 8) 0 j n;
        })
