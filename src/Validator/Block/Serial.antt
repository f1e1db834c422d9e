-- ===== src/Validator/Block/Serial.antt =====
-- The batch that a block prepares has the effect of running the block's valid transactions one after
-- the other.
use mathlib.Core.Path.{fun_ext}
use fabric.Prelude.{
  ℕ, suc, ◌≡◌, ◌∙◌, ap, Option, none, some, Bool, true, false, ◌&&◌, List, [], ◌∷◌, arith, nat_eq,
  get_elem?, if◌then◌else◌,
}
use fabric.Prelude.Bytes.{Bytes, bytes_eq}
use fabric.Prelude.Outcome.{Outcome, ok, ◌>>=◌, >>=-eq-ok}
use fabric.Version.{Height}
use fabric.StateDb.{VersionedValue, UpdateBatch, set_in_ns, put, delete}
use fabric.StateDb.Batch.{get-set_in_ns}
use fabric.RwSet.{KvWrite, TxRwSet}
use fabric.Validator.Combined.Overlay.{overlay}
use fabric.Validator.Combined.Merge.{visible}
use fabric.Validator.Mvcc.{valid}
use fabric.Validator.Block.{
  Decoder, write, add_writes, add_write_set_to_batch, endorser_transaction,
}

abbrev pub State : Type 0
State = Bytes → Bytes → Option VersionedValue

abbrev pub assign : Bytes → Bytes → Option VersionedValue → State → State
assign ns key o s ns' k = if bytes_eq ns ns' && bytes_eq key k then o else s ns' k

-- The value that a write leaves, with the height of its transaction for the version.
abbrev pub written : Height → KvWrite → Option VersionedValue
written height w = if w.is_delete then none else elim w.value [
  | none ↦ none
  | some b ↦ some (record { value = some b; version = some height })
]

unfoldable pub run_writes : Bytes → Height → List KvWrite → State → State
run_writes ns height [] s = s
run_writes ns height (w ∷ ws) s = run_writes ns height ws (assign ns w.key (written height w) s)

unfoldable pub run_tx : TxRwSet → Height → State → State
unfolding run_writes
run_tx [] height s = s
run_tx (n ∷ rest) height s = run_tx rest height (run_writes n.name_space height n.writes s)

overlay-set_in_ns :
    (s : State) (b : UpdateBatch) (ns key : Bytes) (vv : VersionedValue)
    → overlay s (set_in_ns b ns key vv) ≡ assign ns key (visible (some vv)) (overlay s b)
unfolding overlay
overlay-set_in_ns s b ns key vv =
    fun_ext λ ns'. fun_ext λ k. rw (get-set_in_ns b ns key ns' k vv) (ground arith)

overlay-write :
    (s : State) (ns : Bytes) (height : Height) (w : KvWrite) (b b' : UpdateBatch)
    → write ns height w b ≡ ok b'
    → overlay s b' ≡ assign ns w.key (written height w) (overlay s b)
unfolding put delete
overlay-write s ns height w b b' h = by_kind w.is_delete w.value h
  where
    by_kind :
        (del : Bool) (v : Option Bytes)
        → (if del then ok (delete b ns w.key (some height)) else put b ns w.key v (some height))
          ≡ ok b'
        → overlay s b'
          ≡ assign ns w.key
              (if del then none else elim v [
                | none ↦ none
                | some a ↦ some (record { value = some a; version = some height })
              ])
              (overlay s b)
    by_kind true v e =
        let same : b' ≡ set_in_ns b ns w.key (record { value = none; version = some height }) =
          cc in
        ap (overlay s) same ∙ overlay-set_in_ns s b ns w.key _
    by_kind false none e = cc
    by_kind false (some a) e =
        let same : b' ≡ set_in_ns b ns w.key (record { value = some a; version = some height }) =
          cc in
        ap (overlay s) same ∙ overlay-set_in_ns s b ns w.key _

overlay-add_writes :
    (s : State) (ns : Bytes) (height : Height) (ws : List KvWrite) (b b' : UpdateBatch)
    → add_writes ns height ws b ≡ ok b'
    → overlay s b' ≡ run_writes ns height ws (overlay s b)
unfolding add_writes run_writes
overlay-add_writes s ns height [] b b' h = ap (overlay s) (cc)
overlay-add_writes s ns height (w ∷ ws) b b' h =
    let (c, e, e') = >>=-eq-ok (write ns height w b) (add_writes ns height ws) h in
    overlay-add_writes s ns height ws c b' e'
    ∙ ap (run_writes ns height ws) (overlay-write s ns height w b c e)

pub overlay-add_write_set :
    (s : State) (tx : TxRwSet) (height : Height) (b b' : UpdateBatch)
    → add_write_set_to_batch tx height b ≡ ok b'
    → overlay s b' ≡ run_tx tx height (overlay s b)
unfolding add_write_set_to_batch run_tx
overlay-add_write_set s [] height b b' h = ap (overlay s) (cc)
overlay-add_write_set s (n ∷ rest) height b b' h =
    let (c, e, e') =
      >>=-eq-ok (add_writes n.name_space height n.writes b) (add_write_set_to_batch rest height)
        h in
    overlay-add_write_set s rest height c b' e'
    ∙ ap (run_tx rest height) (overlay-add_writes s n.name_space height n.writes b c e)

module _ (decoder : Decoder) where
  open decoder use {channel_header_type, action_results, from_proto_bytes}

  abbrev pub ok_or {ℓ} : {A : Type ℓ} → Outcome A → A → A
  ok_or (ok a) d = a
  ok_or _ d = d

  -- The read-write set of an envelope, and whether it is an endorser transaction.
  abbrev pub tx_of : Bytes → TxRwSet
  tx_of env = ok_or (action_results env >>= from_proto_bytes) []

  abbrev pub is_type : Outcome ℕ → Bool
  is_type (ok t) = nat_eq t endorser_transaction
  is_type _ = false

  abbrev pub is_flag : Option ℕ → Bool
  is_flag (some f) = nat_eq f valid
  is_flag none = false

  abbrev pub commits : Bytes → Option ℕ → Bool
  commits env flag = is_type (channel_header_type env) && is_flag flag

  -- The endorser transactions whose final flag is valid, one after the other.
  unfoldable pub serial : ℕ → ℕ → List Bytes → List ℕ → State → State
  unfolding run_tx
  serial number i [] flags s = s
  serial number i (env ∷ envs) flags s =
      let s' =
        if commits env (get_elem? flags i)
        then run_tx (tx_of env) (record { block_num = number; tx_num = i }) s
        else s in
      serial number (suc i) envs flags s'
