-- ===== src/Orderer/Filter.antt =====
-- The rules that a message passes before it is ordered: orderer/common/filter/filter.go and
-- orderer/common/sizefilter/sizefilter.go.
use fabric.Prelude.{ℕ, ◌+◌, ◌%◌, ◌^◌, Option, none, some, List, [], ◌∷◌, length, ltb, if◌then◌else◌}
use fabric.Prelude.Bytes.{Bytes, codes}
use fabric.Prelude.Outcome.{Outcome, ok, err}

-- The payload may be a nil slice.
pub record Envelope : Type 0 where
  pub payload : Option Bytes
  pub signature : Bytes

pub record BatchSize : Type 0 where
  pub max_message_count : ℕ
  pub absolute_max_bytes : ℕ
  pub preferred_max_bytes : ℕ

pub data Action : Type 0 where
  accept : Action
  reject : Action
  forward : Action

abbrev len : Option Bytes → ℕ
len none = 0
len (some b) = length b

-- `messageSizeBytes` of the block cutter and `messageByteSize` of the size filter, a uint32.
unfoldable pub message_size_bytes : Envelope → ℕ
message_size_bytes m = (len m.payload + length m.signature) % 2 ^ 32

-- A committer is a value of an interface, here of any type; a rule may give none.
abbrev pub Rule : Type 0 → Type 0
Rule C = Envelope → Action × Option C

unfoldable pub empty_reject_rule : (C : Type 0) → Rule C
empty_reject_rule C message = elim message.payload [
  | none ↦ (reject, none)
  | some b ↦ (forward, none)
]

unfoldable pub accept_rule : (C : Type 0) → C → Rule C
accept_rule C noop_committer message = (accept, some noop_committer)

unfoldable pub max_bytes_rule : (C : Type 0) → BatchSize → Rule C
unfolding message_size_bytes
max_bytes_rule C batch_size message =
    if ltb batch_size.absolute_max_bytes (message_size_bytes message)
    then (reject, none)
    else (forward, none)

-- The first rule that accepts or rejects decides.
unfoldable pub apply : (C : Type 0) → List (Rule C) → Envelope → Outcome (Option C)
apply C [] message = err (codes "No matching filter found")
apply C (rule ∷ rules) message =
    let rest = apply C rules message in
    let (action, committer) = rule message in
    elim action [ accept ↦ ok committer | reject ↦ err (codes "Rejected by rule") | forward ↦ rest ]
