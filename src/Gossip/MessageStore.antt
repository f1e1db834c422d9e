-- ===== src/Gossip/MessageStore.antt =====
-- gossip/gossip/msgstore/msgs.go: a buffer of messages in which a new one may replace old ones or be
-- refused because of them. The triggers that are called on a removed message are left out.
pub mod Compatible
use fabric.Prelude.{
  ℕ, zero, suc, ◌+◌, ◌-◌, ◌*◌, Bool, true, false, not, ◌&&◌, ◌||◌, List, [], ◌∷◌, ◌++◌, length, ltb,
  if◌then◌else◌,
}

-- `MessageReplacingPolicy` of gossip/common says this of a new message and an old one.
pub data InvalidationResult : Type 0 where
  message_no_action : InvalidationResult
  message_invalidates : InvalidationResult
  message_invalidated : InvalidationResult

pub record Msg (M : Type 0) : Type 0 where
  pub data_of : M
  pub created : ℕ
  pub expired : Bool

pub record MessageStore (M : Type 0) : Type 0 where
  pub messages : List (Msg M)
  pub expired_count : ℕ

module _ (M : Type 0) (pol : M → M → InvalidationResult) where
  unfoldable pub new_msg_store : MessageStore M
  new_msg_store = record { messages = []; expired_count = 0 }

  -- One turn of the loop of `Add`, with what the turns after it give.
  abbrev replaced :
      InvalidationResult → Msg M → List (Msg M) → List (Msg M) × Bool → List (Msg M) × Bool
  replaced message_invalidated m ms rest = (m ∷ ms, false)
  replaced message_invalidates m ms rest = rest
  replaced message_no_action m ms rest = (m ∷ rest.0, rest.1)

  -- The messages that stay, and whether none refused the new one.
  unfoldable pub replace : M → List (Msg M) → List (Msg M) × Bool
  replace message [] = ([], true)
  replace message (m ∷ ms) = replaced (pol message m.data_of) m ms (replace message ms)

  abbrev with_new : ℕ → M → List (Msg M) × Bool → List (Msg M)
  with_new now message (ms, false) = ms
  with_new now message (ms, true) =
      ms ++ record { data_of = message; created = now; expired = false } ∷ []

  -- Nothing is done to the count of the expired messages.
  unfoldable pub add : ℕ → M → MessageStore M → Bool × MessageStore M
  unfolding replace
  add now message s =
      let r = replace message s.messages in (r.1, record s { messages = with_new now message r })

  unfoldable pub purge_messages : (M → Bool) → List (Msg M) → List (Msg M)
  purge_messages should_be_purged [] = []
  purge_messages should_be_purged (m ∷ ms) =
      let rest = purge_messages should_be_purged ms in
      if should_be_purged m.data_of then rest else m ∷ rest

  unfoldable pub purge : (M → Bool) → MessageStore M → MessageStore M
  unfolding purge_messages
  purge should_be_purged s = record s { messages = purge_messages should_be_purged s.messages }

  abbrev refuses : InvalidationResult → Bool
  refuses message_invalidated = true
  refuses _ = false

  abbrev none_refuses : M → List (Msg M) → Bool
  none_refuses message [] = true
  none_refuses message (m ∷ ms) =
      let rest = none_refuses message ms in if refuses (pol message m.data_of) then false else rest

  unfoldable pub check_valid : M → MessageStore M → Bool
  check_valid message s = none_refuses message s.messages

  -- The int `len(s.messages) - s.expiredCount`, as the two numbers.
  unfoldable pub size : MessageStore M → ℕ × ℕ
  size s = (length s.messages, s.expired_count)

  abbrev unexpired : List (Msg M) → List M
  unexpired [] = []
  unexpired (m ∷ ms) = let rest = unexpired ms in if m.expired then rest else m.data_of ∷ rest

  unfoldable pub get : MessageStore M → List M
  get s = unexpired s.messages

  abbrev with_message : Msg M → MessageStore M → MessageStore M
  with_message m s = record s { messages = m ∷ s.messages }

  -- One turn of the loop of `expireMessages` on a message that has expired or not, and is older than
  -- twice its time or than its time; with what the later turns give.
  abbrev aged :
      Bool → Bool → Bool → Msg M → MessageStore M → MessageStore M → MessageStore M → MessageStore M
  aged true true after m kept marked dropped = dropped
  aged true false after m kept marked dropped = with_message m kept
  aged false twice true m kept marked dropped = with_message (record m { expired = true }) marked
  aged false twice false m kept marked dropped = with_message m kept

  -- A message that has expired was counted, so the count that loses one is not zero.
  unfoldable pub expire : ℕ → ℕ → List (Msg M) → ℕ → MessageStore M
  expire now msg_ttl [] count = record { messages = []; expired_count = count }
  expire now msg_ttl (m ∷ ms) count =
      aged m.expired (ltb (msg_ttl * 2) (now - m.created)) (ltb msg_ttl (now - m.created)) m
        (expire now msg_ttl ms count) (expire now msg_ttl ms (count + 1))
        (expire now msg_ttl ms (count - 1))

  unfoldable pub expire_messages : ℕ → ℕ → MessageStore M → MessageStore M
  unfolding expire
  expire_messages now msg_ttl s = expire now msg_ttl s.messages s.expired_count
