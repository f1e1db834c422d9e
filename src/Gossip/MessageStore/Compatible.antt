-- ===== src/Gossip/MessageStore/Compatible.antt =====
-- What any calls leave in the store.
use mathlib.Core.Bool.{false≢true}
use fabric.Prelude.{
  ℕ, ◌+◌, ◌-◌, ◌≡◌, refl, Bool, true, false, List, [], ◌∷◌, ◌++◌, All, arith, Bool-cases, inl, inr,
}
use fabric.Gossip.MessageStore.{
  InvalidationResult, message_no_action, message_invalidates, message_invalidated, Msg,
  MessageStore, new_msg_store, replaced, aged, replace, with_new, add, purge_messages, purge,
  none_refuses, check_valid, expire, expire_messages,
}

module _ (M : Type 0) (pol : M → M → InvalidationResult) where
  -- `Add` answers as `CheckValid` does.
  replace-none_refuses :
      (message : M) (ms : List (Msg M))
      → (replace M pol message ms).1 ≡ none_refuses M pol message ms
  unfolding replace
  replace-none_refuses message [] = refl
  replace-none_refuses message (m ∷ ms) = ground (arith, replace-none_refuses message ms)

  -- The new message neither replaces nor is refused by an old one.
  abbrev pub Beside : M → Msg M → Type 0
  Beside message m = pol message m.data_of ≡ message_no_action

  -- Every message is beside each one before it.
  abbrev pub AllBeside : List (Msg M) → Type 0
  AllBeside [] = Unit
  AllBeside (m ∷ ms) = All (λ n. Beside n.data_of m) ms × AllBeside ms

  module _ (P : M → Type 0) where
    abbrev OnData : List (Msg M) → Type 0
    OnData = All (λ m. P m.data_of)

    replace-OnData :
        (message : M) (ms : List (Msg M)) → OnData ms → OnData ((replace M pol message ms).0)
    unfolding replace
    replace-OnData message [] h = tt
    replace-OnData message (m ∷ ms) h =
        by_result (pol message m.data_of) (replace-OnData message ms h.1)
      where
        by_result :
            (o : InvalidationResult)
            → OnData ((replace M pol message ms).0)
            → OnData ((replaced M pol o m ms (replace M pol message ms)).0)
        by_result message_invalidated r = h
        by_result message_invalidates r = r
        by_result message_no_action r = (h.0, r)

    purge_messages-OnData :
        (p : M → Bool) (ms : List (Msg M)) → OnData ms → OnData (purge_messages M pol p ms)
    unfolding purge_messages
    purge_messages-OnData p [] h = tt
    purge_messages-OnData p (m ∷ ms) h = elim (Bool-cases (p m.data_of)) [
      | inl e ↦ rw e (purge_messages-OnData p ms h.1)
      | inr e ↦ rw e (h.0, purge_messages-OnData p ms h.1)
    ]

    expire-OnData :
        (now ttl : ℕ) (ms : List (Msg M)) (count : ℕ)
        → OnData ms
        → OnData ((expire M pol now ttl ms count).messages)
    unfolding expire
    expire-OnData now ttl [] count h = tt
    expire-OnData now ttl (m ∷ ms) count h =
        aged-OnData m.expired _ _ _ _ _ (expire-OnData now ttl ms count h.1)
          (expire-OnData now ttl ms (count + 1) h.1) (expire-OnData now ttl ms (count - 1) h.1)
      where
        aged-OnData :
            (a b c : Bool) (x y z : MessageStore M)
            → OnData x.messages
            → OnData y.messages
            → OnData z.messages
            → OnData ((aged M pol a b c m x y z).messages)
        aged-OnData true true c x y z hx hy hz = hz
        aged-OnData true false c x y z hx hy hz = (h.0, hx)
        aged-OnData false b true x y z hx hy hz = (h.0, hy)
        aged-OnData false b false x y z hx hy hz = (h.0, hx)

  replace-AllBeside :
      (message : M) (ms : List (Msg M)) → AllBeside ms → AllBeside ((replace M pol message ms).0)
  unfolding replace
  replace-AllBeside message [] h = tt
  replace-AllBeside message (m ∷ ms) h =
      by_result (pol message m.data_of) (replace-OnData (λ d. Beside d m) message ms h.0)
        (replace-AllBeside message ms h.1)
    where
      by_result :
          (o : InvalidationResult)
          → All (λ n. Beside n.data_of m) ((replace M pol message ms).0)
          → AllBeside ((replace M pol message ms).0)
          → AllBeside ((replaced M pol o m ms (replace M pol message ms)).0)
      by_result message_invalidated r rs = h
      by_result message_invalidates r rs = rs
      by_result message_no_action r rs = (r, rs)

  replace-Beside :
      (message : M) (ms : List (Msg M))
      → (replace M pol message ms).1 ≡ true
      → All (Beside message) ((replace M pol message ms).0)
  unfolding replace
  replace-Beside message [] e = tt
  replace-Beside message (m ∷ ms) e =
      by_result (pol message m.data_of) refl e (λ f. replace-Beside message ms f)
    where
      by_result :
          (o : InvalidationResult)
          → pol message m.data_of ≡ o
          → (replaced M pol o m ms (replace M pol message ms)).1 ≡ true
          → ((replace M pol message ms).1 ≡ true
              → All (Beside message) ((replace M pol message ms).0))
          → All (Beside message) ((replaced M pol o m ms (replace M pol message ms)).0)
      by_result message_invalidated q f ih = absurd (false≢true f)
      by_result message_invalidates q f ih = ih f
      by_result message_no_action q f ih = (q, ih f)

  AllBeside-snoc :
      (l : List (Msg M)) (n : Msg M)
      → AllBeside l
      → All (Beside n.data_of) l
      → AllBeside (l ++ n ∷ [])
  AllBeside-snoc [] n h b = (tt, tt)
  AllBeside-snoc (m ∷ l) n h b = (last l h.0, AllBeside-snoc l n h.1 b.1)
    where
      last :
          (k : List (Msg M))
          → All (λ x. Beside x.data_of m) k
          → All (λ x. Beside x.data_of m) (k ++ n ∷ [])
      last [] a = (b.0, tt)
      last (x ∷ k) a = (a.0, last k a.1)

  purge_messages-AllBeside :
      (p : M → Bool) (ms : List (Msg M)) → AllBeside ms → AllBeside (purge_messages M pol p ms)
  unfolding purge_messages
  purge_messages-AllBeside p [] h = tt
  purge_messages-AllBeside p (m ∷ ms) h = elim (Bool-cases (p m.data_of)) [
    | inl e ↦ rw e (purge_messages-AllBeside p ms h.1)
    | inr e ↦
        rw e (purge_messages-OnData (λ d. Beside d m) p ms h.0, purge_messages-AllBeside p ms h.1)
  ]

  abbrev Fine : Msg M → MessageStore M → Type 0
  Fine m s = All (λ n. Beside n.data_of m) s.messages × AllBeside s.messages

  expire-AllBeside :
      (now ttl : ℕ) (ms : List (Msg M)) (count : ℕ)
      → AllBeside ms
      → AllBeside ((expire M pol now ttl ms count).messages)
  unfolding expire
  expire-AllBeside now ttl [] count h = tt
  expire-AllBeside now ttl (m ∷ ms) count h =
      aged-AllBeside m.expired _ _ _ _ _ (both count (expire-AllBeside now ttl ms count h.1))
        (both (count + 1) (expire-AllBeside now ttl ms (count + 1) h.1))
        (both (count - 1) (expire-AllBeside now ttl ms (count - 1) h.1))
    where
      both :
          (n : ℕ)
          → AllBeside ((expire M pol now ttl ms n).messages)
          → Fine m (expire M pol now ttl ms n)
      both n a = (expire-OnData (λ d. Beside d m) now ttl ms n h.0, a)

      aged-AllBeside :
          (a b c : Bool) (x y z : MessageStore M)
          → Fine m x
          → Fine m y
          → Fine m z
          → AllBeside ((aged M pol a b c m x y z).messages)
      aged-AllBeside true true c x y z hx hy hz = hz.1
      aged-AllBeside true false c x y z hx hy hz = hx
      aged-AllBeside false b true x y z hx hy hz = hy
      aged-AllBeside false b false x y z hx hy hz = hx

  pub data Call : Type 0 where
    adding : ℕ → M → Call
    purging : (M → Bool) → Call
    expiring : ℕ → ℕ → Call

  unfoldable pub run : MessageStore M → List Call → MessageStore M
  unfolding add purge expire_messages
  run s [] = s
  run s (adding now message ∷ calls) = run ((add M pol now message s).1) calls
  run s (purging p ∷ calls) = run (purge M pol p s) calls
  run s (expiring now ttl ∷ calls) = run (expire_messages M pol now ttl s) calls

  add-AllBeside :
      (now : ℕ) (message : M) (s : MessageStore M)
      → AllBeside s.messages
      → AllBeside ((add M pol now message s).1.messages)
  unfolding add
  add-AllBeside now message s h =
      by_answer (replace M pol message s.messages) (replace-AllBeside message s.messages h)
        (replace-Beside message s.messages)
    where
      by_answer :
          (r : List (Msg M) × Bool)
          → AllBeside r.0
          → (r.1 ≡ true → All (Beside message) r.0)
          → AllBeside (with_new M pol now message r)
      by_answer (l, true) a b = AllBeside-snoc l _ a (b refl)
      by_answer (l, false) a b = a

  -- After any calls on a new store no message replaces or is refused by one that was stored before
  -- it, and whether the next message is added is what `CheckValid` says.
  pub run-AllBeside :
      (calls : List Call) (now : ℕ) (message : M)
      → AllBeside ((run (new_msg_store M pol) calls).messages)
        × ((add M pol now message (run (new_msg_store M pol) calls)).0
            ≡ check_valid M pol message (run (new_msg_store M pol) calls))
  unfolding new_msg_store add check_valid run purge expire_messages
  run-AllBeside calls now message = (
    from calls (new_msg_store M pol) tt,
    replace-none_refuses message (run (new_msg_store M pol) calls).messages,
  )
    where
      from :
          (cs : List Call) (s : MessageStore M)
          → AllBeside s.messages
          → AllBeside ((run s cs).messages)
      from [] s h = h
      from (adding n x ∷ cs) s h = from cs _ (add-AllBeside n x s h)
      from (purging p ∷ cs) s h = from cs _ (purge_messages-AllBeside p s.messages h)
      from (expiring n ttl ∷ cs) s h =
          from cs _ (expire-AllBeside n ttl s.messages s.expired_count h)
