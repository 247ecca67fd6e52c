-- ===== src/Chat/Unread.antt =====
-- The number of messages that a member has not read.
use recommendation_trip_plat.Base.{
  ◌*◌, ◌/◌, ◌%◌, ltb, refl, ◌&&◌, Option, if◌then◌else◌, Bool-cases, Option-cases, length, filter,
  All, AllPairs, All-filter, All-map, All-zip, after, ℕ, ◌≤◌, String, ◌≡◌, sym, ap, subst, ◌∙◌, inl,
  inr, true, false, not, none, some, arith, ◌==◌, eq_refl, resource_not_found, chat_not_member,
  untyped_error, done, fail,
}
use recommendation_trip_plat.Base.Repository.Laws.{All-test, All-change_rows, All-single, All-empty}
use recommendation_trip_plat.Chat.Entities.{
  ConversationMember, Message, ReadResult, ChatWorld, is_membership, in_conversation, is_unread,
}
use recommendation_trip_plat.Chat.Storage.{
  find_conversation, is_member, unread_count, read_up_to, save_read, mark_read,
}
use recommendation_trip_plat.Chat.Service.{check_message, assert_member, mark_conversation_read}
use recommendation_trip_plat.Chat.Laws.{ChatWorldLaws}

module _ {S : Type 0} (world : ChatWorld S) (laws : ChatWorldLaws world) where
  -- The index of the table of members: a user is in a conversation once.
  unfoldable pub UniqueMembers : S → Type 0
  UniqueMembers s =
      (conversation_id user_id : String)
      → AllPairs
          (λ m n.
            is_membership conversation_id user_id m ≡ true
            → is_membership conversation_id user_id n ≡ false)
          (laws.members.rows s)

  -- What is left unread in the state `t` after everything up to the latest message of `s` was read, at
  -- that `Date`: of others, what was created in the millisecond of the latest message, and that
  -- message itself exactly if it was created later than at the start of the millisecond.
  abbrev pub ReadUpTo : String → String → S → Option ℕ → S → Type 0
  ReadUpTo id user_id s last t =
      (unread_count world user_id id last t
        ≡ length (filter (is_unread id user_id last) (laws.messages.rows t)))
      × All
          (λ n.
            is_unread id user_id last n ≡ true
            → (l : Message) × (world.latest_message (in_conversation id) s ≡ some l)
              × (n.created_at / 1000 ≡ l.created_at / 1000))
          (laws.messages.rows t)
      × ((l : Message)
          → world.latest_message (in_conversation id) s ≡ some l
          → is_unread id user_id last l
            ≡ (not (l.sender_user_id == user_id) && ltb 0 (l.created_at % 1000)))

  last_millisecond : (n l : ℕ) → n ≤ l → ltb (l / 1000 * 1000) n ≡ true → n / 1000 ≡ l / 1000
  last_millisecond n l h k = ground arith

  later_than_start : (n : ℕ) → ltb (n / 1000 * 1000) n ≡ ltb 0 (n % 1000)
  later_than_start n = ground arith

  only_last :
      (id user_id : String) (now : ℕ) (s : S)
      → All
          (λ n.
            is_unread id user_id
                (some
                  (read_up_to id user_id now
                    (world.latest_message (in_conversation id) s)).last_read_at)
                n
              ≡ true
            → (l : Message) × (world.latest_message (in_conversation id) s ≡ some l)
              × (n.created_at / 1000 ≡ l.created_at / 1000))
          (laws.messages.rows s)
  only_last id user_id now s = elim (Option-cases (world.latest_message (in_conversation id) s)) [
    | inl e ↦ rw e (
        All-map (λ n h g. ground arith) (laws.messages.rows s)
          (All-empty (in_conversation id) (laws.messages.rows s)
            (laws.latest_none (in_conversation id) s e)))
    | inr (m, e) ↦ rw e (
        All-map
          (λ n h g. elim (Bool-cases (in_conversation id n)) [
            | inl t ↦
                let since : ltb (m.created_at / 1000 * 1000) n.created_at ≡ true =
                  ground (arith, g) in
                (m, refl, last_millisecond n.created_at m.created_at (h t) since)
            | inr t ↦ ground (arith, g)
          ])
          (laws.messages.rows s) (laws.latest_some (in_conversation id) s m e))
  ]

  abbrev everything_read : String → String → ℕ → S → ReadResult
  everything_read user_id id now s =
      read_up_to id user_id now (world.latest_message (in_conversation id) s)

  -- What a request to read everything has done if it returns.
  read_all_returns :
      (user_id id : String) (now : ℕ) (s t : S) (result : ReadResult)
      → mark_conversation_read world now user_id id none s ≡ done result t
      → (m : ConversationMember) × (world.members.find_one (is_membership id user_id) s ≡ some m)
        × (t
            ≡ world.emit_conversation_read id
                (everything_read user_id id now s)
                (save_read world m (everything_read user_id id now s) s))
  unfolding mark_conversation_read mark_read assert_member check_message
  read_all_returns user_id id now s t result returns =
      elim (Option-cases (find_conversation world id s)) [
        | inl gone ↦
            let q : fail (resource_not_found "conversation_not_found") s ≡ done result t =
              rw gone at returns in
            cc
        | inr (c, there) ↦ elim (Bool-cases (not (is_member world id user_id s))) [
          | inl out ↦
              let q : fail chat_not_member s ≡ done result t = rw out at (rw there at returns) in cc
          | inr member ↦ elim (Option-cases (world.members.find_one (is_membership id user_id) s)) [
            | inl miss ↦
                let q : fail (untyped_error "conversation_member_not_found") s ≡ done result t =
                  rw miss at (rw member at (rw there at returns)) in
                cc
            | inr (m, found) ↦
                let q : done (everything_read user_id id now s) (
                      world.emit_conversation_read id (everything_read user_id id now s)
                        (save_read world m (everything_read user_id id now s) s))
                    ≡ done result t =
                  rw found at (rw member at (rw there at returns)) in
                (m, found, sym (ap after q))
          ]
        ]
      ]

  read_all-ReadUpTo :
      (user_id id : String) (now : ℕ) (s t : S)
      → laws.messages.rows t ≡ laws.messages.rows s
      → ReadUpTo id user_id s (some (everything_read user_id id now s).last_read_at) t
  unfolding unread_count
  read_all-ReadUpTo user_id id now s t same =
      let last : ℕ = (everything_read user_id id now s).last_read_at in
      (
        laws.messages.find_length (is_unread id user_id (some last)) t,
        subst
            (All (λ n.
              is_unread id user_id (some last) n ≡ true
              → (l : Message) × (world.latest_message (in_conversation id) s ≡ some l)
                × (n.created_at / 1000 ≡ l.created_at / 1000)))
            (sym same) (only_last id user_id now s),
        λ l e.
            let here : in_conversation id l ≡ true = laws.latest_test (in_conversation id) s l e in
            rw e (rw here (rw (later_than_start l.created_at) refl)),
      )

  -- A member who marks a conversation as read, up to its latest message, has read what was created
  -- before the millisecond of that message: what the count still counts are messages of others from
  -- that millisecond, and the latest message is one of them exactly if somebody else sent it and it
  -- was not created at the very start of the millisecond, since the time is stored without its
  -- microseconds.
  pub marked_read :
      (user_id id : String) (now : ℕ) (s t : S) (result : ReadResult)
      → UniqueMembers s
      → mark_conversation_read world now user_id id none s ≡ done result t
      → All
          (λ m. is_membership id user_id m ≡ true → ReadUpTo id user_id s m.last_read_at t)
          (laws.members.rows t)
  unfolding UniqueMembers
  marked_read user_id id now s t result unique returns =
      let (m, found, same) = read_all_returns user_id id now s t result returns in
      subst
        (λ z.
          All (λ n. is_membership id user_id n ≡ true → ReadUpTo id user_id s n.last_read_at z)
            (laws.members.rows z))
        (sym same) (cleared m found)
    where
      read : ReadResult
      read = everything_read user_id id now s

      marked : ConversationMember → ConversationMember
      marked m = record m {
        last_read_message_id = read.last_read_message_id;
        last_read_at = some read.last_read_at;
      }

      final : ConversationMember → S
      final m = world.emit_conversation_read id read (save_read world m read s)

      cleared :
          (m : ConversationMember)
          → world.members.find_one (is_membership id user_id) s ≡ some m
          → All
              (λ n.
                is_membership id user_id n ≡ true → ReadUpTo id user_id s n.last_read_at (final m))
              (laws.members.rows (final m))
      cleared m found =
          subst
            (All (λ n.
              is_membership id user_id n ≡ true → ReadUpTo id user_id s n.last_read_at (final m)))
            (sym (
              laws.members_emit_read id read (save_read world m read s)
              ∙ laws.members.rows_update (λ n. n.id == m.id) (λ _. marked m) s))
            (All-change_rows (λ n. is_membership id user_id n ≡ true → n ≡ m)
              (λ n.
                is_membership id user_id n ≡ true → ReadUpTo id user_id s n.last_read_at (final m))
              (λ n. n.id == m.id) (λ _. marked m) (laws.members.rows s) step
              (laws.members.find_one-All
                (λ z. All (λ n. is_membership id user_id n ≡ true → n ≡ z) (laws.members.rows s))
                (is_membership id user_id) s m found
                (All-zip (λ n k t. k t) (filter (is_membership id user_id) (laws.members.rows s))
                  (All-filter _ (is_membership id user_id) (laws.members.rows s) (
                    All-single (is_membership id user_id) (laws.members.rows s)
                      (unique id user_id)))
                  (All-test (is_membership id user_id) (laws.members.rows s)))))
        where
          caught_up : ReadUpTo id user_id s (some read.last_read_at) (final m)
          caught_up = read_all-ReadUpTo user_id id now s (final m) (
              laws.messages_emit_read id read (save_read world m read s)
              ∙ laws.messages_update_member (λ n. n.id == m.id) (λ _. marked m) s)

          step :
              (n : ConversationMember)
              → (is_membership id user_id n ≡ true → n ≡ m)
              → is_membership id user_id (if n.id == m.id then marked m else n) ≡ true
              → ReadUpTo id user_id s (if n.id == m.id then marked m else n).last_read_at (final m)
          step n k = elim (Bool-cases (n.id == m.id)) [
            | inl e ↦ rw e (λ _. caught_up)
            | inr e ↦ rw e (λ h.
                let hit : (n.id == m.id) ≡ true =
                  ap (λ (z : ConversationMember). z.id == m.id) (k h) ∙ eq_refl m.id in
                cc)
          ]
