-- ===== src/Chat/Sharing.antt =====
-- Two users share one conversation, whoever of them opens it and whatever is requested in between.
use recommendation_trip_plat.Base.{
  if◌then◌else◌, Bool-cases, Option-cases, any, All, AllPairs, Outcome, pure, after, reject_if,
  or_throw, Keeps, after-continue, Keeps-reject_if, Keeps-lift, Keeps-or_throw, trim, ℕ, String,
  ◌≡◌, refl, sym, ap, subst, ◌∙◌, inl, inr, true, false, not, Option, none, some, map, ◌==◌,
  resource_not_found, chat_not_member, done, fail, ◌*◌,
}
use recommendation_trip_plat.Chat.Storage.{
  find_conversation, is_member, find_or_create_direct, list_direct_inbox_for_user, save_read,
  mark_read, append, find_by_id_in_conversation,
}
use recommendation_trip_plat.Chat.Entities.{
  as_date, Conversation, ConversationMember, Message, DirectInboxRow, DirectConversationListItem,
  ReadResult, ChatWorld, has_direct_key, is_membership,
}
use recommendation_trip_plat.Chat.Service.{
  enrich_all, assert_member, enrich_inbox_rows, list_my_conversations, get_conversation_detail,
  create_or_get_direct_conversation, list_messages, send_message, check_message,
  mark_conversation_read,
}
use recommendation_trip_plat.Chat.Laws.{
  start, next, ChatWorldLaws, ChatRequest, handle_chat, ChatRequests, create_request, send_request,
  read_request, detail_request, list_request, messages_request,
}
use recommendation_trip_plat.Chat.Keeping.{Shared, same-Shared, find_or_create_direct-Shared}
use recommendation_trip_plat.Base.Repository.{change_rows}
use recommendation_trip_plat.Base.Repository.Laws.{All-change_rows, any-change_rows}
use recommendation_trip_plat.Chat.Key.{build_direct_conversation_key}
use recommendation_trip_plat.Chat.Detail.{Shows, detail-Shows}

module _ {S : Type 0} (world : ChatWorld S) (laws : ChatWorldLaws world) where
  -- The index of the table of conversations: a key is taken once.
  unfoldable pub UniqueKeys : S → Type 0
  UniqueKeys s =
      (key : String)
      → AllPairs (λ c d. has_direct_key key c ≡ true → has_direct_key key d ≡ false)
          (laws.conversations.rows s)

  module _ (key id : String) where
    abbrev Kept : S → Type 0
    Kept s = Shared world laws key id s

    assert_member-Shared :
        (conversation_id user_id : String)
        → Keeps Kept (assert_member world conversation_id user_id)
    unfolding assert_member
    assert_member-Shared conversation_id user_id s h =
        after-continue Kept
          (or_throw (resource_not_found "conversation_not_found")
            (find_conversation world conversation_id s) s)
          (λ _. reject_if (not (is_member world conversation_id user_id s)) chat_not_member)
          (Keeps-or_throw Kept (resource_not_found "conversation_not_found")
            (find_conversation world conversation_id s) s h)
          (λ _.
            Keeps-reject_if Kept (not (is_member world conversation_id user_id s)) chat_not_member)

    detail-Shared :
        (user_id conversation_id : String)
        → Keeps Kept (get_conversation_detail world user_id conversation_id)
    detail-Shared user_id conversation_id s h =
        go (get_conversation_detail world user_id conversation_id s)
          (detail-Shows world laws user_id conversation_id s)
      where
        go :
            (o : Outcome S DirectConversationListItem)
            → Shows world laws conversation_id s o
            → Kept (after o)
        go (done item t) (_, e) = subst Kept (sym e) h
        go (fail e t) same = subst Kept (sym same) h

    create-Shared :
        (now : ℕ) (a b : String) → Keeps Kept (create_or_get_direct_conversation world now a b)
    unfolding create_or_get_direct_conversation
    create-Shared now a b s h = elim (Bool-cases (a == b)) [
      | inl self ↦ rw self h
      | inr e ↦ elim (Bool-cases (not (world.user_exists b s))) [
        | inl gone ↦ rw e (rw gone h)
        | inr there ↦ rw e (
            rw there (
              after-continue Kept
                (find_or_create_direct world now a b (build_direct_conversation_key a b) s)
                (λ c. get_conversation_detail world a c.id)
                (find_or_create_direct-Shared world laws key id now a b
                  (build_direct_conversation_key a b) s h)
                (λ c. detail-Shared a c.id)))
      ]
    ]

    touched-Shared :
        (conversation_id : String) (m : Message) (now : ℕ) (s : S)
        → Kept s
        → Kept (
            world.emit_message_new conversation_id m (
              world.conversations.update
                (λ c. c.id == conversation_id)
                (λ c. record c { updated_at = as_date now * 1000 })
                (world.messages.insert m s)))
    unfolding Shared
    touched-Shared conversation_id m now s (there, only) =
        subst
          (λ rows.
            (any (has_direct_key key) rows ≡ true)
            × All (λ c. has_direct_key key c ≡ true → c.id ≡ id) rows)
          (sym (
            laws.conversations_emit_message conversation_id m _
            ∙ (laws.conversations.rows_update (λ c. c.id == conversation_id)
                  (λ c. record c { updated_at = as_date now * 1000 }) (world.messages.insert m s)
                ∙ ap
                    (change_rows (λ c. c.id == conversation_id)
                      (λ c. record c { updated_at = as_date now * 1000 }))
                    (laws.conversations_insert_message m s))))
          (
            any-change_rows (has_direct_key key) (λ c. c.id == conversation_id)
                  (λ c. record c { updated_at = as_date now * 1000 }) (laws.conversations.rows s)
                  (λ c. refl)
                ∙ there,
            All-change_rows (λ c. has_direct_key key c ≡ true → c.id ≡ id)
                (λ c. has_direct_key key c ≡ true → c.id ≡ id) (λ c. c.id == conversation_id)
                (λ c. record c { updated_at = as_date now * 1000 }) (laws.conversations.rows s) step
                only,
          )
      where
        step :
            (c : Conversation)
            → (has_direct_key key c ≡ true → c.id ≡ id)
            → has_direct_key key (
                if c.id == conversation_id then record c { updated_at = as_date now * 1000 } else c)
              ≡ true
            → (if c.id == conversation_id
                then record c { updated_at = as_date now * 1000 }
                else c).id
              ≡ id
        step c k = elim (Bool-cases (c.id == conversation_id)) [ inl e ↦ rw e k | inr e ↦ rw e k ]

    send-Shared :
        (now : ℕ) (user_id conversation_id body : String)
        → Keeps Kept (send_message world now user_id conversation_id body)
    unfolding send_message append
    send-Shared now user_id conversation_id body s h =
        after-continue Kept (assert_member world conversation_id user_id s) _
          (assert_member-Shared conversation_id user_id s h)
          (λ _ z hz. elim (Bool-cases (trim body == "")) [
            | inl empty ↦ rw empty hz
            | inr text ↦ rw text (touched-Shared conversation_id _ now z hz)
          ])

    read_saved-Shared :
        (conversation_id : String) (m : ConversationMember) (r : ReadResult) (s : S)
        → Kept s
        → Kept (world.emit_conversation_read conversation_id r (save_read world m r s))
    read_saved-Shared conversation_id m r s h =
        same-Shared world laws key id s _
          (laws.conversations_emit_read conversation_id r (save_read world m r s)
            ∙ laws.conversations_update_member (λ n. n.id == m.id) _ s)
          h

    mark_read-Shared :
        (now : ℕ) (user_id conversation_id : String) (message_id : Option String)
        → Keeps Kept (mark_conversation_read world now user_id conversation_id message_id)
    unfolding mark_conversation_read mark_read check_message
    mark_read-Shared now user_id conversation_id message_id s h =
        after-continue Kept (assert_member world conversation_id user_id s) _
          (assert_member-Shared conversation_id user_id s h)
          (λ _ z hz.
            after-continue Kept (check_message world conversation_id message_id z) _
              (checked message_id z hz)
              (λ _ y hy.
                elim (Option-cases
                  (world.members.find_one (is_membership conversation_id user_id) y)) [
                    | inl miss ↦ rw miss hy
                    | inr (m, found) ↦ rw found (read_saved-Shared conversation_id m _ y hy)
                  ]))
      where
        checked : (o : Option String) → Keeps Kept (check_message world conversation_id o)
        checked none z hz = hz
        checked (some m) z hz =
            elim (Option-cases (find_by_id_in_conversation world conversation_id m z)) [
              | inl miss ↦ rw miss hz
              | inr (n, found) ↦ rw found hz
            ]

    handle_chat-Shared :
        (q : ChatRequest) (now : ℕ) (user_id : String)
        → Keeps Kept (handle_chat world q now user_id)
    unfolding handle_chat list_my_conversations enrich_inbox_rows list_messages
    handle_chat-Shared (create_request other) now user_id s h =
        after-continue Kept (create_or_get_direct_conversation world now user_id other s)
          (λ _. pure tt) (create-Shared now user_id other s h) (λ _ z hz. hz)
    handle_chat-Shared (send_request c body) now user_id s h =
        after-continue Kept (send_message world now user_id c body s) (λ _. pure tt)
          (send-Shared now user_id c body s h) (λ _ z hz. hz)
    handle_chat-Shared (read_request c message) now user_id s h =
        after-continue Kept (mark_conversation_read world now user_id c message s) (λ _. pure tt)
          (mark_read-Shared now user_id c message s h) (λ _ z hz. hz)
    handle_chat-Shared (detail_request c) now user_id s h =
        after-continue Kept (get_conversation_detail world user_id c s) (λ _. pure tt)
          (detail-Shared user_id c s h) (λ _ z hz. hz)
    handle_chat-Shared list_request now user_id s h =
        after-continue Kept (list_my_conversations world user_id s) (λ _. pure tt)
          (Keeps-lift Kept
            (enrich_all
              (world.find_public_profiles
                (map (λ (r : DirectInboxRow). r.other_user_id)
                  (list_direct_inbox_for_user world user_id s))
                s)
              (list_direct_inbox_for_user world user_id s))
            s h)
          (λ _ z hz. hz)
    handle_chat-Shared (messages_request c page limit) now user_id s h =
        after-continue Kept (list_messages world user_id c page limit s) (λ _. pure tt)
          (after-continue Kept (assert_member world c user_id s) _
            (assert_member-Shared c user_id s h) (λ _ z hz. hz))
          (λ _ z hz. hz)

    pub requests-Shared : (s t : S) → ChatRequests world s t → Kept s → Kept t
    requests-Shared s _ start h = h
    requests-Shared s _ (next {u} r q now user_id) h =
        handle_chat-Shared q now user_id u (requests-Shared s u r h)
