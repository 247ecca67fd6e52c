-- ===== src/Chat/Service.antt =====
-- modules/chat/application/services/chat.service.ts.
use recommendation_trip_plat.Base.{
  Result, Method, pure, throw, lift, modify, get, ◌>>=◌, ◌>>◌, reject_if, or_throw, and_then, trim,
  ℕ, ◌-◌, ◌*◌, String, not, Option, none, some, List, [], ◌∷◌, map, ◌==◌, resource_not_found,
  chat_self_direct, chat_not_member, chat_empty_message, untyped_error, ok, err, find_last,
}
use recommendation_trip_plat.Chat.Key.{build_direct_conversation_key}
use recommendation_trip_plat.Chat.Entities.{
  Message, ChatParticipant, DirectInboxRow, DirectConversationListItem, ReadResult, ChatWorld,
  in_conversation,
}
use recommendation_trip_plat.Chat.Storage.{
  find_conversation, is_member, find_or_create_direct, list_direct_inbox_for_user,
  find_direct_inbox_row, mark_read, append, find_by_id_in_conversation,
}

abbrev pub list_item : DirectInboxRow → Option ChatParticipant → Result DirectConversationListItem
list_item row none = err (resource_not_found "user_not_found")
list_item row (some p) = ok (record {
  id = row.conversation_id;
  other_participant = p;
  last_message = row.last_message;
  unread_count = row.unread_count;
  created_at = row.created_at;
  updated_at = row.updated_at;
})

abbrev pub enrich_row : List ChatParticipant → DirectInboxRow → Result DirectConversationListItem
enrich_row profiles row =
    list_item row (find_last (λ (p : ChatParticipant). p.id == row.other_user_id) profiles)

abbrev pub enrich_all :
    List ChatParticipant → List DirectInboxRow → Result (List DirectConversationListItem)
enrich_all profiles [] = ok []
enrich_all profiles (row ∷ rows) =
    and_then (enrich_row profiles row)
      (λ item. and_then (enrich_all profiles rows) (λ items. ok (item ∷ items)))

module _ {S : Type 0} (world : ChatWorld S) where
  unfoldable pub assert_member : String → String → Method S (Unit {0})
  unfolding find_conversation is_member
  assert_member conversation_id user_id = do
    s ← get
    _ ←
        or_throw (resource_not_found "conversation_not_found")
          (find_conversation world conversation_id s)
    reject_if (not (is_member world conversation_id user_id s)) chat_not_member

  unfoldable pub enrich_inbox_rows :
      List DirectInboxRow → Method S (List DirectConversationListItem)
  unfolding find_last
  enrich_inbox_rows rows = do
    s ← get
    lift (
        enrich_all
          (world.find_public_profiles (map (λ (r : DirectInboxRow). r.other_user_id) rows) s) rows)

  unfoldable pub list_my_conversations : String → Method S (List DirectConversationListItem)
  unfolding list_direct_inbox_for_user enrich_inbox_rows
  list_my_conversations user_id = do
    s ← get
    enrich_inbox_rows (list_direct_inbox_for_user world user_id s)

  abbrev pub head : List DirectConversationListItem → Method S DirectConversationListItem
  head [] = throw (untyped_error "TypeError")
  head (item ∷ items) = pure item

  unfoldable pub get_conversation_detail : String → String → Method S DirectConversationListItem
  unfolding assert_member find_direct_inbox_row enrich_inbox_rows
  get_conversation_detail user_id conversation_id = do
    assert_member conversation_id user_id
    s ← get
    row ←
        or_throw (resource_not_found "conversation_not_found")
          (find_direct_inbox_row world conversation_id user_id s)
    items ← enrich_inbox_rows (row ∷ [])
    head items

  unfoldable pub create_or_get_direct_conversation :
      ℕ → String → String → Method S DirectConversationListItem
  unfolding build_direct_conversation_key find_or_create_direct get_conversation_detail
  create_or_get_direct_conversation now user_id other_user_id = do
    reject_if (user_id == other_user_id) chat_self_direct
    s ← get
    reject_if (not (world.user_exists other_user_id s)) (resource_not_found "user_not_found")
    conversation ←
        find_or_create_direct world now user_id other_user_id
          (build_direct_conversation_key user_id other_user_id)
    get_conversation_detail user_id conversation.id

  -- A page starts at 1.
  unfoldable pub list_messages : String → String → ℕ → ℕ → Method S (List Message × ℕ)
  unfolding assert_member
  list_messages user_id conversation_id page limit = do
    assert_member conversation_id user_id
    s ← get
    pure (world.page_of_messages (in_conversation conversation_id) ((page - 1) * limit) limit s)

  unfoldable pub send_message : ℕ → String → String → String → Method S Message
  unfolding assert_member append trim
  send_message now user_id conversation_id body = do
    assert_member conversation_id user_id
    reject_if (trim body == "") chat_empty_message
    message ← append world now conversation_id user_id (trim body)
    modify (world.emit_message_new conversation_id message)
    pure message

  -- `if (command.messageId)`: the message must be there.
  unfoldable pub check_message : String → Option String → Method S (Unit {0})
  unfolding find_by_id_in_conversation
  check_message conversation_id none = pure tt
  check_message conversation_id (some id) = do
    s ← get
    _ ←
        or_throw (resource_not_found "message_not_found")
          (find_by_id_in_conversation world conversation_id id s)
    pure tt

  unfoldable pub mark_conversation_read : ℕ → String → String → Option String → Method S ReadResult
  unfolding assert_member mark_read check_message
  mark_conversation_read now user_id conversation_id message_id = do
    assert_member conversation_id user_id
    check_message conversation_id message_id
    result ← mark_read world now conversation_id user_id message_id
    modify (world.emit_conversation_read conversation_id result)
    pure result
