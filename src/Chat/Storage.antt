-- ===== src/Chat/Storage.antt =====
-- modules/chat/infrastructure/persistence/repositories: typeorm-conversation.repository.ts and
-- typeorm-message.repository.ts.
use recommendation_trip_plat.Base.{
  ◌*◌, concat_map, ltb, or_else, is_some, length, Method, pure, modify, get, ◌>>=◌, ◌>>◌, or_throw,
  ℕ, String, Bool, not, ◌&&◌, Option, none, some, List, [], ◌∷◌, map, ◌==◌, untyped_error, done,
}
use recommendation_trip_plat.Chat.Entities.{
  as_date, Conversation, ConversationMember, Message, MembershipRow, DirectInboxRow, ReadResult,
  ChatWorld, is_open_conversation, has_direct_key, is_membership, in_conversation, is_unread,
  direct,
}

abbrev pub read_up_to : String → String → ℕ → Option Message → ReadResult
read_up_to conversation_id user_id now none = record {
  conversation_id = conversation_id;
  user_id = user_id;
  last_read_at = as_date now;
  last_read_message_id = none;
}
read_up_to conversation_id user_id now (some m) = record {
  conversation_id = conversation_id;
  user_id = user_id;
  last_read_at = as_date m.created_at;
  last_read_message_id = some m.id;
}

abbrev pub first_row : List MembershipRow → Option MembershipRow
first_row [] = none
first_row (row ∷ rows) = some row

-- The joins of the query, one after another: the rows for a membership of the user, for a
-- conversation of it, and for another member.
abbrev pub joined_row : ConversationMember → Conversation → ConversationMember → MembershipRow
joined_row me c other = record {
  conversation_id = c.id;
  created_at = c.created_at;
  updated_at = c.updated_at;
  other_user_id = other.user_id;
  last_read_at = me.last_read_at;
}

-- `andWhere('conversation.id = :conversationId')`, where one is given.
abbrev pub is_joined : Option String → ConversationMember → Conversation → Bool
is_joined conversation_id me c =
    is_open_conversation me.conversation_id c && (or_else conversation_id c.id == c.id)

module _ {S : Type 0} (world : ChatWorld S) where
  unfoldable pub find_conversation : String → S → Option Conversation
  find_conversation id s = world.conversations.find_one (is_open_conversation id) s

  unfoldable pub find_direct_by_key : String → S → Option Conversation
  find_direct_by_key key s = world.conversations.find_one (has_direct_key key) s

  unfoldable pub is_member : String → String → S → Bool
  is_member conversation_id user_id s =
      ltb 0 (length (world.members.find (is_membership conversation_id user_id) s))

  abbrev pub new_member : String → String → S → S
  new_member conversation_id user_id s =
      world.members.insert
        (record {
          id = world.new_member_id s;
          conversation_id = conversation_id;
          user_id = user_id;
          last_read_message_id = none;
          last_read_at = none;
          deleted_at = none;
        })
        s

  unfoldable pub insert_direct : ℕ → String → String → String → Method S Conversation
  insert_direct now user_id_a user_id_b key s =
      let c : Conversation = record {
        id = world.new_conversation_id s;
        conversation_type = direct;
        direct_key = some key;
        created_at = now;
        updated_at = now;
        deleted_at = none;
      } in
      done c
        (new_member c.id user_id_b (new_member c.id user_id_a (world.conversations.insert c s)))

  abbrev pub insert_or_race : ℕ → String → String → String → Option S → Method S Conversation
  unfolding insert_direct find_direct_by_key
  insert_or_race now a b key none = insert_direct now a b key
  insert_or_race now a b key (some raced) =
      λ _. or_throw (untyped_error "QueryFailedError") (find_direct_by_key key raced) raced

  abbrev pub existing_or_insert :
      ℕ → String → String → String → Option Conversation → Method S Conversation
  unfolding insert_direct find_direct_by_key
  existing_or_insert now a b key (some existing) = pure existing
  existing_or_insert now a b key none = do s ← get; insert_or_race now a b key (world.race key s)

  unfoldable pub find_or_create_direct : ℕ → String → String → String → Method S Conversation
  unfolding insert_direct find_direct_by_key
  find_or_create_direct now a b key = do
    s ← get
    existing_or_insert now a b key (find_direct_by_key key s)

  abbrev pub rows_of_conversation :
      String → S → ConversationMember → Conversation → List MembershipRow
  rows_of_conversation user_id s me c = map (joined_row me c) (
      world.members.find
        (λ m.
          (m.conversation_id == me.conversation_id)
          && not (m.user_id == user_id)
          && not (is_some m.deleted_at))
        s)

  abbrev pub rows_of_membership :
      String → Option String → S → ConversationMember → List MembershipRow
  rows_of_membership user_id conversation_id s me =
      concat_map (rows_of_conversation user_id s me)
        (world.conversations.find (is_joined conversation_id me) s)

  unfoldable pub load_direct_membership_rows : String → Option String → S → List MembershipRow
  load_direct_membership_rows user_id conversation_id s = world.newest_first (
      concat_map (rows_of_membership user_id conversation_id s)
        (world.members.find (λ m. (m.user_id == user_id) && not (is_some m.deleted_at)) s))

  unfoldable pub unread_count : String → String → Option ℕ → S → ℕ
  unread_count user_id conversation_id last_read_at s =
      length (world.messages.find (is_unread conversation_id user_id last_read_at) s)

  unfoldable pub inbox_row : String → S → MembershipRow → DirectInboxRow
  unfolding unread_count
  inbox_row user_id s row = record {
    conversation_id = row.conversation_id;
    created_at = row.created_at;
    updated_at = row.updated_at;
    other_user_id = row.other_user_id;
    last_message = world.latest_message (in_conversation row.conversation_id) s;
    unread_count = unread_count user_id row.conversation_id row.last_read_at s;
  }

  unfoldable pub list_direct_inbox_for_user : String → S → List DirectInboxRow
  unfolding load_direct_membership_rows inbox_row
  list_direct_inbox_for_user user_id s =
      map (inbox_row user_id s) (load_direct_membership_rows user_id none s)

  unfoldable pub find_direct_inbox_row : String → String → S → Option DirectInboxRow
  unfolding load_direct_membership_rows inbox_row
  find_direct_inbox_row conversation_id user_id s =
      elim (first_row (load_direct_membership_rows user_id (some conversation_id) s)) [
        | none ↦ none
        | some row ↦ some (inbox_row user_id s row)
      ]

  abbrev pub target_message : String → Option String → S → Option Message
  target_message conversation_id (some id) s =
      world.messages.find_one (λ m. (m.id == id) && in_conversation conversation_id m) s
  target_message conversation_id none s = world.latest_message (in_conversation conversation_id) s

  abbrev pub save_read : ConversationMember → ReadResult → S → S
  save_read membership result =
      world.members.update (λ m. m.id == membership.id)
        (λ _. record membership {
          last_read_message_id = result.last_read_message_id;
          last_read_at = some result.last_read_at;
        })

  unfoldable pub mark_read : ℕ → String → String → Option String → Method S ReadResult
  mark_read now conversation_id user_id message_id = do
    s ← get
    membership ←
        or_throw (untyped_error "conversation_member_not_found")
          (world.members.find_one (is_membership conversation_id user_id) s)
    let result =
        read_up_to conversation_id user_id now (target_message conversation_id message_id s)
    modify (save_read membership result)
    pure result

  unfoldable pub append : ℕ → String → String → String → Method S Message
  append now conversation_id sender_user_id body s =
      let m : Message = record {
        id = world.new_message_id s;
        conversation_id = conversation_id;
        sender_user_id = sender_user_id;
        body = body;
        created_at = now;
        updated_at = now;
        deleted_at = none;
      } in
      done m (
        world.conversations.update (λ c. c.id == conversation_id)
          (λ c. record c { updated_at = as_date now * 1000 }) (world.messages.insert m s))

  unfoldable pub find_by_id_in_conversation : String → String → S → Option Message
  find_by_id_in_conversation conversation_id id s =
      world.messages.find_one (λ m. (m.id == id) && in_conversation conversation_id m) s
