-- ===== src/Chat/Laws.antt =====
-- What the proofs on the chat assume of the database and of the ports, and the requests.
use recommendation_trip_plat.Base.{
  filter, All, Method, pure, after, ◌>>◌, ℕ, ◌≤◌, String, ◌≡◌, Bool, true, Option, none, some, List,
  [], ◌∷◌, ◌++◌,
}
use recommendation_trip_plat.Base.Repository.{RepositoryLaws}
use recommendation_trip_plat.Chat.Entities.{
  Conversation, ConversationMember, Message, MembershipRow, ReadResult, ChatWorld, has_direct_key,
}
use recommendation_trip_plat.Chat.Service.{
  list_my_conversations, get_conversation_detail, create_or_get_direct_conversation, list_messages,
  send_message, mark_conversation_read,
}

-- The tables are apart, and messages to the clients change none. Another transaction that has inserted
-- a key first has added its conversation and its members and nothing else.
pub record ChatWorldLaws {S : Type 0} (world : ChatWorld S) : Type 1 where
  pub conversations : RepositoryLaws world.conversations
  pub members : RepositoryLaws world.members
  pub messages : RepositoryLaws world.messages
  pub latest_some :
      (p : Message → Bool) (s : S) (m : Message)
      → world.latest_message p s ≡ some m
      → All (λ n. p n ≡ true → n.created_at ≤ m.created_at) (messages.rows s)
  pub latest_test :
      (p : Message → Bool) (s : S) (m : Message) → world.latest_message p s ≡ some m → p m ≡ true
  pub latest_none :
      (p : Message → Bool) (s : S)
      → world.latest_message p s ≡ none
      → filter p (messages.rows s) ≡ []
  pub newest-All :
      (P : MembershipRow → Type 0) (rows : List MembershipRow)
      → All P rows
      → All P (world.newest_first rows)
  pub raced :
      (key : String) (s t : S)
      → world.race key s ≡ some t
      → (c : Conversation) × (conversations.rows t ≡ conversations.rows s ++ c ∷ [])
        × (has_direct_key key c ≡ true)
  pub conversations_insert_member :
      (r : ConversationMember) (s : S)
      → conversations.rows (world.members.insert r s) ≡ conversations.rows s
  pub conversations_update_member :
      (p : ConversationMember → Bool) (f : ConversationMember → ConversationMember) (s : S)
      → conversations.rows (world.members.update p f s) ≡ conversations.rows s
  pub conversations_insert_message :
      (r : Message) (s : S) → conversations.rows (world.messages.insert r s) ≡ conversations.rows s
  pub conversations_emit_message :
      (id : String) (m : Message) (s : S)
      → conversations.rows (world.emit_message_new id m s) ≡ conversations.rows s
  pub conversations_emit_read :
      (id : String) (r : ReadResult) (s : S)
      → conversations.rows (world.emit_conversation_read id r s) ≡ conversations.rows s
  pub members_insert_message :
      (r : Message) (s : S) → members.rows (world.messages.insert r s) ≡ members.rows s
  pub members_update_conversation :
      (p : Conversation → Bool) (f : Conversation → Conversation) (s : S)
      → members.rows (world.conversations.update p f s) ≡ members.rows s
  pub members_emit_message :
      (id : String) (m : Message) (s : S)
      → members.rows (world.emit_message_new id m s) ≡ members.rows s
  pub members_emit_read :
      (id : String) (r : ReadResult) (s : S)
      → members.rows (world.emit_conversation_read id r s) ≡ members.rows s
  pub messages_update_member :
      (p : ConversationMember → Bool) (f : ConversationMember → ConversationMember) (s : S)
      → messages.rows (world.members.update p f s) ≡ messages.rows s
  pub messages_update_conversation :
      (p : Conversation → Bool) (f : Conversation → Conversation) (s : S)
      → messages.rows (world.conversations.update p f s) ≡ messages.rows s
  pub messages_emit_message :
      (id : String) (m : Message) (s : S)
      → messages.rows (world.emit_message_new id m s) ≡ messages.rows s
  pub messages_emit_read :
      (id : String) (r : ReadResult) (s : S)
      → messages.rows (world.emit_conversation_read id r s) ≡ messages.rows s

pub data ChatRequest : Type 0 where
  create_request : String → ChatRequest
  send_request : String → String → ChatRequest
  read_request : String → Option String → ChatRequest
  detail_request : String → ChatRequest
  list_request : ChatRequest
  messages_request : String → ℕ → ℕ → ChatRequest

module _ {S : Type 0} (world : ChatWorld S) where
  abbrev pub forget : {A : Type 0} → Method S A → Method S (Unit {0})
  forget m = m >> pure tt

  unfoldable pub handle_chat : ChatRequest → ℕ → String → Method S (Unit {0})
  unfolding create_or_get_direct_conversation send_message mark_conversation_read
      get_conversation_detail list_my_conversations list_messages
  handle_chat (create_request other) now user_id =
      forget (create_or_get_direct_conversation world now user_id other)
  handle_chat (send_request id body) now user_id = forget (send_message world now user_id id body)
  handle_chat (read_request id message) now user_id =
      forget (mark_conversation_read world now user_id id message)
  handle_chat (detail_request id) now user_id = forget (get_conversation_detail world user_id id)
  handle_chat list_request now user_id = forget (list_my_conversations world user_id)
  handle_chat (messages_request id page limit) now user_id =
      forget (list_messages world user_id id page limit)

  pub data ChatRequests (s : S) : S → Type 0 where
    start : ChatRequests s s
    next :
        {u : S}
        → ChatRequests s u
        → (q : ChatRequest) (now : ℕ) (user_id : String)
        → ChatRequests s (after (handle_chat q now user_id u))
