-- ===== src/Chat/Entities.antt =====
-- The entities and models of modules/chat, what it asks of the database and of its ports, and the
-- tests of its queries. The times in the columns are microseconds, as PostgreSQL keeps them; a `Date`
-- is in milliseconds, and so is what is stored from one.
use recommendation_trip_plat.Base.{
  ◌*◌, ◌/◌, ltb, or_else, is_some, ℕ, String, Bool, true, not, ◌&&◌, Option, none, some, List, ◌==◌,
}
use recommendation_trip_plat.Base.Repository.{Repository}

-- The only type of a conversation is a direct one.
pub data ConversationType : Type 0 where
  direct : ConversationType

pub record Conversation : Type 0 where
  pub id : String
  pub conversation_type : ConversationType
  pub direct_key : Option String
  pub created_at : ℕ
  pub updated_at : ℕ
  pub deleted_at : Option ℕ

pub record ConversationMember : Type 0 where
  pub id : String
  pub conversation_id : String
  pub user_id : String
  pub last_read_message_id : Option String
  pub last_read_at : Option ℕ
  pub deleted_at : Option ℕ

pub record Message : Type 0 where
  pub id : String
  pub conversation_id : String
  pub sender_user_id : String
  pub body : String
  pub created_at : ℕ
  pub updated_at : ℕ
  pub deleted_at : Option ℕ

pub record ChatParticipant : Type 0 where
  pub id : String
  pub display_name : String
  pub avatar_url : Option String

-- A row of the query for the direct conversations of a user.
pub record MembershipRow : Type 0 where
  pub conversation_id : String
  pub created_at : ℕ
  pub updated_at : ℕ
  pub other_user_id : String
  pub last_read_at : Option ℕ

pub record DirectInboxRow : Type 0 where
  pub conversation_id : String
  pub created_at : ℕ
  pub updated_at : ℕ
  pub other_user_id : String
  pub last_message : Option Message
  pub unread_count : ℕ

pub record DirectConversationListItem : Type 0 where
  pub id : String
  pub other_participant : ChatParticipant
  pub last_message : Option Message
  pub unread_count : ℕ
  pub created_at : ℕ
  pub updated_at : ℕ

pub record ReadResult : Type 0 where
  pub conversation_id : String
  pub user_id : String
  pub last_read_at : ℕ
  pub last_read_message_id : Option String

-- What the module asks of the database and of the ports. `race key` is the state after another
-- transaction has inserted the key first, so that an insert violates the index, and none otherwise.
pub record ChatWorld (S : Type 0) : Type 0 where
  pub conversations : Repository S Conversation
  pub members : Repository S ConversationMember
  pub messages : Repository S Message
  pub new_conversation_id : S → String
  pub new_member_id : S → String
  pub new_message_id : S → String
  pub race : String → S → Option S
  -- Of the rows that pass the test, the one with the latest `createdAt`.
  pub latest_message : (Message → Bool) → S → Option Message
  -- `findAndCount`, the latest first, with what to skip and how many to take.
  pub page_of_messages : (Message → Bool) → ℕ → ℕ → S → List Message × ℕ
  pub newest_first : List MembershipRow → List MembershipRow
  pub user_exists : String → S → Bool
  pub find_public_profiles : List String → S → List ChatParticipant
  pub emit_message_new : String → Message → S → S
  pub emit_conversation_read : String → ReadResult → S → S

abbrev pub is_open_conversation : String → Conversation → Bool
is_open_conversation id c = (c.id == id) && not (is_some c.deleted_at)

abbrev pub has_direct_key : String → Conversation → Bool
has_direct_key key c =
    (or_else c.direct_key "" == key) && is_some c.direct_key && not (is_some c.deleted_at)

abbrev pub is_membership : String → String → ConversationMember → Bool
is_membership conversation_id user_id m =
    (m.conversation_id == conversation_id) && (m.user_id == user_id) && not (is_some m.deleted_at)

abbrev pub in_conversation : String → Message → Bool
in_conversation conversation_id m =
    (m.conversation_id == conversation_id) && not (is_some m.deleted_at)

-- The `Date` that a time in a column is read as.
abbrev pub as_date : ℕ → ℕ
as_date time = time / 1000

-- A time in a column after a `Date`.
abbrev pub is_since : Option ℕ → ℕ → Bool
is_since none time = true
is_since (some last_read_at) time = ltb (last_read_at * 1000) time

-- The messages of others that the member has not read.
abbrev pub is_unread : String → String → Option ℕ → Message → Bool
is_unread conversation_id user_id last_read_at m =
    in_conversation conversation_id m
    && not (m.sender_user_id == user_id)
    && is_since last_read_at m.created_at
