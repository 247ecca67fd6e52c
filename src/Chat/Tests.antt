-- ===== src/Chat/Tests.antt =====
-- Runs of the chat on tables in memory.
use recommendation_trip_plat.Base.{
  find_last, find?, any, filter, All, Outcome, after, trim, ℕ, String, ◌≡◌, refl, sym, ap, ◌∙◌,
  true, Option, none, some, [], ◌∷◌, arith, ◌==◌, eq_iff, done,
}
use recommendation_trip_plat.Chat.Laws.{start, next, handle_chat, send_request}
use recommendation_trip_plat.Base.Repository.Tables.{table_laws}
use recommendation_trip_plat.Chat.Entities.{
  Conversation, ConversationMember, Message, DirectConversationListItem, ReadResult, is_membership,
  direct,
}
use recommendation_trip_plat.Chat.Storage.{
  find_conversation, find_direct_by_key, is_member, insert_direct, find_or_create_direct,
  load_direct_membership_rows, unread_count, inbox_row, find_direct_inbox_row, mark_read, append,
}
use recommendation_trip_plat.Chat.Service.{
  assert_member, enrich_inbox_rows, get_conversation_detail, create_or_get_direct_conversation,
  send_message, check_message, mark_conversation_read,
}
use recommendation_trip_plat.Chat.Unread.{UniqueMembers, ReadUpTo, marked_read}
use recommendation_trip_plat.Chat.Sending.{Sends, send_message-Sends}
use recommendation_trip_plat.Chat.Sharing.{UniqueKeys}
use recommendation_trip_plat.Chat.Opening.{same_conversation}
use recommendation_trip_plat.Chat.Memory.{Memory, chat, chat_laws}
use recommendation_trip_plat.Chat.Key.{build_direct_conversation_key}

abbrev in_c1 : String → String → Option ℕ → ConversationMember
in_c1 id user_id last = record {
  id = id;
  conversation_id = "c1";
  user_id = user_id;
  last_read_message_id = none;
  last_read_at = last;
  deleted_at = none;
}

abbrev hello : Message
hello = record {
  id = "t1";
  conversation_id = "c1";
  sender_user_id = "u2";
  body = "hello";
  created_at = 5250;
  updated_at = 5250;
  deleted_at = none;
}

abbrev c1 : Conversation
c1 = record {
  id = "c1";
  conversation_type = direct;
  direct_key = some "u1:u2";
  created_at = 1;
  updated_at = 1;
  deleted_at = none;
}

abbrev talking : Memory
talking = record {
  conversations = c1 ∷ [];
  members = in_c1 "m1" "u1" none ∷ in_c1 "m2" "u2" none ∷ [];
  messages = hello ∷ [];
  emitted = 0;
}

send_message-Sends_example :
    Sends chat chat_laws "u1" "c1" " hi " "u2" none talking
      (send_message chat 7 "u1" "c1" " hi " talking)
send_message-Sends_example =
    send_message-Sends chat chat_laws 7 "u1" "c1" " hi " "u2" none talking refl

talking-UniqueMembers : UniqueMembers chat chat_laws talking
unfolding UniqueMembers chat_laws table_laws
talking-UniqueMembers = λ c u. (
  (
    λ e.
        let mine : ("u1" == u) ≡ true = ground arith in
        ap (λ z. is_membership c z (in_c1 "m2" "u2" none)) (sym ((eq_iff "u1" u).0 mine))
        ∙ ground arith,
    tt,
  ),
  (tt, tt),
)

abbrev everything : ReadResult
everything = record {
  conversation_id = "c1";
  user_id = "u1";
  last_read_at = 5;
  last_read_message_id = some "t1";
}

abbrev caught_up : Memory
caught_up = after (mark_conversation_read chat 9 "u1" "c1" none talking)

reads : mark_conversation_read chat 9 "u1" "c1" none talking ≡ done everything caught_up
unfolding mark_conversation_read mark_read check_message assert_member find_conversation is_member
    find? filter
reads = refl

marked_read_example :
    All
      (λ m.
        is_membership "c1" "u1" m ≡ true
        → ReadUpTo chat chat_laws "c1" "u1" talking m.last_read_at caught_up)
      (chat_laws.members.rows caught_up)
marked_read_example =
    marked_read chat chat_laws "u1" "c1" 9 talking caught_up everything talking-UniqueMembers reads

abbrev silent : Memory
silent = record { conversations = []; members = []; messages = []; emitted = 0 }

silent-UniqueKeys : UniqueKeys chat chat_laws silent
unfolding UniqueKeys chat_laws table_laws
silent-UniqueKeys = λ key. tt

abbrev opened : Outcome Memory DirectConversationListItem
opened = create_or_get_direct_conversation chat 3 "u1" "u2" silent

abbrev greeted : Memory
greeted = after (handle_chat chat (send_request "c-new" "hi") 4250 "u1" (after opened))

abbrev reopened : Outcome Memory DirectConversationListItem
reopened = create_or_get_direct_conversation chat 5 "u2" "u1" greeted

abbrev shown_to : String → String → Option Message → ℕ → ℕ → DirectConversationListItem
shown_to user_id name last unread updated_at = record {
  id = "c-new";
  other_participant = record { id = user_id; display_name = name; avatar_url = none };
  last_message = last;
  unread_count = unread;
  created_at = 3;
  updated_at = updated_at;
}

abbrev hi : Message
hi = record {
  id = "t-new";
  conversation_id = "c-new";
  sender_user_id = "u1";
  body = "hi";
  created_at = 4250;
  updated_at = 4250;
  deleted_at = none;
}

opens :
    create_or_get_direct_conversation chat 3 "u1" "u2" silent
    ≡ done (shown_to "u2" "binh" none 0 3) (after opened)
unfolding create_or_get_direct_conversation find_or_create_direct insert_direct find_direct_by_key
    build_direct_conversation_key get_conversation_detail assert_member find_conversation is_member
    find_direct_inbox_row load_direct_membership_rows inbox_row unread_count enrich_inbox_rows find?
    filter any find_last
opens = refl

opens_again :
    create_or_get_direct_conversation chat 5 "u2" "u1" greeted
    ≡ done (shown_to "u1" "an" (some hi) 1 4000) greeted
unfolding handle_chat send_message append trim create_or_get_direct_conversation
    find_or_create_direct insert_direct find_direct_by_key build_direct_conversation_key
    get_conversation_detail assert_member find_conversation is_member find_direct_inbox_row
    load_direct_membership_rows inbox_row unread_count enrich_inbox_rows find? filter any find_last
opens_again = refl

same_conversation_example :
    ((shown_to "u1" "an" (some hi) 1 4000).id ≡ (shown_to "u2" "binh" none 0 3).id)
    × (greeted ≡ greeted)
same_conversation_example =
    same_conversation chat chat_laws "u1" "u2" 3 5 silent (after opened) greeted greeted
      (shown_to "u2" "binh" none 0 3) (shown_to "u1" "an" (some hi) 1 4000) silent-UniqueKeys opens
      (next start (send_request "c-new" "hi") 4250 "u1") opens_again
