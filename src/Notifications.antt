-- ===== src/Notifications.antt =====
-- modules/notification: what the dispatch of a notice reads and writes. The texts that the
-- constants stand for are written out.
pub mod Dispatch
pub mod Laws
pub mod Once
pub mod Tests
use recommendation_trip_plat.Base.{
  ltb, leb, eqb, if◌then◌else◌, or_else, is_some, ltb→lt, lt→ltb, leb→le, eqb_iff, Bool-cases,
  Option-cases, length, find?, any, filter, update_first, distinct, find_last, concat_map, All,
  AllPairs, All-every, All-append, All-append_left, All-filter, All-update_first, find?-All,
  All-update_found, All-map, All-zip, any-false, find?-none, find?-test, AllPairs-push,
  AllPairs-filter, AllPairs-update_first, AllPairs-update_first_same, AllPairs-map, AllPairs-key,
  update_first-update_first, update_first-found, find?-update_first, length-filter,
  filter-same_length, filter-push, length-push, AppError, Result, Outcome, Method, pure, throw,
  lift, after, modify, get, continue, ◌>>=◌, ◌>>◌, reject_if, or_throw, and_then, when, Keeps,
  Keeps-bind, after-continue, Keeps-reject_if, Keeps-lift, Keeps-or_throw, Result-cases,
  is_white_space, trim_start, put_before, trim_end, trim, is_empty, ℕ, zero, suc, ◌+◌, ◌-◌, ◌*◌,
  ◌/◌, ◌%◌, ◌≤◌, ◌<◌, String, ◌≡◌, refl, sym, ap, subst, ◌∙◌, ◌≢◌, ◌↔◌, ◌⊎◌, inl, inr, Bool, true,
  false, not, ◌&&◌, ◌||◌, Option, none, some, List, [], ◌∷◌, ◌++◌, map, arith, ◌==◌, eq_iff,
  eq_refl, resource_not_found, invalid_time_slot, invalid_trip_date_range,
  trip_invalid_state_transition, trip_confirm_empty, trip_item_date_out_of_range,
  trip_item_time_overlap, trip_place_destination_mismatch, trip_terminal_state_mutation,
  invalid_workflow, place_ownership, place_deleted, place_not_deleted, review_forbidden,
  chat_self_direct, chat_not_member, chat_empty_message, untyped_error,
  registration_request_invalid_state, forbidden, bad_request, unauthorized, conflict,
  too_many_nearby_requests, ok, err, done, fail,
}
use recommendation_trip_plat.Base.Repository.{Repository}

-- application/commands.
pub data Command : Type 0 where
  place_approved : (actor_user_id place_id : String) → Command
  place_rejected : (actor_user_id place_id reason : String) → Command
  place_request_submitted :
      (recipient_user_id request_id place_name requester_user_id : String) → Command

pub data Payload : Type 0 where
  approved_payload : (to place_id : String) → Payload
  rejected_payload : (to place_id reason : String) → Payload
  submitted_payload : (to request_id place_name requester_user_id : String) → Payload

abbrev pub recipient_of : Payload → String
recipient_of (approved_payload to _) = to
recipient_of (rejected_payload to _ _) = to
recipient_of (submitted_payload to _ _ _) = to

pub data NotificationStatus : Type 0 where
  pending sent failed dead_letter : NotificationStatus

pub record NotificationDelivery : Type 0 where
  pub id : String
  pub source_event_id : String
  pub channel : String
  pub template_code : String
  pub recipient : String
  pub payload : Payload
  pub status : NotificationStatus
  pub attempts : ℕ
  pub last_error : Option String
  pub sent_at : Option ℕ
  pub deleted_at : Option ℕ

pub record Notification : Type 0 where
  pub id : String
  pub source_event_id : String
  pub recipient_user_id : String
  pub type : String
  pub title : String
  pub body : String
  -- The fields of the object, by their names.
  pub data_fields : List (String × String)
  pub is_read : Bool
  pub read_at : Option ℕ
  pub created_at : ℕ
  pub updated_at : ℕ
  pub deleted_at : Option ℕ

pub record NotificationPreference : Type 0 where
  pub user_id : String
  pub type : String
  pub email_enabled : Bool
  pub in_app_enabled : Bool
  pub deleted_at : Option ℕ

pub record SendEmailJob : Type 0 where
  pub delivery_id : String
  pub template_code : String
  pub payload : Payload

-- The tables, the users, the queue, the sockets and the digest of the library.
pub record NotificationWorld (S : Type 0) : Type 0 where
  pub deliveries : Repository S NotificationDelivery
  pub notifications : Repository S Notification
  pub preferences : Repository S NotificationPreference
  pub find_email : String → S → Option String
  pub enqueue_send_email : SendEmailJob → S → S
  pub emit_to_user : String → Notification → S → S
  pub sha256 : String → String

-- What the database and the clock give to the rows that a dispatch creates.
pub record Generated : Type 0 where
  pub delivery_id : String
  pub notification_id : String
  pub now : ℕ
