-- ===== src/Notifications/Dispatch.antt =====
-- application/services/notification-dispatch.service.ts, with the repositories it calls. The notice
-- of a registration's mail is left out.
use recommendation_trip_plat.Base.{
  ltb, if◌then◌else◌, is_some, length, is_empty, ℕ, String, Bool, true, false, not, ◌&&◌, Option,
  none, some, List, [], ◌∷◌, ◌==◌,
}
use recommendation_trip_plat.Notifications.{
  Command, Payload, recipient_of, NotificationDelivery, Notification, NotificationPreference,
  NotificationWorld, Generated, place_approved, place_rejected, place_request_submitted,
  approved_payload, rejected_payload, submitted_payload, pending,
}
use Prim.Native.String as Text

-- `parts.join(separator)`.
abbrev pub join : String → List String → String
join separator [] = ""
join separator (part ∷ []) = part
join separator (part ∷ q ∷ parts) =
    Text.◌++◌ part (Text.◌++◌ separator (join separator (q ∷ parts)))

-- The rows of a query: TypeORM leaves out those that are marked as deleted.
abbrev pub is_delivery_of : String → NotificationDelivery → Bool
is_delivery_of event d = d.source_event_id == event && not (is_some d.deleted_at)

abbrev pub is_notification_of : String → Notification → Bool
is_notification_of event n = n.source_event_id == event && not (is_some n.deleted_at)

abbrev pub is_preference_of : String → String → NotificationPreference → Bool
is_preference_of user_id type p =
    p.user_id == user_id && (p.type == type && not (is_some p.deleted_at))

abbrev pub new_delivery : String → String → String → Payload → NotificationDelivery
new_delivery id event template_code payload = record {
  id = id;
  source_event_id = event;
  channel = "EMAIL";
  template_code = template_code;
  recipient = recipient_of payload;
  payload = payload;
  status = pending;
  attempts = 0;
  last_error = none;
  sent_at = none;
  deleted_at = none;
}

pub record InAppNotification : Type 0 where
  pub source_event_id : String
  pub recipient_user_id : String
  pub type : String
  pub title : String
  pub body : String
  pub data_fields : List (String × String)

abbrev pub approved_notification : String → String → String → InAppNotification
approved_notification event actor_user_id place_id = record {
  source_event_id = event;
  recipient_user_id = actor_user_id;
  type = "PLACE_APPROVED";
  title = "Place approved";
  body =
      join ""
        ("Your place (" ∷ place_id ∷ ") has been approved and is now visible on catalog." ∷ []);
  data_fields = ("placeId", place_id) ∷ [];
}

abbrev pub rejected_notification : String → String → String → String → InAppNotification
rejected_notification event actor_user_id place_id reason = record {
  source_event_id = event;
  recipient_user_id = actor_user_id;
  type = "PLACE_REJECTED";
  title = "Place rejected";
  body = join "" ("Your place (" ∷ place_id ∷ ") was rejected. Reason: " ∷ reason ∷ []);
  data_fields = ("placeId", place_id) ∷ ("reason", reason) ∷ [];
}

abbrev pub submitted_notification : String → String → String → String → String → InAppNotification
submitted_notification event recipient_user_id request_id place_name requester_user_id = record {
  source_event_id = event;
  recipient_user_id = recipient_user_id;
  type = "PLACE_REQUEST_SUBMITTED";
  title = "New place request submitted";
  body =
      join "" (
        "A new place request \"" ∷ place_name ∷ "\" has been submitted and needs moderation." ∷ []);
  data_fields = ("requestId", request_id) ∷ ("requesterUserId", requester_user_id) ∷ [];
}

abbrev pub new_notification : String → ℕ → InAppNotification → Notification
new_notification id now input = record {
  id = id;
  source_event_id = input.source_event_id;
  recipient_user_id = input.recipient_user_id;
  type = input.type;
  title = input.title;
  body = input.body;
  data_fields = input.data_fields;
  is_read = false;
  read_at = none;
  created_at = now;
  updated_at = now;
  deleted_at = none;
}

abbrev pub default_preference :
    String → String → Option NotificationPreference → NotificationPreference
default_preference user_id type none = record {
  user_id = user_id;
  type = type;
  email_enabled = true;
  in_app_enabled = true;
  deleted_at = none;
}
default_preference user_id type (some p) = p

-- `if (!email) return;`
abbrev pub with_email : {S : Type 0} → Option String → (String → S → S) → S → S
with_email none f s = s
with_email (some email) f s = if is_empty email then s else f email s

-- `if (enabled) f()`
abbrev pub if_enabled : {S : Type 0} → Bool → (S → S) → S → S
if_enabled true f s = f s
if_enabled false f s = s

module _ {S : Type 0} (world : NotificationWorld S) where
  unfoldable pub build_source_event_id : String → List String → String
  build_source_event_id prefix parts =
      Text.◌++◌ prefix (Text.◌++◌ ":" (world.sha256 (join ":" parts)))

  unfoldable pub delivery_exists : String → S → Bool
  delivery_exists event s = ltb 0 (length (world.deliveries.find (is_delivery_of event) s))

  unfoldable pub notification_exists : String → S → Bool
  notification_exists event s =
      ltb 0 (length (world.notifications.find (is_notification_of event) s))

  unfoldable pub resolve_preference : String → String → S → NotificationPreference
  resolve_preference user_id type s =
      default_preference user_id type (world.preferences.find_one (is_preference_of user_id type) s)

  unfoldable pub create_delivery_and_enqueue : String → String → String → Payload → S → S
  unfolding delivery_exists
  create_delivery_and_enqueue id event template_code payload s =
      if delivery_exists event s
      then s
      else world.enqueue_send_email
          (record { delivery_id = id; template_code = template_code; payload = payload })
          (world.deliveries.insert (new_delivery id event template_code payload) s)

  unfoldable pub create_in_app_notification : String → ℕ → InAppNotification → S → S
  unfolding notification_exists
  create_in_app_notification id now input s =
      if notification_exists input.source_event_id s
      then s
      else world.emit_to_user input.recipient_user_id (new_notification id now input)
          (world.notifications.insert (new_notification id now input) s)

  unfoldable pub notify_place_approved : Generated → String → String → S → S
  notify_place_approved g actor_user_id place_id s =
      with_email (world.find_email actor_user_id s)
        (λ email t.
          let event = build_source_event_id "place_approved" (place_id ∷ actor_user_id ∷ []) in
          let preference = resolve_preference actor_user_id "PLACE_APPROVED" t in
          if_enabled preference.in_app_enabled
            (create_in_app_notification g.notification_id g.now
              (approved_notification event actor_user_id place_id))
            (if_enabled preference.email_enabled
              (create_delivery_and_enqueue g.delivery_id event "PLACE_APPROVED"
                (approved_payload email place_id))
              t))
        s

  unfoldable pub notify_place_rejected : Generated → String → String → String → S → S
  notify_place_rejected g actor_user_id place_id reason s =
      with_email (world.find_email actor_user_id s)
        (λ email t.
          let event = build_source_event_id "place_rejected" (place_id ∷ actor_user_id ∷ []) in
          let preference = resolve_preference actor_user_id "PLACE_REJECTED" t in
          if_enabled preference.in_app_enabled
            (create_in_app_notification g.notification_id g.now
              (rejected_notification event actor_user_id place_id reason))
            (if_enabled preference.email_enabled
              (create_delivery_and_enqueue g.delivery_id event "PLACE_REJECTED"
                (rejected_payload email place_id reason))
              t))
        s

  unfoldable pub notify_place_request_submitted :
      Generated → String → String → String → String → S → S
  notify_place_request_submitted g recipient_user_id request_id place_name requester_user_id s =
      with_email (world.find_email recipient_user_id s)
        (λ email t.
          let event =
            build_source_event_id "place_request_submitted" (request_id ∷ recipient_user_id ∷ []) in
          create_in_app_notification g.notification_id g.now
            (submitted_notification event recipient_user_id request_id place_name requester_user_id)
            (create_delivery_and_enqueue g.delivery_id event "PLACE_REQUEST_SUBMITTED"
              (submitted_payload email request_id place_name requester_user_id) t))
        s

  unfoldable pub notify : Command → Generated → S → S
  notify (place_approved actor place) g = notify_place_approved g actor place
  notify (place_rejected actor place reason) g = notify_place_rejected g actor place reason
  notify (place_request_submitted recipient request name requester) g =
      notify_place_request_submitted g recipient request name requester
