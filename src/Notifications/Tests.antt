-- ===== src/Notifications/Tests.antt =====
-- The dispatch of notices over tables in memory, with a queue and a socket that keep what they get.
use recommendation_trip_plat.Base.{
  if◌then◌else◌, find?, filter, String, ◌≡◌, refl, true, false, Option, none, some, List, [], ◌∷◌,
  ◌++◌, map, ◌==◌,
}
use recommendation_trip_plat.Base.Repository.Tables.{table, table_laws}
use recommendation_trip_plat.Notifications.{
  Generated, Notification, NotificationDelivery, NotificationPreference, NotificationWorld,
  SendEmailJob, place_rejected,
}
use recommendation_trip_plat.Notifications.Dispatch.{notify}
use recommendation_trip_plat.Notifications.Dispatch
use recommendation_trip_plat.Notifications.Laws.{NotificationLaws}
use recommendation_trip_plat.Notifications.Once.{rejected, notify_again}

record Memory : Type 0 where
  deliveries : List NotificationDelivery
  notifications : List Notification
  preferences : List NotificationPreference
  jobs : List SendEmailJob
  emitted : List Notification

abbrev email_of : String → Option String
email_of user = if user == "an" then some "an@example.org" else none

abbrev memory : NotificationWorld Memory
memory = record {
  deliveries = table (λ s. s.deliveries) (λ ds s. record s { deliveries = ds });
  notifications = table (λ s. s.notifications) (λ ns s. record s { notifications = ns });
  preferences = table (λ s. s.preferences) (λ ps s. record s { preferences = ps });
  find_email = λ user s. email_of user;
  enqueue_send_email = λ job s. record s { jobs = s.jobs ++ job ∷ [] };
  emit_to_user = λ user n s. record s { emitted = s.emitted ++ n ∷ [] };
  sha256 = λ text. text;
}

memory_laws : NotificationLaws memory
unfolding table_laws
memory_laws = record {
  deliveries = table_laws (λ s. s.deliveries) (λ ds s. record s { deliveries = ds }) (λ ds s. refl);
  notifications =
      table_laws (λ s. s.notifications) (λ ns s. record s { notifications = ns }) (λ ns s. refl);
  Settings = List NotificationPreference;
  settings = λ s. s.preferences;
  same_preference = λ p s u e i. find? p (e i);
  same_email = λ user s u e. refl;
  settings_delivery = λ d s. refl;
  settings_job = λ job s. refl;
  settings_notification = λ n s. refl;
  settings_emit = λ user n s. refl;
  deliveries_job = λ job s. refl;
  deliveries_notification = λ n s. refl;
  deliveries_emit = λ user n s. refl;
  notifications_emit = λ user n s. refl;
}

abbrev empty_memory : Memory
empty_memory = record {
  deliveries = [];
  notifications = [];
  preferences = [];
  jobs = [];
  emitted = [];
}

abbrev no_mail : NotificationPreference
no_mail = record {
  user_id = "an";
  type = "PLACE_REJECTED";
  email_enabled = false;
  in_app_enabled = true;
  deleted_at = none;
}

abbrev first_row : Generated
first_row = record { delivery_id = "d1"; notification_id = "n1"; now = 1 }

abbrev second_row : Generated
second_row = record { delivery_id = "d2"; notification_id = "n2"; now = 2 }

abbrev sent_once : Memory
sent_once = notify memory (place_rejected "an" "p1" "blurred photo") first_row empty_memory

mail_sent :
    (map (λ (d : NotificationDelivery). d.source_event_id) sent_once.deliveries
      ≡ "place_rejected:p1:an" ∷ [])
    × (map (λ (n : Notification). n.body) sent_once.emitted
        ≡ "Your place (p1) was rejected. Reason: blurred photo" ∷ [])
unfolding notify Dispatch.notify_place_rejected Dispatch.build_source_event_id
    Dispatch.resolve_preference Dispatch.create_delivery_and_enqueue
    Dispatch.create_in_app_notification Dispatch.delivery_exists Dispatch.notification_exists filter
    find?
mail_sent = (refl, refl)

mail_off :
    (notify memory
      (place_rejected "an" "p1" "blurred photo")
      first_row
      (record empty_memory { preferences = no_mail ∷ [] })).jobs
    ≡ []
unfolding notify Dispatch.notify_place_rejected Dispatch.build_source_event_id
    Dispatch.resolve_preference Dispatch.create_delivery_and_enqueue
    Dispatch.create_in_app_notification Dispatch.delivery_exists Dispatch.notification_exists filter
    find?
mail_off = refl

notify_again_example :
    notify memory (place_rejected "an" "p1" "wrong address") second_row sent_once ≡ sent_once
notify_again_example =
    notify_again memory memory_laws (place_rejected "an" "p1" "blurred photo")
      (place_rejected "an" "p1" "wrong address")
      (rejected "an" "p1" "blurred photo" "wrong address") first_row second_row empty_memory
