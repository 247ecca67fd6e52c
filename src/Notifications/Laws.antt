-- ===== src/Notifications/Laws.antt =====
-- What the dispatch relies on: the laws of the two tables it writes, and that a write of one thing
-- leaves the others.
use recommendation_trip_plat.Base.{String, ◌≡◌, Bool}
use recommendation_trip_plat.Base.Repository.{RepositoryLaws}
use recommendation_trip_plat.Notifications.{
  Notification, NotificationDelivery, NotificationPreference, NotificationWorld, SendEmailJob,
}

pub record NotificationLaws {S : Type 0} (world : NotificationWorld S) : Type 1 where
  pub deliveries : RepositoryLaws world.deliveries
  pub notifications : RepositoryLaws world.notifications
  -- What a dispatch only reads, the preferences and the users.
  pub Settings : Type 0
  pub settings : S → Settings
  pub same_preference :
      (p : NotificationPreference → Bool) (s u : S)
      → settings s ≡ settings u
      → world.preferences.find_one p s ≡ world.preferences.find_one p u
  pub same_email :
      (user_id : String) (s u : S)
      → settings s ≡ settings u
      → world.find_email user_id s ≡ world.find_email user_id u
  pub settings_delivery :
      (d : NotificationDelivery) (s : S) → settings (world.deliveries.insert d s) ≡ settings s
  pub settings_job :
      (job : SendEmailJob) (s : S) → settings (world.enqueue_send_email job s) ≡ settings s
  pub settings_notification :
      (n : Notification) (s : S) → settings (world.notifications.insert n s) ≡ settings s
  pub settings_emit :
      (user_id : String) (n : Notification) (s : S)
      → settings (world.emit_to_user user_id n s) ≡ settings s
  pub deliveries_job :
      (job : SendEmailJob) (s : S)
      → deliveries.rows (world.enqueue_send_email job s) ≡ deliveries.rows s
  pub deliveries_notification :
      (n : Notification) (s : S)
      → deliveries.rows (world.notifications.insert n s) ≡ deliveries.rows s
  pub deliveries_emit :
      (user_id : String) (n : Notification) (s : S)
      → deliveries.rows (world.emit_to_user user_id n s) ≡ deliveries.rows s
  pub notifications_emit :
      (user_id : String) (n : Notification) (s : S)
      → notifications.rows (world.emit_to_user user_id n s) ≡ notifications.rows s
