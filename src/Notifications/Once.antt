-- ===== src/Notifications/Once.antt =====
-- A notice of one event is dispatched once, whatever its text.
use recommendation_trip_plat.Base.{
  [], ◌∷◌, false, ap, sym, some, is_empty, Option-cases, ltb, Bool-cases, length, filter, ℕ, String,
  ◌≡◌, refl, ◌∙◌, inl, inr, Bool, true, List, ◌++◌, arith, eq_refl,
}
use recommendation_trip_plat.Notifications.Dispatch.{
  approved_notification, rejected_notification, submitted_notification, build_source_event_id,
  notify_place_request_submitted, is_preference_of, notify_place_rejected, default_preference,
  notify_place_approved, notify, resolve_preference, if_enabled, with_email, is_delivery_of,
  is_notification_of, new_delivery, InAppNotification, new_notification, delivery_exists,
  notification_exists, create_delivery_and_enqueue, create_in_app_notification,
}
use recommendation_trip_plat.Notifications.{
  approved_payload, rejected_payload, submitted_payload, NotificationPreference, Generated, Command,
  Payload, NotificationWorld, place_approved, place_rejected, place_request_submitted,
}
use recommendation_trip_plat.Notifications.Laws.{NotificationLaws}

module _ {A : Type 0} where
  length-filter_push :
      (p : A → Bool) (xs : List A) (x : A)
      → p x ≡ true
      → ltb 0 (length (filter p (xs ++ x ∷ []))) ≡ true
  unfolding filter
  length-filter_push p [] x h = rw h refl
  length-filter_push p (y ∷ ys) x h = elim (Bool-cases (p y)) [
    | inl e ↦ rw e (ground arith)
    | inr e ↦ rw e (length-filter_push p ys x h)
  ]

-- Two notices that stand for one event: the reason, the name of the place and the requester may
-- differ.
pub data SameEvent : Command → Command → Type 0 where
  approved :
      (actor place : String) → SameEvent (place_approved actor place) (place_approved actor place)
  rejected :
      (actor place reason other_reason : String)
      → SameEvent (place_rejected actor place reason) (place_rejected actor place other_reason)
  submitted :
      (recipient request name other_name requester other_requester : String)
      → SameEvent
          (place_request_submitted recipient request name requester)
          (place_request_submitted recipient request other_name other_requester)

module _ {S : Type 0} (world : NotificationWorld S) (laws : NotificationLaws world) where
  delivery-by_rows :
      (event : String) (s : S)
      → delivery_exists world event s
        ≡ ltb 0 (length (filter (is_delivery_of event) (laws.deliveries.rows s)))
  unfolding delivery_exists
  delivery-by_rows event s = ap (ltb 0) (laws.deliveries.find_length (is_delivery_of event) s)

  notification-by_rows :
      (event : String) (s : S)
      → notification_exists world event s
        ≡ ltb 0 (length (filter (is_notification_of event) (laws.notifications.rows s)))
  unfolding notification_exists
  notification-by_rows event s =
      ap (ltb 0) (laws.notifications.find_length (is_notification_of event) s)

  module _ (id event template_code : String) (payload : Payload) (s : S) where
    delivery_made :
        delivery_exists world event
          (create_delivery_and_enqueue world id event template_code payload s)
        ≡ true
    unfolding create_delivery_and_enqueue
    delivery_made = elim (Bool-cases (delivery_exists world event s)) [
      | inl e ↦ rw e e
      | inr e ↦ rw e (
          delivery-by_rows event _
          ∙ ap (λ ds. ltb 0 (length (filter (is_delivery_of event) ds)))
              (laws.deliveries_job _ _ ∙ laws.deliveries.rows_insert _ s)
          ∙ length-filter_push (is_delivery_of event) (laws.deliveries.rows s)
              (new_delivery id event template_code payload) (ground (arith, eq_refl event)))
    ]

    delivery_once :
        delivery_exists world event s ≡ true
        → create_delivery_and_enqueue world id event template_code payload s ≡ s
    unfolding create_delivery_and_enqueue
    delivery_once e = rw e refl

    delivery-settings :
        laws.settings (create_delivery_and_enqueue world id event template_code payload s)
        ≡ laws.settings s
    unfolding create_delivery_and_enqueue
    delivery-settings = elim (Bool-cases (delivery_exists world event s)) [
      | inl e ↦ rw e refl
      | inr e ↦ rw e (laws.settings_job _ _ ∙ laws.settings_delivery _ s)
    ]

  module _ (id : String) (now : ℕ) (input : InAppNotification) (s : S) where
    notification_made :
        notification_exists world input.source_event_id
          (create_in_app_notification world id now input s)
        ≡ true
    unfolding create_in_app_notification
    notification_made = elim (Bool-cases (notification_exists world input.source_event_id s)) [
      | inl e ↦ rw e e
      | inr e ↦ rw e (
          notification-by_rows input.source_event_id _
          ∙ ap (λ ns. ltb 0 (length (filter (is_notification_of input.source_event_id) ns)))
              (laws.notifications_emit _ _ _ ∙ laws.notifications.rows_insert _ s)
          ∙ length-filter_push (is_notification_of input.source_event_id)
              (laws.notifications.rows s) (new_notification id now input)
              (ground (arith, eq_refl input.source_event_id)))
    ]

    notification_once :
        notification_exists world input.source_event_id s ≡ true
        → create_in_app_notification world id now input s ≡ s
    unfolding create_in_app_notification
    notification_once e = rw e refl

    notification-settings :
        laws.settings (create_in_app_notification world id now input s) ≡ laws.settings s
    unfolding create_in_app_notification
    notification-settings = elim (Bool-cases (notification_exists world input.source_event_id s)) [
      | inl e ↦ rw e refl
      | inr e ↦ rw e (laws.settings_emit _ _ _ ∙ laws.settings_notification _ s)
    ]

    notification-delivery :
        (event : String)
        → delivery_exists world event (create_in_app_notification world id now input s)
          ≡ delivery_exists world event s
    unfolding create_in_app_notification
    notification-delivery event =
        elim (Bool-cases (notification_exists world input.source_event_id s)) [
          | inl e ↦ rw e refl
          | inr e ↦ rw e (
              delivery-by_rows event _
              ∙ ap (λ ds. ltb 0 (length (filter (is_delivery_of event) ds)))
                  (laws.deliveries_emit _ _ _ ∙ laws.deliveries_notification _ s)
              ∙ sym (delivery-by_rows event s))
        ]

  -- The two halves of a dispatch, each where it is enabled.
  abbrev send : Bool → Bool → Generated → Payload → InAppNotification → S → S
  send email in_app g payload input s =
      if_enabled in_app (create_in_app_notification world g.notification_id g.now input) (
        if_enabled email
          (create_delivery_and_enqueue world g.delivery_id input.source_event_id input.type payload)
          s)

  send-settings :
      (email in_app : Bool) (g : Generated) (payload : Payload) (input : InAppNotification) (s : S)
      → laws.settings (send email in_app g payload input s) ≡ laws.settings s
  send-settings true true g payload input s =
      notification-settings _ _ _ _ ∙ delivery-settings _ _ _ _ s
  send-settings true false g payload input s = delivery-settings _ _ _ _ s
  send-settings false true g payload input s = notification-settings _ _ _ s
  send-settings false false g payload input s = refl

  send_again :
      (email in_app : Bool) (g h : Generated) (payload other_payload : Payload)
      (input other : InAppNotification) (s : S)
      → input.source_event_id ≡ other.source_event_id
      → send email in_app h other_payload other (send email in_app g payload input s)
        ≡ send email in_app g payload input s
  send_again true true g h payload other_payload input other s same =
      let t =
        create_delivery_and_enqueue world g.delivery_id input.source_event_id input.type payload
          s in
      let u = create_in_app_notification world g.notification_id g.now input t in
      let sent : delivery_exists world input.source_event_id u ≡ true =
        notification-delivery _ _ _ t input.source_event_id ∙ delivery_made _ _ _ _ s in
      let told = notification_made g.notification_id g.now input t in
      ap (create_in_app_notification world h.notification_id h.now other) (
        delivery_once h.delivery_id other.source_event_id other.type other_payload u
          (ap (λ x. delivery_exists world x u) (sym same) ∙ sent))
      ∙ notification_once h.notification_id h.now other u
          (ap (λ x. notification_exists world x u) (sym same) ∙ told)
  send_again true false g h payload other_payload input other s same =
      let u = send true false g payload input s in
      let sent = delivery_made g.delivery_id input.source_event_id input.type payload s in
      delivery_once h.delivery_id other.source_event_id other.type other_payload u
        (ap (λ x. delivery_exists world x u) (sym same) ∙ sent)
  send_again false true g h payload other_payload input other s same =
      let u = send false true g payload input s in
      let told = notification_made g.notification_id g.now input s in
      notification_once h.notification_id h.now other u
        (ap (λ x. notification_exists world x u) (sym same) ∙ told)
  send_again false false g h payload other_payload input other s same = refl

  -- A dispatch after the lookup of the user, whose settings decide what it does.
  with_email_again :
      (user : String) (f k : String → S → S) (s : S)
      → ((to : String) → laws.settings (f to s) ≡ laws.settings s)
      → ((to : String) → k to (f to s) ≡ f to s)
      → let u = with_email (world.find_email user s) f s in
        with_email (world.find_email user u) k u ≡ u
  with_email_again user f k s keeps again = elim (Option-cases (world.find_email user s)) [
    | inl e ↦ rw e (rw e refl)
    | inr (to, e) ↦ elim (Bool-cases (is_empty to)) [
      | inl empty ↦ rw e (rw empty (rw e (rw empty refl)))
      | inr full ↦
          let found : world.find_email user (f to s) ≡ some to =
            laws.same_email user (f to s) s (keeps to) ∙ e in
          rw e (rw full (rw found (rw full (again to))))
    ]
  ]

  preference_kept :
      (user type : String) (s u : S)
      → laws.settings u ≡ laws.settings s
      → resolve_preference world user type u ≡ resolve_preference world user type s
  unfolding resolve_preference
  preference_kept user type s u e =
      ap (default_preference user type) (laws.same_preference (is_preference_of user type) u s e)

  -- What is sent to a user whose preference is looked up.
  abbrev send_preferred :
      String → String → Generated → (String → Payload) → InAppNotification → String → S → S
  send_preferred user type g payload input to t =
      let p = resolve_preference world user type t in
      send p.email_enabled p.in_app_enabled g (payload to) input t

  preferred_again :
      (user type : String) (g h : Generated) (payload other_payload : String → Payload)
      (input other : InAppNotification) (s : S)
      → input.source_event_id ≡ other.source_event_id
      → let u = with_email (world.find_email user s) (send_preferred user type g payload input) s in
        with_email (world.find_email user u) (send_preferred user type h other_payload other) u ≡ u
  preferred_again user type g h payload other_payload input other s same =
      let p = resolve_preference world user type s in
      let first : String → S = λ to. send p.email_enabled p.in_app_enabled g (payload to) input s in
      let keeps : (to : String) → laws.settings (first to) ≡ laws.settings s =
        λ to. send-settings p.email_enabled p.in_app_enabled g (payload to) input s in
      with_email_again user (send_preferred user type g payload input)
        (send_preferred user type h other_payload other) s keeps
        (λ to.
          ap
            (λ (q : NotificationPreference).
              send q.email_enabled q.in_app_enabled h (other_payload to) other (first to))
            (preference_kept user type s (first to) (keeps to))
          ∙ send_again p.email_enabled p.in_app_enabled g h (payload to) (other_payload to) input
              other s same)

  -- After a notice has been dispatched, a notice of the same event changes nothing, also with
  -- another reason, another name of the place or another requester: no second mail is stored or
  -- queued, no second notification is stored or emitted.
  pub notify_again :
      (c d : Command)
      → SameEvent c d
      → (g h : Generated) (s : S) → notify world d h (notify world c g s) ≡ notify world c g s
  unfolding notify notify_place_approved notify_place_rejected notify_place_request_submitted
  notify_again _ _ (approved actor place) g h s =
      let event = build_source_event_id world "place_approved" (place ∷ actor ∷ []) in
      let input = approved_notification event actor place in
      let payload : String → Payload = λ to. approved_payload to place in
      preferred_again actor "PLACE_APPROVED" g h payload payload input input s refl
  notify_again _ _ (rejected actor place reason other_reason) g h s =
      let event = build_source_event_id world "place_rejected" (place ∷ actor ∷ []) in
      preferred_again actor "PLACE_REJECTED" g h (λ to. rejected_payload to place reason)
        (λ to. rejected_payload to place other_reason)
        (rejected_notification event actor place reason)
        (rejected_notification event actor place other_reason) s refl
  notify_again _ _ (submitted recipient request name other_name requester other_requester) g h s =
      let event =
        build_source_event_id world "place_request_submitted" (request ∷ recipient ∷ []) in
      let input = submitted_notification event recipient request name requester in
      let other = submitted_notification event recipient request other_name other_requester in
      let payload : String → Payload = λ to. submitted_payload to request name requester in
      let other_payload : String → Payload =
        λ to. submitted_payload to request other_name other_requester in
      with_email_again recipient (λ to. send true true g (payload to) input)
        (λ to. send true true h (other_payload to) other) s
        (λ to. send-settings true true g (payload to) input s)
        (λ to. send_again true true g h (payload to) (other_payload to) input other s refl)
