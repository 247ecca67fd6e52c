-- ===== src/Chat/Sending.antt =====
-- A message that is sent, and what it does to the numbers of unread messages.
use recommendation_trip_plat.Base.{
  if◌then◌else◌, Bool-cases, Option-cases, length, filter, Outcome, trim, ℕ, ◌+◌, String, ◌≡◌, refl,
  sym, ap, ◌∙◌, ◌≢◌, inl, inr, Bool, true, false, not, Option, none, [], ◌∷◌, ◌++◌, arith, ◌==◌,
  eq_iff, eq_refl, done, fail, ◌*◌,
}
use recommendation_trip_plat.Base.Repository.Laws.{length-append}
use recommendation_trip_plat.Chat.Entities.{as_date, Message, ChatWorld, is_since, is_unread}
use recommendation_trip_plat.Chat.Storage.{find_conversation, is_member, unread_count, append}
use recommendation_trip_plat.Chat.Service.{assert_member, send_message}
use recommendation_trip_plat.Chat.Laws.{ChatWorldLaws}

module _ {S : Type 0} (world : ChatWorld S) (laws : ChatWorldLaws world) where
  -- How many messages are unread for a user who has read up to a time.
  abbrev unread : String → String → Option ℕ → S → ℕ
  unread other id last s = unread_count world other id last s

  -- Nothing has changed, or the trimmed text is stored as a message in the conversation, open and of
  -- the sender, which is unread for everybody else.
  unfoldable pub Sends :
      String → String → String → String → Option ℕ → S → Outcome S Message → Type 0
  Sends user_id id body other last s (fail e t) = t ≡ s
  Sends user_id id body other last s (done m t) =
      (laws.messages.rows t ≡ laws.messages.rows s ++ m ∷ [])
      × (m.body ≡ trim body)
      × (m.body ≢ "")
      × (laws.members.rows t ≡ laws.members.rows s)
      × (unread other id last t ≡ unread other id last s + (if user_id == other then 0 else 1))

  abbrev sent : String → String → String → ℕ → S → Message
  sent user_id id text now s = record {
    id = world.new_message_id s;
    conversation_id = id;
    sender_user_id = user_id;
    body = text;
    created_at = now;
    updated_at = now;
    deleted_at = none;
  }

  abbrev delivered : String → Message → ℕ → S → S
  delivered id m now s = world.emit_message_new id m (
      world.conversations.update (λ c. c.id == id)
        (λ c. record c { updated_at = as_date now * 1000 }) (world.messages.insert m s))

  delivered-messages :
      (id : String) (m : Message) (now : ℕ) (s : S)
      → laws.messages.rows (delivered id m now s) ≡ laws.messages.rows s ++ m ∷ []
  delivered-messages id m now s =
      laws.messages_emit_message id m _
      ∙ (laws.messages_update_conversation (λ c. c.id == id)
            (λ c. record c { updated_at = as_date now * 1000 }) (world.messages.insert m s)
          ∙ laws.messages.rows_insert m s)

  delivered-members :
      (id : String) (m : Message) (now : ℕ) (s : S)
      → laws.members.rows (delivered id m now s) ≡ laws.members.rows s
  delivered-members id m now s =
      laws.members_emit_message id m _
      ∙ (laws.members_update_conversation (λ c. c.id == id)
            (λ c. record c { updated_at = as_date now * 1000 }) (world.messages.insert m s)
          ∙ laws.members_insert_message m s)

  delivered-unread :
      (user_id id text other : String) (last : Option ℕ) (now : ℕ) (s : S)
      → is_since last now ≡ true
      → unread other id last (delivered id (sent user_id id text now s) now s)
        ≡ unread other id last s + (if user_id == other then 0 else 1)
  unfolding unread_count
  delivered-unread user_id id text other last now s since =
      let m : Message = sent user_id id text now s in
      let p : Message → Bool = is_unread id other last in
      let here : (id == id) ≡ true = eq_refl id in
      let more : ℕ = if p m then 1 else 0 in
      let added : ℕ = if user_id == other then 0 else 1 in
      let one : more ≡ added = elim (Bool-cases (user_id == other)) [
        | inl e ↦ rw here (rw e refl)
        | inr e ↦ rw here (rw e (rw since refl))
      ] in
      let stored : unread other id last s ≡ length (filter p (laws.messages.rows s)) =
        laws.messages.find_length p s in
      laws.messages.find_length p (delivered id m now s)
      ∙ (ap (λ rows. length (filter p rows)) (delivered-messages id m now s)
          ∙ (length-append p (laws.messages.rows s) m ∙ omega (arith, one, stored)))

  -- A request to send a message that throws changes nothing; one that returns has stored exactly the
  -- trimmed text, which is not empty, and for whoever has read up to an earlier time it adds one
  -- unread message, except for the sender.
  pub send_message-Sends :
      (now : ℕ) (user_id id body other : String) (last : Option ℕ) (s : S)
      → is_since last now ≡ true
      → Sends user_id id body other last s (send_message world now user_id id body s)
  unfolding send_message assert_member append Sends
  send_message-Sends now user_id id body other last s since =
      elim (Option-cases (find_conversation world id s)) [
        | inl gone ↦ rw gone refl
        | inr (c, there) ↦ elim (Bool-cases (not (is_member world id user_id s))) [
          | inl out ↦ rw there (rw out refl)
          | inr member ↦ elim (Bool-cases (trim body == "")) [
            | inl empty ↦ rw there (rw member (rw empty refl))
            | inr text ↦ rw there (
                rw member (
                  rw text (
                    delivered-messages id (sent user_id id (trim body) now s) now s,
                    refl,
                    (λ e. let f : true ≡ false = sym ((eq_iff (trim body) "").1 e) ∙ text in cc),
                    delivered-members id (sent user_id id (trim body) now s) now s,
                    delivered-unread user_id id (trim body) other last now s since,
                  )))
          ]
        ]
      ]
