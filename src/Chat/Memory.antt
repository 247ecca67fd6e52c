-- ===== src/Chat/Memory.antt =====
-- The tables of the chat in memory, with the users an and binh.
use recommendation_trip_plat.Base.{
  any, leb, if◌then◌else◌, leb→le, Bool-cases, Option-cases, length, filter, All, All-map, ℕ, ◌+◌,
  ◌≤◌, ◌≡◌, refl, sym, ap, subst, inl, inr, Bool, true, Option, none, some, List, [], ◌∷◌, arith,
  ◌==◌,
}
use recommendation_trip_plat.Base.Repository.Laws.{All-empty}
use recommendation_trip_plat.Base.Repository.Tables.{table, table_laws}
use recommendation_trip_plat.Chat.Entities.{
  Conversation, ConversationMember, Message, ChatParticipant, ChatWorld,
}
use recommendation_trip_plat.Chat.Laws.{ChatWorldLaws}

pub record Memory : Type 0 where
  pub conversations : List Conversation
  pub members : List ConversationMember
  pub messages : List Message
  pub emitted : ℕ

abbrev newer : Message → Option Message → Option Message
newer m none = some m
newer m (some n) = if leb n.created_at m.created_at then some m else some n

abbrev pub latest_in : (Message → Bool) → List Message → Option Message
latest_in p [] = none
latest_in p (m ∷ ms) = let rest = latest_in p ms in if p m then newer m rest else rest

pub latest_in-none :
    (p : Message → Bool) (ms : List Message) → latest_in p ms ≡ none → filter p ms ≡ []
unfolding filter
latest_in-none p [] e = refl
latest_in-none p (m ∷ ms) e = elim (Bool-cases (p m)) [
  | inl t ↦ elim (Option-cases (latest_in p ms)) [
    | inl none_else ↦ let q : some m ≡ none = rw none_else at (rw t at e) in cc
    | inr (n, found) ↦ elim (Bool-cases (leb n.created_at m.created_at)) [
      | inl le ↦ let q : some m ≡ none = rw le at (rw found at (rw t at e)) in cc
      | inr gt ↦ let q : some n ≡ none = rw gt at (rw found at (rw t at e)) in cc
    ]
  ]
  | inr t ↦ rw t (latest_in-none p ms (rw t at e))
]

pub latest_in-some :
    (p : Message → Bool) (ms : List Message) (m : Message)
    → latest_in p ms ≡ some m
    → All (λ n. p n ≡ true → n.created_at ≤ m.created_at) ms
latest_in-some p [] m e = tt
latest_in-some p (x ∷ ms) m e = elim (Bool-cases (p x)) [
  | inl t ↦ elim (Option-cases (latest_in p ms)) [
    | inl none_else ↦
        let q : some x ≡ some m = rw none_else at (rw t at e) in
        let same : x ≡ m = cc in
        (
          (λ _. subst (λ z. z.created_at ≤ m.created_at) (sym same) (omega arith)),
          All-map (λ n h g. cc) ms (All-empty p ms (latest_in-none p ms none_else)),
        )
    | inr (n, found) ↦ elim (Bool-cases (leb n.created_at x.created_at)) [
      | inl le ↦
          let q : some x ≡ some m = rw le at (rw found at (rw t at e)) in
          let same : x ≡ m = cc in
          let times : x.created_at ≡ m.created_at = ap (λ (z : Message). z.created_at) same in
          (
            (λ _. omega (arith, times)),
            All-map
                (λ k h g.
                  let a : k.created_at ≤ n.created_at = h g in
                  let b : n.created_at ≤ x.created_at = leb→le n.created_at x.created_at le in
                  omega (arith, a, b, times))
                ms (latest_in-some p ms n found),
          )
      | inr gt ↦
          let q : some n ≡ some m = rw gt at (rw found at (rw t at e)) in
          let same : n ≡ m = cc in
          let times : n.created_at ≡ m.created_at = ap (λ (z : Message). z.created_at) same in
          (
            (λ _. ground arith),
            All-map (λ k h g. let a : k.created_at ≤ n.created_at = h g in omega (arith, a, times))
                ms (latest_in-some p ms n found),
          )
    ]
  ]
  | inr t ↦ ((λ g. cc), latest_in-some p ms m (rw t at e))
]

pub latest_in-test :
    (p : Message → Bool) (ms : List Message) (m : Message) → latest_in p ms ≡ some m → p m ≡ true
latest_in-test p [] m e = cc
latest_in-test p (x ∷ ms) m e = elim (Bool-cases (p x)) [
  | inl t ↦ elim (Option-cases (latest_in p ms)) [
    | inl none_else ↦
        let q : some x ≡ some m = rw none_else at (rw t at e) in
        let same : x ≡ m = cc in subst (λ z. p z ≡ true) same t
    | inr (n, found) ↦ elim (Bool-cases (leb n.created_at x.created_at)) [
      | inl le ↦
          let q : some x ≡ some m = rw le at (rw found at (rw t at e)) in
          let same : x ≡ m = cc in subst (λ z. p z ≡ true) same t
      | inr gt ↦
          let q : some n ≡ some m = rw gt at (rw found at (rw t at e)) in
          let same : n ≡ m = cc in subst (λ z. p z ≡ true) same (latest_in-test p ms n found)
    ]
  ]
  | inr t ↦ latest_in-test p ms m (rw t at e)
]

abbrev people : List ChatParticipant
people =
    record { id = "u1"; display_name = "an"; avatar_url = none }
    ∷ record { id = "u2"; display_name = "binh"; avatar_url = none }
    ∷ []

-- No other transaction runs, and identifiers tell their table.
abbrev pub chat : ChatWorld Memory
chat = record {
  conversations = table (λ (s : Memory). s.conversations) (λ xs s. record s { conversations = xs });
  members = table (λ (s : Memory). s.members) (λ xs s. record s { members = xs });
  messages = table (λ (s : Memory). s.messages) (λ xs s. record s { messages = xs });
  new_conversation_id = λ s. "c-new";
  new_member_id = λ s. "m-new";
  new_message_id = λ s. "t-new";
  race = λ key s. none;
  latest_message = λ p s. latest_in p s.messages;
  page_of_messages = λ p skip take s. (filter p s.messages, length (filter p s.messages));
  newest_first = λ rows. rows;
  user_exists = λ id s. any (λ (p : ChatParticipant). p.id == id) people;
  find_public_profiles = λ ids s. people;
  emit_message_new = λ id m s. record s { emitted = s.emitted + 1 };
  emit_conversation_read = λ id r s. record s { emitted = s.emitted + 1 };
}

unfoldable pub chat_laws : ChatWorldLaws chat
unfolding table_laws
chat_laws = record {
  conversations =
      table_laws (λ (s : Memory). s.conversations) (λ xs s. record s { conversations = xs })
        (λ xs s. refl);
  members =
      table_laws (λ (s : Memory). s.members) (λ xs s. record s { members = xs }) (λ xs s. refl);
  messages =
      table_laws (λ (s : Memory). s.messages) (λ xs s. record s { messages = xs }) (λ xs s. refl);
  latest_some = λ p s m e. latest_in-some p s.messages m e;
  latest_test = λ p s m e. latest_in-test p s.messages m e;
  latest_none = λ p s e. latest_in-none p s.messages e;
  newest-All = λ P rows h. h;
  raced = λ key s t e. cc;
  conversations_insert_member = λ r s. refl;
  conversations_update_member = λ p f s. refl;
  conversations_insert_message = λ r s. refl;
  conversations_emit_message = λ id m s. refl;
  conversations_emit_read = λ id r s. refl;
  members_insert_message = λ r s. refl;
  members_update_conversation = λ p f s. refl;
  members_emit_message = λ id m s. refl;
  members_emit_read = λ id r s. refl;
  messages_update_member = λ p f s. refl;
  messages_update_conversation = λ p f s. refl;
  messages_emit_message = λ id m s. refl;
  messages_emit_read = λ id r s. refl;
}
