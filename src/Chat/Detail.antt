-- ===== src/Chat/Detail.antt =====
-- The requests that read a conversation change nothing and return the one that was asked for.
use recommendation_trip_plat.Base.{
  concat_map, is_some, Bool-cases, Option-cases, All, All-every, All-append, All-map, Outcome, lift,
  ◌>>=◌, and_then, String, ◌≡◌, refl, sym, ap, ◌∙◌, inl, inr, true, not, ◌&&◌, Option, none, some,
  List, [], ◌∷◌, map, arith, ◌==◌, eq_iff, ok, done, fail, find_last,
}
use recommendation_trip_plat.Chat.Service.{
  list_item, assert_member, enrich_inbox_rows, head, get_conversation_detail,
}
use recommendation_trip_plat.Chat.Storage.{
  first_row, joined_row, is_joined, find_conversation, is_member, rows_of_conversation,
  rows_of_membership, load_direct_membership_rows, inbox_row, find_direct_inbox_row,
}
use recommendation_trip_plat.Chat.Entities.{
  Conversation, ConversationMember, ChatParticipant, MembershipRow, DirectInboxRow,
  DirectConversationListItem, ChatWorld,
}
use recommendation_trip_plat.Base.Repository.Laws.{All-test}
use recommendation_trip_plat.Chat.Laws.{ChatWorldLaws}

module _ {A B : Type 0} (P : B → Type 0) where
  All-concat_map :
      (f : A → List B) (xs : List A) → All (λ x. All P (f x)) xs → All P (concat_map f xs)
  All-concat_map f [] h = tt
  All-concat_map f (x ∷ xs) (h, hs) =
      All-append P (f x) (concat_map f xs) h (All-concat_map f xs hs)

  All-mapped : (f : A → B) (xs : List A) → All (λ x. P (f x)) xs → All P (map f xs)
  All-mapped f [] h = tt
  All-mapped f (x ∷ xs) (h, hs) = (h, All-mapped f xs hs)

module _ {S : Type 0} (world : ChatWorld S) (laws : ChatWorldLaws world) where
  OfConversation : String → MembershipRow → Type 0
  OfConversation id r = r.conversation_id ≡ id

  load_rows-id :
      (user_id id : String) (s : S)
      → All (OfConversation id) (load_direct_membership_rows world user_id (some id) s)
  unfolding load_direct_membership_rows OfConversation
  load_rows-id user_id id s =
      laws.newest-All (OfConversation id)
        (concat_map (rows_of_membership world user_id (some id) s) mine)
        (All-concat_map (OfConversation id) (rows_of_membership world user_id (some id) s) mine (
          All-every
            (λ me. All (OfConversation id) (rows_of_membership world user_id (some id) s me))
            of_membership mine))
    where
      mine : List ConversationMember
      mine = world.members.find (λ m. (m.user_id == user_id) && not (is_some m.deleted_at)) s

      of_conversation :
          (me : ConversationMember) (c : Conversation)
          → is_joined (some id) me c ≡ true
          → All (OfConversation id) (rows_of_conversation world user_id s me c)
      of_conversation me c h =
          All-mapped (OfConversation id) (joined_row me c) _
            (All-every (λ _. c.id ≡ id) (λ _. sym ((eq_iff id c.id).0 (ground arith))) _)

      of_membership :
          (me : ConversationMember)
          → All (OfConversation id) (rows_of_membership world user_id (some id) s me)
      of_membership me =
          All-concat_map (OfConversation id) (rows_of_conversation world user_id s me)
            (world.conversations.find (is_joined (some id) me) s)
            (All-map (of_conversation me) (world.conversations.find (is_joined (some id) me) s) (
              (laws.conversations.find-All (λ c. is_joined (some id) me c ≡ true)
                  (is_joined (some id) me) s).0
                (All-test (is_joined (some id) me) (laws.conversations.rows s))))

  find_row-id :
      (user_id id : String) (s : S) (row : DirectInboxRow)
      → find_direct_inbox_row world id user_id s ≡ some row
      → row.conversation_id ≡ id
  unfolding find_direct_inbox_row OfConversation inbox_row
  find_row-id user_id id s row e =
      go (load_direct_membership_rows world user_id (some id) s) (load_rows-id user_id id s) e
    where
      go :
          (rows : List MembershipRow)
          → All (OfConversation id) rows
          → (elim (first_row rows) [ none ↦ none | some r ↦ some (inbox_row world user_id s r) ])
            ≡ some row
          → row.conversation_id ≡ id
      go [] h e = cc
      go (r ∷ rows) (h, hs) e =
          let same : inbox_row world user_id s r ≡ row = cc in
          ap (λ (z : DirectInboxRow). z.conversation_id) (sym same) ∙ h

  -- Every outcome of the detail of a conversation.
  abbrev pub Shows : String → S → Outcome S DirectConversationListItem → Type 0
  Shows id s (done item t) = (item.id ≡ id) × (t ≡ s)
  Shows id s (fail e t) = t ≡ s

  pub detail-Shows :
      (user_id id : String) (s : S) → Shows id s (get_conversation_detail world user_id id s)
  unfolding get_conversation_detail assert_member enrich_inbox_rows
  detail-Shows user_id id s = elim (Option-cases (find_conversation world id s)) [
    | inl gone ↦ rw gone refl
    | inr (c, there) ↦ elim (Bool-cases (not (is_member world id user_id s))) [
      | inl out ↦ rw there (rw out refl)
      | inr member ↦ elim (Option-cases (find_direct_inbox_row world id user_id s)) [
        | inl miss ↦ rw there (rw member (rw miss refl))
        | inr (row, found) ↦
            rw there (rw member (rw found (enriched row (find_row-id user_id id s row found))))
      ]
    ]
  ]
    where
      enriched :
          (row : DirectInboxRow)
          → row.conversation_id ≡ id
          → Shows id s ((enrich_inbox_rows world (row ∷ []) >>= head world) s)
      enriched row e = go (
          find_last (λ (p : ChatParticipant). p.id == row.other_user_id)
            (world.find_public_profiles (row.other_user_id ∷ []) s))
        where
          go :
              (o : Option ChatParticipant)
              → Shows id s (
                  (lift (
                        and_then
                          (list_item row o)
                          (λ item. and_then (ok []) (λ items. ok (item ∷ items))))
                      >>= head world)
                    s)
          go none = refl
          go (some p) = (e, refl)
