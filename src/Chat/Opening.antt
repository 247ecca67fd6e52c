-- ===== src/Chat/Opening.antt =====
-- The conversation of two users is the same, whoever of them opens it.
use recommendation_trip_plat.Chat.Sharing.{requests-Shared, UniqueKeys}
use recommendation_trip_plat.Base.{
  Bool-cases, Option-cases, any, filter, All, All-append, All-filter, All-map, All-zip, Outcome,
  continue, ◌>>=◌, or_throw, ℕ, String, ◌≡◌, refl, sym, ap, subst, ◌∙◌, inl, inr, true, not, none,
  some, List, [], ◌∷◌, ◌++◌, arith, ◌==◌, eq_refl, resource_not_found, chat_self_direct,
  untyped_error, done, fail,
}
use recommendation_trip_plat.Base.Repository.Laws.{All-test, All-single, All-any, All-empty}
use recommendation_trip_plat.Chat.Storage.{find_direct_by_key, insert_direct, find_or_create_direct}
use recommendation_trip_plat.Chat.Entities.{
  Conversation, DirectConversationListItem, ChatWorld, has_direct_key, direct,
}
use recommendation_trip_plat.Chat.Service.{
  get_conversation_detail, create_or_get_direct_conversation,
}
use recommendation_trip_plat.Chat.Keeping.{Shared, not_missing}
use recommendation_trip_plat.Chat.Laws.{ChatWorldLaws, ChatRequests}
use recommendation_trip_plat.Chat.Key.{build_direct_conversation_key, key_comm}
use recommendation_trip_plat.Chat.Detail.{Shows, detail-Shows}

module _ {S : Type 0} (world : ChatWorld S) (laws : ChatWorldLaws world) where
  -- What has been opened: the conversation that is shown, and nobody else's.
  abbrev Opens : String → Outcome S Conversation → Type 0
  Opens key (done c t) = Shared world laws key c.id t
  Opens key (fail e t) = Unit

  any-last :
      (key : String) (xs : List Conversation) (c : Conversation)
      → has_direct_key key c ≡ true
      → any (has_direct_key key) (xs ++ c ∷ []) ≡ true
  unfolding any
  any-last key [] c h = rw h refl
  any-last key (x ∷ xs) c h = elim (Bool-cases (has_direct_key key x)) [
    | inl t ↦ rw t refl
    | inr t ↦ rw t (any-last key xs c h)
  ]

  found_one :
      (key : String) (s : S) (c : Conversation)
      → UniqueKeys world laws s
      → find_direct_by_key world key s ≡ some c
      → Shared world laws key c.id s
  unfolding Shared find_direct_by_key UniqueKeys
  found_one key s c unique found =
      laws.conversations.find_one-All Only (has_direct_key key) s c found (
        All-zip (λ z (k : has_direct_key key z ≡ true → Only z) t. k t)
          (filter (has_direct_key key) stored)
          (All-filter (λ z. has_direct_key key z ≡ true → Only z) (has_direct_key key) stored each)
          (All-test (has_direct_key key) stored))
    where
      stored : List Conversation
      stored = laws.conversations.rows s

      Only : Conversation → Type 0
      Only z =
          (any (has_direct_key key) stored ≡ true)
          × All (λ d. has_direct_key key d ≡ true → d.id ≡ z.id) stored

      each : All (λ z. has_direct_key key z ≡ true → Only z) stored
      each =
          All-zip
            (λ z here only t.
              (here t, All-map (λ d k g. ap (λ (x : Conversation). x.id) (k g)) stored (only t)))
            stored (All-any (has_direct_key key) stored)
            (All-single (has_direct_key key) stored (unique key))

  -- A conversation with a key that was not there is the only one with it.
  lone :
      (key : String) (s t : S) (c : Conversation)
      → laws.conversations.rows t ≡ laws.conversations.rows s ++ c ∷ []
      → has_direct_key key c ≡ true
      → find_direct_by_key world key s ≡ none
      → All (λ z. has_direct_key key z ≡ true → z ≡ c) (laws.conversations.rows t)
        × (any (has_direct_key key) (laws.conversations.rows t) ≡ true)
  unfolding find_direct_by_key
  lone key s t c rows has miss =
      subst
        (λ xs.
          All (λ z. has_direct_key key z ≡ true → z ≡ c) xs × (any (has_direct_key key) xs ≡ true))
        (sym rows)
        (
          All-append (λ z. has_direct_key key z ≡ true → z ≡ c) (laws.conversations.rows s) (c ∷ [])
              (All-map (λ z h g. cc) (laws.conversations.rows s)
                (All-empty (has_direct_key key) (laws.conversations.rows s)
                  (laws.conversations.find_one_none (has_direct_key key) s miss)))
              ((λ _. refl), tt),
          any-last key (laws.conversations.rows s) c has,
        )

  lone-Shared :
      (key : String) (s t : S) (c d : Conversation)
      → laws.conversations.rows t ≡ laws.conversations.rows s ++ c ∷ []
      → has_direct_key key c ≡ true
      → find_direct_by_key world key s ≡ none
      → d.id ≡ c.id
      → Shared world laws key d.id t
  unfolding Shared
  lone-Shared key s t c d rows has miss same =
      let (only, here) = lone key s t c rows has miss in
      (
        here,
        All-map (λ z k g. ap (λ (x : Conversation). x.id) (k g) ∙ sym same)
            (laws.conversations.rows t) only,
      )

  find_or_create-Opens :
      (now : ℕ) (a b key : String) (s : S)
      → UniqueKeys world laws s
      → Opens key (find_or_create_direct world now a b key s)
  unfolding find_or_create_direct insert_direct find_direct_by_key
  find_or_create-Opens now a b key s unique = elim (Option-cases (find_direct_by_key world key s)) [
    | inr (c, found) ↦ rw found (found_one key s c unique found)
    | inl miss ↦ elim (Option-cases (world.race key s)) [
      | inl alone ↦ rw miss (rw alone (inserted miss))
      | inr (t, raced) ↦ rw miss (rw raced (refound miss t raced))
    ]
  ]
    where
      row : Conversation
      row = record {
        id = world.new_conversation_id s;
        conversation_type = direct;
        direct_key = some key;
        created_at = now;
        updated_at = now;
        deleted_at = none;
      }

      inserted :
          find_direct_by_key world key s ≡ none → Opens key (insert_direct world now a b key s)
      inserted miss =
          lone-Shared key s _ row row
            (laws.conversations_insert_member _ _
              ∙ (laws.conversations_insert_member _ _ ∙ laws.conversations.rows_insert row s))
            (ground (arith, eq_refl key)) miss refl

      refound :
          find_direct_by_key world key s ≡ none
          → (t : S) → world.race key s ≡ some t
          → Opens key
              (or_throw (untyped_error "QueryFailedError") (find_direct_by_key world key t) t)
      refound miss t raced =
          let (c, rows, has) = laws.raced key s t raced in
          elim (Option-cases (find_direct_by_key world key t)) [
            | inl lost ↦ rw lost tt
            | inr (d, found) ↦ rw found (
                lone-Shared key s t c d rows has miss (
                  ap (λ (x : Conversation). x.id)
                    (laws.conversations.find_one-All (λ z. z ≡ c) (has_direct_key key) t d found
                      (All-zip (λ z k g. k g)
                        (filter (has_direct_key key) (laws.conversations.rows t))
                        (All-filter (λ z. has_direct_key key z ≡ true → z ≡ c) (has_direct_key key)
                          (laws.conversations.rows t) (lone key s t c rows has miss).0)
                        (All-test (has_direct_key key) (laws.conversations.rows t))))))
          ]

  -- What the detail of a conversation returns, after it has been opened.
  shown_one :
      (user_id key : String) (o : Outcome S Conversation) (item : DirectConversationListItem)
      (t : S)
      → Opens key o
      → continue (λ c. get_conversation_detail world user_id c.id) o ≡ done item t
      → Shared world laws key item.id t
  shown_one user_id key (fail e z) item t h returns = cc
  shown_one user_id key (done c z) item t h returns =
      let (same, still) =
        subst (Shows world laws c.id z) returns (detail-Shows world laws user_id c.id z) in
      subst (λ i. Shared world laws key i t) (sym same)
        (subst (Shared world laws key c.id) (sym still) h)

  opened_one :
      (a b : String) (now : ℕ) (s t : S) (item : DirectConversationListItem)
      → UniqueKeys world laws s
      → create_or_get_direct_conversation world now a b s ≡ done item t
      → Shared world laws (build_direct_conversation_key a b) item.id t
  unfolding create_or_get_direct_conversation
  opened_one a b now s t item unique returns = elim (Bool-cases (a == b)) [
    | inl self ↦ let q : fail chat_self_direct s ≡ done item t = rw self at returns in cc
    | inr e ↦ elim (Bool-cases (not (world.user_exists b s))) [
      | inl gone ↦
          let q : fail (resource_not_found "user_not_found") s ≡ done item t =
            rw gone at (rw e at returns) in
          cc
      | inr there ↦
          shown_one a (build_direct_conversation_key a b)
            (find_or_create_direct world now a b (build_direct_conversation_key a b) s) item t
            (find_or_create-Opens now a b (build_direct_conversation_key a b) s unique)
            (rw there at (rw e at returns))
    ]
  ]

  -- Two users share one conversation: if one of them has opened it, then whatever requests come after,
  -- by anybody, when the other opens it, it is the same one, and nothing changes.
  pub same_conversation :
      (a b : String) (now later : ℕ) (s t u v : S) (item shown : DirectConversationListItem)
      → UniqueKeys world laws s
      → create_or_get_direct_conversation world now a b s ≡ done item t
      → ChatRequests world t u
      → create_or_get_direct_conversation world later b a u ≡ done shown v
      → (shown.id ≡ item.id) × (v ≡ u)
  unfolding create_or_get_direct_conversation find_or_create_direct find_direct_by_key Shared
  same_conversation a b now later s t u v item shown unique opened run again =
      let ab : Shared world laws (build_direct_conversation_key a b) item.id u =
        requests-Shared world laws (build_direct_conversation_key a b) item.id t u run
          (opened_one a b now s t item unique opened) in
      let ba : Shared world laws (build_direct_conversation_key b a) item.id u =
        subst (λ k. Shared world laws k item.id u) (key_comm a b) ab in
      elim (Bool-cases (b == a)) [
        | inl self ↦ let q : fail chat_self_direct u ≡ done shown v = rw self at again in cc
        | inr e ↦ elim (Bool-cases (not (world.user_exists a u))) [
          | inl gone ↦
              let q : fail (resource_not_found "user_not_found") u ≡ done shown v =
                rw gone at (rw e at again) in
              cc
          | inr there ↦ reopened ba (rw there at (rw e at again))
        ]
      ]
    where
      key : String
      key = build_direct_conversation_key b a

      reopened :
          Shared world laws key item.id u
          → ((find_or_create_direct world later b a key
                >>= (λ c. get_conversation_detail world b c.id))
              u)
            ≡ done shown v
          → (shown.id ≡ item.id) × (v ≡ u)
      reopened shared returns = elim (Option-cases (find_direct_by_key world key u)) [
        | inl miss ↦ absurd (not_missing world laws key item.id u shared miss)
        | inr (c, found) ↦
            let q : get_conversation_detail world b c.id u ≡ done shown v = rw found at returns in
            let (same, still) =
              subst (Shows world laws c.id u) q (detail-Shows world laws b c.id u) in
            (same ∙ shared_id c found shared, still)
      ]
        where
          shared_id :
              (c : Conversation)
              → find_direct_by_key world key u ≡ some c
              → Shared world laws key item.id u
              → c.id ≡ item.id
          shared_id c found (here, only) =
              laws.conversations.find_one-All (λ z. z.id ≡ item.id) (has_direct_key key) u c found
                (All-zip (λ z (k : has_direct_key key z ≡ true → z.id ≡ item.id) t. k t)
                  (filter (has_direct_key key) (laws.conversations.rows u))
                  (All-filter (λ z. has_direct_key key z ≡ true → z.id ≡ item.id)
                    (has_direct_key key) (laws.conversations.rows u) only)
                  (All-test (has_direct_key key) (laws.conversations.rows u)))
