-- ===== src/Chat/Keeping.antt =====
-- The requests to the chat keep the conversation of a key: none is added beside it.
use recommendation_trip_plat.Base.{
  or_else, Bool-cases, Option-cases, any, All, All-append, after, Keeps, Keeps-or_throw, ℕ, String,
  ◌≡◌, refl, sym, ap, subst, ◌∙◌, ◌≢◌, inl, inr, true, false, none, some, List, [], ◌∷◌, ◌++◌,
  arith, ◌==◌, eq_iff, eq_refl, untyped_error,
}
use recommendation_trip_plat.Chat.Storage.{find_direct_by_key, insert_direct, find_or_create_direct}
use recommendation_trip_plat.Chat.Entities.{Conversation, ChatWorld, has_direct_key, direct}
use recommendation_trip_plat.Base.Repository.Laws.{All-empty}
use recommendation_trip_plat.Chat.Laws.{ChatWorldLaws}

module _ {S : Type 0} (world : ChatWorld S) (laws : ChatWorldLaws world) (key id : String) where
  -- There is a conversation with the key, and whichever has it has the identifier.
  unfoldable pub Shared : S → Type 0
  Shared s =
      (any (has_direct_key key) (laws.conversations.rows s) ≡ true)
      × All (λ c. has_direct_key key c ≡ true → c.id ≡ id) (laws.conversations.rows s)

  pub same-Shared :
      (s t : S) → laws.conversations.rows t ≡ laws.conversations.rows s → Shared s → Shared t
  unfolding Shared
  same-Shared s t e h =
      subst
        (λ rows.
          (any (has_direct_key key) rows ≡ true)
          × All (λ c. has_direct_key key c ≡ true → c.id ≡ id) rows)
        (sym e) h

  any-append :
      (xs : List Conversation) (c : Conversation)
      → any (has_direct_key key) xs ≡ true
      → any (has_direct_key key) (xs ++ c ∷ []) ≡ true
  unfolding any
  any-append [] c e = cc
  any-append (x ∷ xs) c e = elim (Bool-cases (has_direct_key key x)) [
    | inl t ↦ rw t refl
    | inr t ↦ rw t (any-append xs c (rw t at e))
  ]

  none_any :
      (k : String) (xs : List Conversation)
      → All (λ c. has_direct_key k c ≡ false) xs
      → any (has_direct_key k) xs ≡ false
  unfolding any
  none_any k [] h = refl
  none_any k (x ∷ xs) (h, hs) = rw h (none_any k xs hs)

  -- The key that is shared is found.
  pub not_missing : (s : S) → Shared s → find_direct_by_key world key s ≢ none
  unfolding Shared find_direct_by_key
  not_missing s (there, only) miss =
      let gone : any (has_direct_key key) (laws.conversations.rows s) ≡ false =
        none_any key (laws.conversations.rows s) (
          All-empty (has_direct_key key) (laws.conversations.rows s)
            (laws.conversations.find_one_none (has_direct_key key) s miss)) in
      let f : true ≡ false = sym there ∙ gone in cc

  same_key :
      (k : String) (c : Conversation)
      → has_direct_key key c ≡ true
      → has_direct_key k c ≡ true
      → k ≡ key
  same_key k c h g =
      sym ((eq_iff (or_else c.direct_key "") k).0 (key_test k g))
      ∙ (eq_iff (or_else c.direct_key "") key).0 (key_test key h)
    where
      key_test : (z : String) → has_direct_key z c ≡ true → (or_else c.direct_key "" == z) ≡ true
      key_test z e = ground arith

  -- A conversation that is added has another key, since its own was not found.
  added-Shared :
      (s t : S) (c : Conversation) (k : String)
      → laws.conversations.rows t ≡ laws.conversations.rows s ++ c ∷ []
      → has_direct_key k c ≡ true
      → find_direct_by_key world k s ≡ none
      → Shared s
      → Shared t
  unfolding Shared
  added-Shared s t c k e has miss (there, only) =
      subst
        (λ rows.
          (any (has_direct_key key) rows ≡ true)
          × All (λ c. has_direct_key key c ≡ true → c.id ≡ id) rows)
        (sym e)
        (
          any-append (laws.conversations.rows s) c there,
          All-append (λ c. has_direct_key key c ≡ true → c.id ≡ id) (laws.conversations.rows s)
              (c ∷ []) only
              (
                (λ h. absurd (
                    not_missing s (there, only)
                      (ap (λ z. find_direct_by_key world z s) (sym (same_key k c h has)) ∙ miss))),
                tt,
              ),
        )

  inserted-Shared :
      (now : ℕ) (a b k : String) (s : S)
      → find_direct_by_key world k s ≡ none
      → Shared s
      → Shared (after (insert_direct world now a b k s))
  unfolding insert_direct
  inserted-Shared now a b k s miss h =
      let c : Conversation = record {
        id = world.new_conversation_id s;
        conversation_type = direct;
        direct_key = some k;
        created_at = now;
        updated_at = now;
        deleted_at = none;
      } in
      let here : has_direct_key k c ≡ true = ground (arith, eq_refl k) in
      same-Shared (world.conversations.insert c s) _
        (laws.conversations_insert_member _ _ ∙ laws.conversations_insert_member _ _)
        (added-Shared s (world.conversations.insert c s) c k (laws.conversations.rows_insert c s)
          here miss h)

  pub find_or_create_direct-Shared :
      (now : ℕ) (a b k : String) → Keeps Shared (find_or_create_direct world now a b k)
  unfolding find_or_create_direct
  find_or_create_direct-Shared now a b k s h = elim (Option-cases (find_direct_by_key world k s)) [
    | inr (c, found) ↦ rw found h
    | inl miss ↦ elim (Option-cases (world.race k s)) [
      | inl alone ↦ rw miss (rw alone (inserted-Shared now a b k s miss h))
      | inr (t, raced) ↦
          let (c, rows, has) = laws.raced k s t raced in
          rw miss (
            rw raced (
              Keeps-or_throw Shared (untyped_error "QueryFailedError")
                (find_direct_by_key world k t) t (added-Shared s t c k rows has miss h)))
    ]
  ]
