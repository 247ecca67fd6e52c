-- ===== src/Chat/Key.antt =====
-- buildDirectConversationKey of modules/chat/chat.constants.ts: the identifiers of the two users,
-- sorted, so that the key does not depend on who writes to whom.
use recommendation_trip_plat.Base.{ℕ, String, ◌≡◌, refl, sym, ap, ◌∙◌, arith}
use Prim.Native.Nat.{Ordering, compare as compare_ℕ}
use Prim.Native.Char.{code}
use Prim.Native.String.{compare, then as in_order}
use Prim.Native.String.compare
use Prim.Native.String as Text
use text.Mathlib.TextEquality.{path_by_compare}

-- The two in their order, by how the first compares to the second.
abbrev joined : Ordering → String → String → String
joined Ordering.gt a b = Text.◌++◌ b (Text.◌++◌ ":" a)
joined _ a b = Text.◌++◌ a (Text.◌++◌ ":" b)

-- `[a, b].sort().join(':')`; the identifiers are in ASCII, where code units and code points agree.
unfoldable pub build_direct_conversation_key : String → String → String
build_direct_conversation_key a b = joined (compare a b) a b

abbrev flip : Ordering → Ordering
flip Ordering.lt = Ordering.gt
flip Ordering.eq = Ordering.eq
flip Ordering.gt = Ordering.lt

flip-numbers : (m n : ℕ) → compare_ℕ n m ≡ flip (compare_ℕ m n)
flip-numbers m n = ground arith

flip-then : (o p : Ordering) → flip (in_order o p) ≡ in_order (flip o) (flip p)
flip-then Ordering.lt p = refl
flip-then Ordering.eq p = refl
flip-then Ordering.gt p = refl

flip-compare : (s t : String) → compare t s ≡ flip (compare s t)
flip-compare Text.[] Text.[] = compare.nil-nil ∙ sym (ap flip compare.nil-nil)
flip-compare Text.[] (Text.◌∷◌ d t) = compare.cons-nil d t ∙ sym (ap flip (compare.nil-cons d t))
flip-compare (Text.◌∷◌ c s) Text.[] = compare.nil-cons c s ∙ sym (ap flip (compare.cons-nil c s))
flip-compare (Text.◌∷◌ c s) (Text.◌∷◌ d t) =
    compare.cons-cons d c t s
    ∙ ap (λ o. in_order o (compare t s)) (flip-numbers (code c) (code d))
    ∙ ap (in_order (flip (compare_ℕ (code c) (code d)))) (flip-compare s t)
    ∙ sym (flip-then (compare_ℕ (code c) (code d)) (compare s t))
    ∙ sym (ap flip (compare.cons-cons c d s t))

joined-flip :
    (o : Ordering) (a b : String) → (o ≡ Ordering.eq → a ≡ b) → joined o a b ≡ joined (flip o) b a
joined-flip Ordering.lt a b same = refl
joined-flip Ordering.eq a b same = λ i. Text.◌++◌ (same refl i) (Text.◌++◌ ":" (sym (same refl) i))
joined-flip Ordering.gt a b same = refl

pub key_comm :
    (a b : String) → build_direct_conversation_key a b ≡ build_direct_conversation_key b a
unfolding build_direct_conversation_key
key_comm a b =
    joined-flip (compare a b) a b (path_by_compare a b)
    ∙ ap (λ o. joined o b a) (sym (flip-compare a b))
