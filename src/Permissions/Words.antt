-- ===== src/Permissions/Words.antt =====
-- The words that decide on a request (core/engine.go, `isApproveAllResponse` and its kin).
use agent_in_chat_feishu.Shared.{
  ◌≡◌, refl, Bool, true, false, not, ◌&&◌, String, eq_iff, List, [], ◌∷◌, arith, contains,
  Bool-cases,
}
use agent_in_chat_feishu.Permissions.{
  approve_all_words, allow_words, deny_words, is_approve_all_response, is_allow_response,
  is_deny_response,
}

-- No text of the first list stands in the second.
unfoldable apart : List String → List String → Bool
apart [] ys = true
apart (x ∷ xs) ys = not (contains ys x) && apart xs ys

apart-contains :
    (xs ys : List String) (s : String)
    → apart xs ys ≡ true
    → contains xs s ≡ true
    → contains ys s ≡ false
unfolding apart contains
apart-contains [] ys s a h = cc
apart-contains (x ∷ xs) ys s a h =
    ground (arith, eq_iff x s, apart-contains xs ys s, Bool-cases (contains ys s))

deny_apart_allow : apart deny_words allow_words ≡ true
unfolding apart contains
deny_apart_allow = refl

deny_apart_approve_all : apart deny_words approve_all_words ≡ true
unfolding apart contains
deny_apart_approve_all = refl

allow_apart_approve_all : apart allow_words approve_all_words ≡ true
unfolding apart contains
allow_apart_approve_all = refl

pub deny_only :
    (s : String)
    → is_deny_response s ≡ true
    → (is_allow_response s ≡ false) × (is_approve_all_response s ≡ false)
unfolding is_deny_response is_allow_response is_approve_all_response
deny_only s h = (
  apart-contains deny_words allow_words s deny_apart_allow h,
  apart-contains deny_words approve_all_words s deny_apart_approve_all h,
)

pub allow_only : (s : String) → is_allow_response s ≡ true → is_approve_all_response s ≡ false
unfolding is_allow_response is_approve_all_response
allow_only s h = apart-contains allow_words approve_all_words s allow_apart_approve_all h
