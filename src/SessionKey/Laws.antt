-- ===== src/SessionKey/Laws.antt =====
-- Putting keys of conversations together and reading them back (core/engine.go).
use Prim.Native.Char.{code}
use Prim.Native.String
use text.Mathlib.TextLemmas.{
  cons-append, nil-append, append-ne-nil_of_right_ne-nil, cons-ne-nil, length-append, length-cons,
}
use agent_in_chat_feishu.Shared.{
  ◌≡◌, refl, ap, ◌∙◌, ◌≢◌, Bool, true, not, ◌&&◌, String, eq_iff, none, some, [], ◌∷◌, eqb, arith,
}
use agent_in_chat_feishu.SessionKey.{
  cut_colon, extract_channel_id, extract_user_id, extract_platform_name, workspace_channel_key,
  extract_workspace_channel_key, legacy_workspace_channel_key, workspace_channel_key_candidates,
}

unfoldable pub colon_free : String → Bool
colon_free String.[] = true
colon_free (String.◌∷◌ c s) = not (eqb (code c) b':') && colon_free s

-- `a ++ ":" ++ b`
abbrev pub join : String → String → String
join a b = String.◌++◌ a (String.◌∷◌ ":" b)

cut_colon-join : (a b : String) → colon_free a ≡ true → cut_colon (join a b) ≡ some (a, b)
unfolding cut_colon colon_free
cut_colon-join String.[] b h = rw (nil-append (String.◌∷◌ ":" b)) refl
cut_colon-join (String.◌∷◌ c a) b h =
    rw (cons-append c a (String.◌∷◌ ":" b)) (ground (arith, cut_colon-join a b))

cut_colon-none : (s : String) → colon_free s ≡ true → cut_colon s ≡ none
unfolding cut_colon colon_free
cut_colon-none String.[] h = refl
cut_colon-none (String.◌∷◌ c s) h = ground (arith, cut_colon-none s)

-- A key "platform:channel:user" gives back its three parts, where the platform and the channel
-- hold no colon; the user part may hold colons.
pub extract-session_key :
    (platform channel user : String)
    → colon_free platform ≡ true
    → colon_free channel ≡ true
    → (extract_platform_name (join platform (join channel user)) ≡ platform)
      × (extract_channel_id (join platform (join channel user)) ≡ channel)
      × (extract_user_id (join platform (join channel user)) ≡ user)
unfolding extract_platform_name extract_channel_id extract_user_id
extract-session_key platform channel user hp hc =
    let whole = cut_colon-join platform (join channel user) hp in
    let rest = cut_colon-join channel user hc in (ground arith, ground arith, ground arith)

extract-pair :
    (platform channel : String)
    → colon_free platform ≡ true
    → colon_free channel ≡ true
    → (extract_platform_name (join platform channel) ≡ platform)
      × (extract_channel_id (join platform channel) ≡ channel)
unfolding extract_platform_name extract_channel_id
extract-pair platform channel hp hc =
    let whole = cut_colon-join platform channel hp in
    let rest = cut_colon-none channel hc in (ground arith, ground arith)

-- All users of a channel share its workspace key: it is made of the platform and the channel
-- alone, whether or not the session key has a user part.
pub extract_workspace-session_key :
    (platform channel user : String)
    → colon_free platform ≡ true
    → colon_free channel ≡ true
    → (extract_workspace_channel_key (join platform (join channel user))
        ≡ workspace_channel_key platform channel)
      × (extract_workspace_channel_key (join platform channel)
          ≡ workspace_channel_key platform channel)
unfolding extract_workspace_channel_key
extract_workspace-session_key platform channel user hp hc =
    let (p, c, u) = extract-session_key platform channel user hp hc in
    let (p', c') = extract-pair platform channel hp hc in (cc, cc)

join-ne-nil : (a b : String) → join a b ≢ ""
join-ne-nil a b = append-ne-nil_of_right_ne-nil a (λ e. cons-ne-nil ":" b e)

join-ne_right : (a b : String) → b ≢ join a b
join-ne_right a b e =
    absurd (omega (arith, ap String.count e, length-append a (String.◌∷◌ ":" b), length-cons ":" b))

workspace_channel_key-eq-join :
    (platform channel : String)
    → platform ≢ ""
    → channel ≢ ""
    → workspace_channel_key platform channel ≡ join platform channel
unfolding workspace_channel_key
workspace_channel_key-eq-join platform channel np nc =
    let colon : String.◌++◌ ":" channel ≡ String.◌∷◌ ":" channel =
      cons-append ":" "" channel ∙ ap (String.◌∷◌ ":") (nil-append channel) in
    ground (arith, eq_iff platform "", eq_iff channel "")

candidates-join :
    (platform channel : String)
    → colon_free platform ≡ true
    → workspace_channel_key_candidates (join platform channel)
      ≡ join platform channel ∷ channel ∷ []
unfolding workspace_channel_key_candidates legacy_workspace_channel_key
candidates-join platform channel hp =
    let whole = cut_colon-join platform channel hp in
    let named = join-ne-nil platform channel in
    let longer = join-ne_right platform channel in
    ground (arith, eq_iff (join platform channel) "", eq_iff channel (join platform channel))

-- The workspace key of a channel of a named platform is looked up under the key itself, and then
-- under the bare channel, the key of the older format; no other key is tried.
pub candidates-workspace_channel_key :
    (platform channel : String)
    → colon_free platform ≡ true
    → platform ≢ ""
    → channel ≢ ""
    → workspace_channel_key_candidates (workspace_channel_key platform channel)
      ≡ join platform channel ∷ channel ∷ []
candidates-workspace_channel_key platform channel hp np nc =
    rw (workspace_channel_key-eq-join platform channel np nc) (candidates-join platform channel hp)
