-- ===== src/Commands/Matching.antt =====
-- What matching a typed command name finds (core/engine.go, `matchPrefix`).
use agent_in_chat_feishu.Shared.{
  ◌≡◌, refl, sym, ◌∙◌, ◌↔◌, ◌≢◌, ◌⊎◌, true, false, not, ◌&&◌, List, [], ◌∷◌, String, ◌==◌, eq_iff,
  none, some, arith, Bool-cases, inl, inr, Option-cases, contains,
}
use agent_in_chat_feishu.Commands.Gate.{ids}
use agent_in_chat_feishu.Commands.Table.{Command, find_exact, has_prefix, scan, match_prefix}

-- Every candidate that a name begins with the text has this ID.
abbrev pub AllMatch : String → String → List Command → Type 0
AllMatch prefix id [] = Unit {0}
AllMatch prefix id (c ∷ cs) = (has_prefix prefix c.names ≡ true → c.id ≡ id) × AllMatch prefix id cs

-- Some candidate with the ID has such a name.
abbrev pub SomeMatch : String → String → List Command → Type 0
SomeMatch prefix id [] = ⊥
SomeMatch prefix id (c ∷ cs) =
    ((has_prefix prefix c.names ≡ true) × (c.id ≡ id)) ⊎ SomeMatch prefix id cs

abbrev pub Named : List Command → Type 0
Named [] = Unit {0}
Named (c ∷ cs) = (c.id ≢ "") × Named cs

-- The state of the scan before a candidate fits what it returns in the end.
abbrev Fits : String → String → Type 0
Fits matched result = (matched ≡ "") ⊎ (matched ≡ result)

scan-AllMatch :
    (prefix matched id : String) (cs : List Command)
    → Named cs
    → id ≢ ""
    → scan prefix matched cs ≡ id
    → AllMatch prefix id cs × Fits matched id
unfolding scan
scan-AllMatch prefix matched id [] n h e = (tt, inr e)
scan-AllMatch prefix matched id (c ∷ cs) n h e = elim (Bool-cases (has_prefix prefix c.names)) [
  | inr skip ↦
      let (all, fits) = scan-AllMatch prefix matched id cs n.1 h (ground arith) in
      ((λ q. absurd (cc), all), fits)
  | inl hit ↦ elim (Bool-cases (not (matched == "") && not (matched == c.id))) [
    | inl clash ↦ absurd (h (ground arith))
    | inr fine ↦
        let (all, fits) = scan-AllMatch prefix c.id id cs n.1 h (ground arith) in
        let is_it : c.id ≡ id = ground (arith, n.0) in
        ((λ q. is_it, all), ground (arith, eq_iff matched "", eq_iff matched c.id))
  ]
]

scan-SomeMatch :
    (prefix matched id : String) (cs : List Command)
    → id ≢ ""
    → scan prefix matched cs ≡ id
    → (matched ≡ id) ⊎ SomeMatch prefix id cs
unfolding scan
scan-SomeMatch prefix matched id [] h e = inl e
scan-SomeMatch prefix matched id (c ∷ cs) h e = elim (Bool-cases (has_prefix prefix c.names)) [
  | inr skip ↦ elim (scan-SomeMatch prefix matched id cs h (ground arith)) [
    | inl first ↦ inl first
    | inr later ↦ inr (inr later)
  ]
  | inl hit ↦ elim (Bool-cases (not (matched == "") && not (matched == c.id))) [
    | inl clash ↦ absurd (h (ground arith))
    | inr fine ↦ elim (scan-SomeMatch prefix c.id id cs h (ground arith)) [
      | inl this ↦ inr (inl (hit, this))
      | inr later ↦ inr (inr later)
    ]
  ]
]

-- If every candidate that fits has one ID, the scan returns that ID, once it has seen one.
scan_of_AllMatch :
    (prefix matched id : String) (cs : List Command)
    → AllMatch prefix id cs
    → Fits matched id
    → (matched ≡ id) ⊎ SomeMatch prefix id cs
    → scan prefix matched cs ≡ id
unfolding scan
scan_of_AllMatch prefix matched id [] a f (inl e) = e
scan_of_AllMatch prefix matched id [] a f (inr none_left) = absurd none_left
scan_of_AllMatch prefix matched id (c ∷ cs) a f s = elim (Bool-cases (has_prefix prefix c.names)) [
  | inl hit ↦
      let this : c.id ≡ id = a.0 hit in
      let rest = scan_of_AllMatch prefix c.id id cs a.1 (inr this) (inl this) in
      ground (arith, eq_iff matched "", eq_iff matched c.id)
  | inr skip ↦ let rest = scan_of_AllMatch prefix matched id cs a.1 f (later skip s) in ground arith
]
  where
    later :
        has_prefix prefix c.names ≡ false
        → (matched ≡ id) ⊎ SomeMatch prefix id (c ∷ cs)
        → (matched ≡ id) ⊎ SomeMatch prefix id cs
    later skip (inl e) = inl e
    later skip (inr (inl (hit, e))) = absurd (cc)
    later skip (inr (inr rest)) = inr rest

-- Where no candidate has the typed text as a name, matching returns an ID exactly if some
-- candidate has a name that begins with the text, and every such candidate has this ID; otherwise,
-- on an ambiguous or unknown text, it returns the empty text.
pub match_prefix_unique :
    (prefix id : String) (cs : List Command)
    → Named cs
    → find_exact prefix cs ≡ none
    → id ≢ ""
    → (match_prefix prefix cs ≡ id) ↔ (AllMatch prefix id cs × SomeMatch prefix id cs)
unfolding match_prefix
match_prefix_unique prefix id cs n e h = (
  λ m.
      let found : scan prefix "" cs ≡ id = ground arith in
      (
        (scan-AllMatch prefix "" id cs n h found).0,
        elim (scan-SomeMatch prefix "" id cs h found) [
          | inl blank ↦ absurd (h (sym blank))
          | inr some_match ↦ some_match
        ],
      ),
  λ (all, some_match).
      let found = scan_of_AllMatch prefix "" id cs all (inl refl) (inr some_match) in ground arith,
)

-- A candidate's own name is never ambiguous: the first candidate with the name is returned.
pub match_prefix-exact :
    (prefix id : String) (cs : List Command)
    → find_exact prefix cs ≡ some id
    → match_prefix prefix cs ≡ id
unfolding match_prefix
match_prefix-exact prefix id cs e = rw (e, match_prefix)

SomeMatch-contains :
    (prefix id : String) (cs : List Command) → SomeMatch prefix id cs → contains (ids cs) id ≡ true
unfolding contains
SomeMatch-contains prefix id [] none_left = absurd none_left
SomeMatch-contains prefix id (c ∷ cs) (inl (hit, e)) = ground (arith, eq_iff c.id id)
SomeMatch-contains prefix id (c ∷ cs) (inr rest) =
    let later = SomeMatch-contains prefix id cs rest in ground arith

find_exact-contains :
    (prefix id : String) (cs : List Command)
    → find_exact prefix cs ≡ some id
    → contains (ids cs) id ≡ true
unfolding find_exact contains
find_exact-contains prefix id [] e = cc
find_exact-contains prefix id (c ∷ cs) e =
    ground (arith, eq_iff c.id id, find_exact-contains prefix id cs)

-- What matching returns is the empty text or the ID of a candidate.
pub match_prefix-contains :
    (prefix : String) (cs : List Command)
    → match_prefix prefix cs ≢ ""
    → contains (ids cs) (match_prefix prefix cs) ≡ true
unfolding match_prefix
match_prefix-contains prefix cs h = elim (Option-cases (find_exact prefix cs)) [
  | inr (id, e) ↦
      let it : match_prefix prefix cs ≡ id = rw (e, match_prefix) refl in
      rw it (find_exact-contains prefix id cs e)
  | inl e ↦
      let it : match_prefix prefix cs ≡ scan prefix "" cs = rw (e, match_prefix) refl in
      rw it (elim (scan-SomeMatch prefix "" (scan prefix "" cs) cs (λ q. h (it ∙ q)) refl) [
        | inl blank ↦ absurd (h (it ∙ sym blank))
        | inr some_match ↦ SomeMatch-contains prefix (scan prefix "" cs) cs some_match
      ])
]
