-- ===== src/Progress/Last.antt =====
-- The latest elements of a list (core/progress_compact.go).
use agent_in_chat_feishu.Shared.{
  ℕ, zero, suc, ◌+◌, ◌-◌, ◌≤◌, ◌≡◌, refl, sym, List, [], ◌∷◌, ◌++◌, arith, length, drop, ltb,
  length-append, length-drop,
}
use agent_in_chat_feishu.Progress.{last_of}

module _ {ℓ} {A : Type ℓ} where
  drop-append_le : (k : ℕ) (xs ys : List A) → k ≤ length xs → drop k (xs ++ ys) ≡ drop k xs ++ ys
  drop-append_le zero xs ys h = refl
  drop-append_le (suc k) [] ys h = absurd (ground arith)
  drop-append_le (suc k) (x ∷ xs) ys h = drop-append_le k xs ys (omega arith)

  drop-nil : (a : ℕ) → drop {A = A} a [] ≡ []
  drop-nil zero = refl
  drop-nil (suc a) = refl

  drop-drop : (a b : ℕ) (xs : List A) → drop a (drop b xs) ≡ drop (b + a) xs
  drop-drop a zero xs = rw (nat_eq a) refl
    where
      nat_eq : (n : ℕ) → 0 + n ≡ n
      nat_eq n = omega arith
  drop-drop a (suc b) [] = rw (drop-nil a, drop-nil (suc b + a)) refl
  drop-drop a (suc b) (x ∷ xs) =
      let step : suc b + a ≡ suc (b + a) = omega arith in rw (step, drop-drop a b xs) refl

  -- A window that is cut again after each element is the window of them all.
  pub last_of-snoc :
      (n : ℕ) (xs : List A) (x : A) → last_of n (last_of n xs ++ x ∷ []) ≡ last_of n (xs ++ x ∷ [])
  last_of-snoc n xs x =
      let k = length xs - n in
      let rest = length (drop k (xs ++ x ∷ [])) - n in
      let total : k + rest ≡ length (xs ++ x ∷ []) - n =
        omega (arith, length-drop k (xs ++ x ∷ []), length-append xs (x ∷ [])) in
      rw (sym (drop-append_le k xs (x ∷ []) (omega arith)), drop-drop rest k (xs ++ x ∷ []), total)
        refl

  pub over-last_of :
      (n : ℕ) (xs : List A) (x : A)
      → ltb n (length (last_of n xs ++ x ∷ [])) ≡ ltb n (length (xs ++ x ∷ []))
  over-last_of n xs x = ground (
    arith,
    length-append (last_of n xs) (x ∷ []),
    length-append xs (x ∷ []),
    length-drop (length xs - n) xs,
  )
