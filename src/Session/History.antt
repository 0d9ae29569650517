-- ===== src/Session/History.antt =====
-- The message history of a Session (core/session.go).
use Prim.Native.Nat.{min}
use agent_in_chat_feishu.Shared.{
  ℕ, zero, suc, ◌-◌, ◌≤◌, ◌≡◌, refl, sym, ap, ◌∙◌, List, [], ◌∷◌, ◌++◌, String, arith, length,
  length-append, length-drop, take, drop, take-append-drop, ℤ, pos, negsuc,
}
use agent_in_chat_feishu.Session.{Session, HistoryEntry, get_history, add_history}

-- How many entries `n` asks for, out of `total`.
abbrev pub wanted : ℤ → ℕ → ℕ
wanted (negsuc n) total = total
wanted (pos zero) total = total
wanted (pos (suc n)) total = min (suc n) total

get_history-eq-drop :
    (n : ℤ) (s : Session)
    → get_history n s ≡ drop (length s.history - wanted n (length s.history)) s.history
unfolding get_history
get_history-eq-drop (negsuc n) s = ap (λ (k : ℕ). drop k s.history) {x = 0} (omega arith)
get_history-eq-drop (pos zero) s = ap (λ (k : ℕ). drop k s.history) (ground arith)
get_history-eq-drop (pos (suc n)) s = ap (λ (k : ℕ). drop k s.history) (ground arith)

wanted-le : (n : ℤ) (total : ℕ) → wanted n total ≤ total
wanted-le (negsuc n) total = omega arith
wanted-le (pos zero) total = omega arith
wanted-le (pos (suc n)) total = omega arith

-- `get_history n` is the end of the history, of the length that `n` asks for: all of it for a
-- number that is not positive, and at most all of it for any other.
pub get_history-suffix :
    (n : ℤ) (s : Session)
    → (take (length s.history - wanted n (length s.history)) s.history ++ get_history n s
        ≡ s.history)
      × (length (get_history n s) ≡ wanted n (length s.history))
get_history-suffix n s =
    let total : ℕ = length s.history in
    let k : ℕ = total - wanted n total in
    rw (get_history-eq-drop n s)
      (take-append-drop k s.history, omega (arith, length-drop k s.history, wanted-le n total))

drop-append :
    (k : ℕ) (xs ys : List HistoryEntry) → k ≤ length xs → drop k (xs ++ ys) ≡ drop k xs ++ ys
drop-append zero xs ys h = refl
drop-append (suc k) [] ys h = absurd (omega arith)
drop-append (suc k) (x ∷ xs) ys h = drop-append k xs ys (omega arith)

-- After `add_history` the last `n + 1` entries are the last `n` of before and the new one.
pub get_history-add_history :
    (n : ℕ) (role content : String) (now : ℕ) (s : Session)
    → get_history (pos (suc (suc n))) (add_history role content now s)
      ≡ get_history (pos (suc n)) s
        ++ record { role = role; content = content; timestamp = now } ∷ []
get_history-add_history n role content now s =
    get_history-eq-drop (pos (suc (suc n))) (add_history role content now s)
    ∙ unfold add_history in
      (ap (λ (k : ℕ). drop k (s.history ++ e ∷ []))
          (omega (arith, length-append s.history (e ∷ [])))
        ∙ drop-append (length s.history - wanted (pos (suc n)) (length s.history)) s.history
            (e ∷ []) (omega arith))
      ∙ ap (λ (l : List HistoryEntry). l ++ e ∷ []) (sym (get_history-eq-drop (pos (suc n)) s))
  where
    e : HistoryEntry
    e = record { role = role; content = content; timestamp = now }
