-- ===== src/Session/Lock.antt =====
-- The busy flag of a Session (core/session.go): workers that take and give back one session.
use agent_in_chat_feishu.Shared.{ℕ, ◌≡◌, refl, Bool, true, false, arith, eqb, if◌then◌else◌}
use agent_in_chat_feishu.Session.{Session, try_lock, unlock, unlock_without_update}

-- A session and the worker that has taken it and not yet given it back.
pub record Shop : Type 0 where
  pub session : Session
  pub holders : ℕ → Bool

abbrev set_holder : ℕ → Bool → (ℕ → Bool) → ℕ → Bool
set_holder w b held v = if eqb w v then b else held v

-- What the workers do, in any order: take the session, be turned away, and give it back, which no
-- test keeps from a worker that does not have it.
pub data Step : Shop → Shop → Type 0 where
  take :
      (p : Shop) (w : ℕ) {t : Session}
      → try_lock p.session ≡ (t, true)
      → Step p (record { session = t; holders = set_holder w true p.holders })
  refuse :
      (p : Shop) (w : ℕ) {t : Session}
      → try_lock p.session ≡ (t, false)
      → Step p (record { session = t; holders = p.holders })
  give_back :
      (p : Shop) (w now : ℕ)
      → Step p (record { session = unlock now p.session; holders = set_holder w false p.holders })
  give_back_quietly :
      (p : Shop) (w now : ℕ)
      → Step p (record {
        session = unlock_without_update now p.session;
        holders = set_holder w false p.holders;
      })

pub data Reach (p : Shop) : Shop → Type 0 where
  here : Reach p p
  next : {q r : Shop} → Reach p q → Step q r → Reach p r

-- Every session was given back by a worker that had it.
unfoldable pub Proper : {p q : Shop} → Reach p q → Type 0
Proper here = Unit {0}
Proper (next r (take p w e)) = Proper r
Proper (next r (refuse p w e)) = Proper r
Proper (next r (give_back p w now)) = Proper r × (p.holders w ≡ true)
Proper (next r (give_back_quietly p w now)) = Proper r × (p.holders w ≡ true)

-- The flag tells whether somebody has the session, and then exactly one worker has it.
pub record Exclusive (p : Shop) : Type 0 where
  pub idle : p.session.busy ≡ false → (w : ℕ) → p.holders w ≡ false
  pub single : (v w : ℕ) → p.holders v ≡ true → p.holders w ≡ true → v ≡ w
  pub held : p.session.busy ≡ true → (w : ℕ) × (p.holders w ≡ true)

give_back-Exclusive :
    (p : Shop) (s : Session) (w : ℕ)
    → s.busy ≡ false
    → p.holders w ≡ true
    → Exclusive p
    → Exclusive (record { session = s; holders = set_holder w false p.holders })
give_back-Exclusive p s w b h x = record {
  idle = λ _ v. ground (arith, x.single v w);
  single = λ u v hu hv. ground (arith, x.single u v);
  held = λ e. cc;
}

take-Exclusive :
    (p : Shop) (w : ℕ) (t : Session)
    → try_lock p.session ≡ (t, true)
    → Exclusive p
    → Exclusive (record { session = t; holders = set_holder w true p.holders })
take-Exclusive p w t e x = record {
  idle = λ b v. absurd (free b);
  single = λ u v hu hv. ground (arith, x.idle was_idle u, x.idle was_idle v);
  held = λ _. (w, ground arith);
}
  where
    was_idle : p.session.busy ≡ false
    was_idle = unfold try_lock in ground arith

    free : t.busy ≡ false → ⊥
    free b = unfold try_lock in ground arith

refuse-Exclusive :
    (p : Shop) (t : Session)
    → try_lock p.session ≡ (t, false)
    → Exclusive p
    → Exclusive (record { session = t; holders = p.holders })
refuse-Exclusive p t e x = record {
  idle = λ b v. x.idle (ground (arith, same)) v;
  single = x.single;
  held = λ b. x.held (ground (arith, same));
}
  where
    same : t ≡ p.session
    same = unfold try_lock in ground arith

-- Mutual exclusion, in every interleaving of the workers in which a worker gives the session back
-- only while it has it: if at most one worker has the session, and its flag says whether one has,
-- this stays so.
pub Reach-Exclusive : {p q : Shop} → Exclusive p → (r : Reach p q) → Proper r → Exclusive q
unfolding Proper
Reach-Exclusive x here h = x
Reach-Exclusive x (next r (take p w {t = t} e)) h = take-Exclusive p w t e (Reach-Exclusive x r h)
Reach-Exclusive x (next r (refuse p w {t = t} e)) h = refuse-Exclusive p t e (Reach-Exclusive x r h)
Reach-Exclusive x (next r (give_back p w now)) h =
    give_back-Exclusive p (unlock now p.session) w (unfold unlock in refl) h.1
      (Reach-Exclusive x r h.0)
Reach-Exclusive x (next r (give_back_quietly p w now)) h =
    give_back-Exclusive p (unlock_without_update now p.session) w
      (unfold unlock_without_update in refl) h.1 (Reach-Exclusive x r h.0)
