-- ===== src/WorkspaceBindings/Processes.antt =====
-- Processes that share one file of bindings (core/workspace_binding.go), each with its own copy,
-- beside one map for all of them.
use mathlib.Core.Path.{ap₂}
use agent_in_chat_feishu.Shared.{
  ℕ, ◌≤◌, ◌<◌, ◌≡◌, ◌≢◌, refl, ap, true, false, List, [], ◌∷◌, String, ◌==◌, eq_iff, arith,
  Bool-cases, inl, inr, eqb,
}
use agent_in_chat_feishu.WorkspaceBindings.{
  Bindings, unread, unparsed, parsed, File, missing, stat_error, present, WorkspaceBindingManager,
  written, refresh_locked, save_locked, put, remove, binding, effective,
}
use agent_in_chat_feishu.WorkspaceBindings.Worlds.{
  Event, binds, unbinds, looks_up, World, set_process, reload, act, spec_step, run, spec_run,
  one_by_one, Later, started,
}

-- The file holds `b`, or is missing where `b` is empty; its stamp is at most `last`.
abbrev Holds : ℕ → File → Bindings → Type 0
Holds last missing b = b ≡ []
Holds last (present t size (parsed c)) b = (t ≤ last) × (c ≡ b)
Holds last other b = ⊥

-- A copy that has the file's time is a copy of `b`, and no copy is newer than the file.
abbrev Fits : File → Bindings → WorkspaceBindingManager → Type 0
Fits (present t size c) b m =
    (m.store_path ≢ "")
    × (m.last_loaded_mod_time ≤ t)
    × (m.last_loaded_mod_time ≡ t → m.bindings ≡ b)
Fits other b m = (m.store_path ≢ "") × (m.last_loaded_mod_time ≡ 0)

record Represents (last : ℕ) (w : World) (b : Bindings) : Type 0 where
  holds : Holds last w.file b
  fits : (i : ℕ) → Fits w.file b (w.processes i)

-- A reload gives the shared map.
refresh-bindings :
    (last : ℕ) (file : File) (b : Bindings) (m : WorkspaceBindingManager)
    → Holds last file b
    → Fits file b m
    → (refresh_locked file m).bindings ≡ b
unfolding refresh_locked
refresh-bindings last missing b m h f = ground (arith, eq_iff m.store_path "", f.0)
refresh-bindings last stat_error b m h f = absurd h
refresh-bindings last (present t size unread) b m h f = absurd h
refresh-bindings last (present t size unparsed) b m h f = absurd h
refresh-bindings last (present t size (parsed c)) b m h f =
    ground (arith, eq_iff m.store_path "", f)

refresh-Fits :
    (last : ℕ) (file : File) (b : Bindings) (m : WorkspaceBindingManager)
    → Holds last file b
    → Fits file b m
    → Fits file b (refresh_locked file m)
unfolding refresh_locked
refresh-Fits last missing b m h f = ground (arith, eq_iff m.store_path "", f)
refresh-Fits last stat_error b m h f = absurd h
refresh-Fits last (present t size unread) b m h f = absurd h
refresh-Fits last (present t size unparsed) b m h f = absurd h
refresh-Fits last (present t size (parsed c)) b m h f = ground (arith, eq_iff m.store_path "", f)

store_path-refresh :
    (file : File) (m : WorkspaceBindingManager) → (refresh_locked file m).store_path ≡ m.store_path
unfolding refresh_locked
store_path-refresh missing m = ground arith
store_path-refresh stat_error m = ground arith
store_path-refresh (present t size unread) m = ground arith
store_path-refresh (present t size unparsed) m = ground arith
store_path-refresh (present t size (parsed c)) m = ground arith

Fits-path :
    (file : File) (b : Bindings) (m : WorkspaceBindingManager) → Fits file b m → m.store_path ≢ ""
Fits-path missing b m f = f.0
Fits-path stat_error b m f = f.0
Fits-path (present t size c) b m f = f.0

-- A copy of before is older than a file that is written later.
Fits-older :
    (last t size : ℕ) (file : File) (b b' : Bindings) (m : WorkspaceBindingManager)
    → last < t
    → Holds last file b
    → Fits file b m
    → Fits (present t size (parsed b')) b' m
Fits-older last t size missing b b' m lt h f =
    (f.0, omega (arith, f.1), λ e. absurd (omega (arith, f.1)))
Fits-older last t size stat_error b b' m lt h f = absurd h
Fits-older last t size (present u s unread) b b' m lt h f = absurd h
Fits-older last t size (present u s unparsed) b b' m lt h f = absurd h
Fits-older last t size (present u s (parsed c)) b b' m lt h f =
    let (path, old, same) = f in (path, omega (arith, h.0), λ e. absurd (omega (arith, h.0)))

-- What a change writes, from any bindings that the process computed after its reload.
change-Represents :
    (last i t size : ℕ) (w : World) (b b' : Bindings) (m : WorkspaceBindingManager)
    → last < t
    → Represents last w b
    → m.store_path ≢ ""
    → m.bindings ≡ b'
    → Represents t (set_process i (save_locked (written t size true) (m, w.file)) w) b'
unfolding save_locked
change-Represents last i t size w b b' m lt r path e = rw (blank) (record {
  holds = (omega arith, e);
  fits = λ j. elim (Bool-cases (eqb i j)) [
    | inl same ↦ rw (same) (path, omega arith, λ q. e)
    | inr other ↦
        rw (other, e) (Fits-older last t size w.file b b' (w.processes j) lt r.holds (r.fits j))
  ];
})
  where
    blank : m.store_path == "" ≡ false
    blank = ground (arith, eq_iff m.store_path "")

-- A reload changes nothing of what is represented.
reload-Represents :
    (last i : ℕ) (w : World) (b : Bindings) → Represents last w b → Represents last (reload i w) b
unfolding reload
reload-Represents last i w b r = record {
  holds = r.holds;
  fits = λ j. elim (Bool-cases (eqb i j)) [
    | inl same ↦ rw (same) (refresh-Fits last w.file b (w.processes i) r.holds (r.fits i))
    | inr other ↦ rw (other) (r.fits j)
  ];
}

reload-bindings :
    (last i : ℕ) (w : World) (b : Bindings)
    → Represents last w b
    → ((reload i w).processes i).bindings ≡ b
unfolding reload
reload-bindings last i w b r =
    let self : eqb i i ≡ true = ground arith in
    rw (self) (refresh-bindings last w.file b (w.processes i) r.holds (r.fits i))

later-Represents :
    (last t : ℕ) (w : World) (b : Bindings) → last < t → Represents last w b → Represents t w b
later-Represents last t w b lt r = record { holds = later w.file r.holds; fits = r.fits }
  where
    later : (file : File) → Holds last file b → Holds t file b
    later missing h = h
    later stat_error h = absurd h
    later (present u s unread) h = absurd h
    later (present u s unparsed) h = absurd h
    later (present u s (parsed c)) h = (omega (arith, h.0), h.1)

act-Represents :
    (last i t : ℕ) (e : Event) (w : World) (b : Bindings)
    → last < t
    → Represents last w b
    → (w.processes i).bindings ≡ b
    → Represents t (act i t e w).0 (spec_step e b).0 × ((act i t e w).1 ≡ (spec_step e b).1)
unfolding act spec_step
act-Represents last i t (binds p c n ws now size) w b lt r fresh = (
  change-Represents last i t size w b _ _ lt r (Fits-path w.file b (w.processes i) (r.fits i))
      (ap (put p c (binding n ws now)) fresh),
  refl,
)
act-Represents last i t (unbinds p c size) w b lt r fresh = (
  change-Represents last i t size w b _ _ lt r (Fits-path w.file b (w.processes i) (r.fits i))
      (ap (remove p c) fresh),
  refl,
)
act-Represents last i t (looks_up p c) w b lt r fresh =
    (later-Represents last t w b lt r, ap (λ (x : Bindings). effective p c x ∷ []) fresh)

run-Represents :
    (last : ℕ) (es : List (ℕ × ℕ × Event)) (w : World) (b : Bindings)
    → Later last es
    → Represents last w b
    → run (one_by_one es) w ≡ spec_run es b
unfolding run spec_run one_by_one
run-Represents last [] w b l r = refl
run-Represents last ((i, t, e) ∷ es) w b l r =
    let ready = reload-Represents last i w b r in
    let (next, same) =
      act-Represents last i t e (reload i w) b l.0 ready (reload-bindings last i w b r) in
    ap₂ ◌∷◌ same (run-Represents t es (act i t e (reload i w)).0 (spec_step e b).0 l.1 next)

-- Any number of processes that start with one missing file, and bind, unbind and look up channels
-- in any order, find at each lookup what one map for all of them holds, if no two methods overlap,
-- every change has a later time than the one before it, and no write fails: no process answers
-- from an old copy. Without a lock of the file, changes that overlap may be lost; such runs are
-- not covered.
pub run-spec_run :
    (store_path : String) (es : List (ℕ × ℕ × Event))
    → store_path ≢ ""
    → Later 0 es
    → run (one_by_one es) (started store_path) ≡ spec_run es []
run-spec_run store_path es path l =
    run-Represents 0 es (started store_path) [] l
      (record { holds = refl; fits = λ i. (path, refl) })
