-- ===== src/World.antt =====
-- What a task on the engine thread works on, and where the process may die (src/util/crash_point.h).
-- The engine's edits change its book in memory; what its SQL backend holds survives a crash.
use daichod.Base.{refl, Bool, true, false, Option, none, some, ◌≡◌}
use daichod.Exec.{aborted, Exec, pure, on}
use daichod.Journal.{Disk}

pub record World (B : Type 0) : Type 0 where
  pub disk : Disk
  pub live : B
  pub saved : B

-- The engine's commit of an edit: what the backend holds after it, from what it held and the book in
-- memory. `commit_saves` is what a SQL backend documents: a commit persists the edit.
pub record Backend (B : Type 0) : Type 0 where
  pub commit : B → B → B
  pub commit_saves : (saved live : B) → commit saved live ≡ live

pub data CrashPoint : Type 0 where
  after_intent after_pending after_apply after_outcome : CrashPoint

-- What DAICHOD_CRASH_AT may name.
pub data Death (target : Option CrashPoint) : Type 0 where
  lives : target ≡ none → Death target
  at_intent : target ≡ some after_intent → Death target
  at_pending : target ≡ some after_pending → Death target
  at_apply : target ≡ some after_apply → Death target
  at_outcome : target ≡ some after_outcome → Death target

pub death : (target : Option CrashPoint) → Death target
death none = lives refl
death (some after_intent) = at_intent refl
death (some after_pending) = at_pending refl
death (some after_apply) = at_apply refl
death (some after_outcome) = at_outcome refl

abbrev pub same_point : CrashPoint → CrashPoint → Bool
same_point after_intent after_intent = true
same_point after_pending after_pending = true
same_point after_apply after_apply = true
same_point after_outcome after_outcome = true
same_point _ _ = false

module _ {B : Type 0} where
  abbrev pub on_disk : {A : Type 0} → Exec Disk A → Exec (World B) A
  on_disk = on (λ w. w.disk) (λ d w. record w { disk = d })

  abbrev pub die_if : Bool → Exec (World B) (Unit {0})
  die_if true w = (aborted, w)
  die_if false w = pure tt w

  -- CrashPointMaybe: `target` is what DAICHOD_CRASH_AT names.
  abbrev pub crash_point_maybe : Option CrashPoint → CrashPoint → Exec (World B) (Unit {0})
  crash_point_maybe none p = pure tt
  crash_point_maybe (some target) p = die_if (same_point target p)

  -- The engine commits an edit that leaves the book as `final`.
  abbrev pub commit_edit : Backend B → B → Exec (World B) (Unit {0})
  commit_edit backend final w =
      pure tt (record w { live = final; saved = backend.commit w.saved final })

  -- The next process starts from what the backend holds; its journal meets no further fault.
  abbrev pub restart : World B → World B
  restart w = record w { live = w.saved }
