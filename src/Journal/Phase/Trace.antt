-- ===== src/Journal/Phase/Trace.antt =====
-- Any sequence of the journal's writes, on a disk that may fail any of them, against the abstract phases.
use daichod.Base.{◌≡◌, refl, ap, ◌∙◌, Option, none, some, List, [], ◌∷◌, if◌then◌else◌}
use daichod.Base.Text.{Bytes, bytes_eq}
use daichod.Base.Codec.{Codec}
use daichod.Journal.{
  Outcome, Tables, Disk, Fault, record_intent, record_pending, clear_pending, record_outcome,
}
use daichod.Journal.Invariant.{Write, intent, stage, unstage, outcome, write}
use daichod.Journal.Phase.{Phase, phase, calm, begin, resolve, stage as staged, unstage as unstaged}
use daichod.Journal.Phase.Refinement.{
  phase-record_intent, phase-record_pending, phase-clear_pending, phase-record_outcome,
}

-- The abstract journal: the phase of each id.
abbrev Phases : Type 0
Phases = Bytes → Phase

abbrev on_faults : Tables → List (Option Fault) → Disk
on_faults t fs = record { tables = t; faults = fs }

module _ {sha256 : Bytes → Bytes} {codec : Codec Outcome} where
  -- The one id that a write is about, and how it moves that id's phase.
  abbrev target : Write sha256 codec → Bytes
  target (intent id rpc payload now) = id
  target (stage id b) = id
  target (unstage id) = id
  target (outcome id o now) = id

  abbrev move : Write sha256 codec → Phase → Phase
  move (intent id rpc payload now) = begin rpc payload
  move (stage id b) = staged b
  move (unstage id) = unstaged
  move (outcome id o now) = resolve (codec.serialize o)

  abbrev pub moved : Write sha256 codec → Phases → Phases
  moved w m j = if bytes_eq (target w) j then move w (m j) else m j

  abbrev pub play : List (Write sha256 codec) → Disk → Disk
  play [] d = d
  play (w ∷ ws) d = play ws (write w d)

  -- The abstract journal does the writes that SQLite does not fail.
  abbrev pub play_phases : List (Write sha256 codec) → List (Option Fault) → Phases → Phases
  play_phases [] fs m = m
  play_phases (w ∷ ws) [] m = play_phases ws [] (moved w m)
  play_phases (w ∷ ws) (none ∷ fs) m = play_phases ws fs (moved w m)
  play_phases (w ∷ ws) (some f ∷ fs) m = play_phases ws fs m

  phase-write :
      (w : Write sha256 codec) (t : Tables) (j : Bytes)
      → phase (write w (calm t)).tables j ≡ moved w (phase t) j
  phase-write (intent id rpc payload now) t j = phase-record_intent sha256 id rpc payload now t j
  phase-write (stage id b) t j = phase-record_pending id b t j
  phase-write (unstage id) t j = phase-clear_pending id t j
  phase-write (outcome id o now) t j = phase-record_outcome codec id o now t j

  -- A write that meets no fault does what it does on a calm disk, and one that fails does nothing.
  write-none :
      (w : Write sha256 codec) (t : Tables) (fs : List (Option Fault))
      → write w (on_faults t (none ∷ fs)) ≡ on_faults (write w (calm t)).tables fs
  unfolding record_intent record_pending clear_pending record_outcome
  write-none (intent id rpc payload now) t fs = refl
  write-none (stage id b) t fs = refl
  write-none (unstage id) t fs = refl
  write-none (outcome id o now) t fs = refl

  write-calm :
      (w : Write sha256 codec) (t : Tables) → write w (calm t) ≡ calm (write w (calm t)).tables
  unfolding record_intent record_pending clear_pending record_outcome
  write-calm (intent id rpc payload now) t = refl
  write-calm (stage id b) t = refl
  write-calm (unstage id) t = refl
  write-calm (outcome id o now) t = refl

  write-some :
      (w : Write sha256 codec) (t : Tables) (f : Fault) (fs : List (Option Fault))
      → write w (on_faults t (some f ∷ fs)) ≡ on_faults t fs
  unfolding record_intent record_pending clear_pending record_outcome
  write-some (intent id rpc payload now) t f fs = refl
  write-some (stage id b) t f fs = refl
  write-some (unstage id) t f fs = refl
  write-some (outcome id o now) t f fs = refl

  step :
      (w : Write sha256 codec) (t : Tables) (m : Phases)
      → ((j : Bytes) → phase t j ≡ m j)
      → (j : Bytes) → phase (write w (calm t)).tables j ≡ moved w m j
  step w t m h j =
      phase-write w t j ∙ ap (λ (p : Phase). if bytes_eq (target w) j then move w p else p) (h j)

  phases-play :
      (ws : List (Write sha256 codec)) (t : Tables) (fs : List (Option Fault)) (m : Phases)
      → ((j : Bytes) → phase t j ≡ m j)
      → (j : Bytes) → phase (play ws (on_faults t fs)).tables j ≡ play_phases ws fs m j
  phases-play [] t fs m h j = h j
  phases-play (w ∷ ws) t [] m h j =
      ap (λ (d : Disk). phase (play ws d).tables j) (write-calm w t)
      ∙ phases-play ws (write w (calm t)).tables [] (moved w m) (step w t m h) j
  phases-play (w ∷ ws) t (none ∷ fs) m h j =
      ap (λ (d : Disk). phase (play ws d).tables j) (write-none w t fs)
      ∙ phases-play ws (write w (calm t)).tables fs (moved w m) (step w t m h) j
  phases-play (w ∷ ws) t (some f ∷ fs) m h j =
      ap (λ (d : Disk). phase (play ws d).tables j) (write-some w t f fs)
      ∙ phases-play ws t fs m h j

  -- The journal implements the abstract phases: after any sequence of its writes, on a disk that may fail any of them, each id is
  -- in the phase that the abstract journal has it in after those writes that were not failed; a write moves one id alone.
  pub phase-play :
      (ws : List (Write sha256 codec)) (d : Disk) (j : Bytes)
      → phase (play ws d).tables j ≡ play_phases ws d.faults (phase d.tables) j
  phase-play ws d j = phases-play ws d.tables d.faults (phase d.tables) (λ i. refl) j
