-- ===== src/Rpc/Mutation/Keeps.antt =====
-- What every run of the protocol keeps of the journal, whatever SQLite fails, wherever the process
-- dies, and whatever apply() does to the book.
use daichod.Base.{
  first-snoc, sym, subst, ◌≡◌, Bool, true, false, Option, none, some, if◌then◌else◌, arith,
}
use daichod.Base.Codec.{Codec}
use daichod.Base.Text.{Bytes}
use daichod.Exec.{recover, continue, Result, ok, err, aborted, Exec, pure, throw, catch_shim, ◌>>=◌}
use daichod.World.{
  World, Backend, CrashPoint, on_disk, crash_point_maybe, after_intent, commit_edit,
}
use daichod.Journal.Phase.{phase, resolved}
use daichod.Journal.Phase.Refinement.{new_intent}
use daichod.Journal.Rows.{applied-insert_or_ignore}
use daichod.Rpc.Mutation.Staged.{decide, Staging, staged, submit}
use daichod.Journal.Invariant.{
  statement-keeps, IsValid, write-IsValid, unstage, Write, write, intent, stage, outcome,
}
use daichod.Journal.{
  applied_has, clear_pending, Outcome, Tables, Disk, record_intent, get_outcome, record_pending,
  record_outcome,
}
use daichod.Rpc.Error.{Exception, ShimError, shim, is_deterministic_verdict}
use daichod.Rpc.Mutation.{
  Request, Recorder, run_mutation, validate_mutation_id, pending_recorder, replay, on_shim_error,
  execute,
}

module _ {B : Type 0} (P : Tables → Type 0) where
  -- `m` keeps `P` of the journal, whether it returns, throws or dies.
  pub record Keeps {A : Type 0} (m : Exec (World B) A) : Type 0 where
    pub at : (w : World B) → P w.disk.tables → P (m w).1.disk.tables

module _ {B : Type 0} {P : Tables → Type 0} {A : Type 0} where
  Keeps-pure : (a : A) → Keeps {B = B} P (pure a)
  Keeps-pure a = record { at = λ w h. h }

  Keeps-throw : (e : Exception) → Keeps {B = B} P (throw {A = A} e)
  Keeps-throw e = record { at = λ w h. h }

  Keeps-on_disk :
      (m : Exec Disk A) → ((d : Disk) → P d.tables → P (m d).1.tables) → Keeps {B = B} P (on_disk m)
  Keeps-on_disk m h = record { at = λ w k. h w.disk k }

  Keeps-if :
      (b : Bool) (m n : Exec (World B) A) → Keeps P m → Keeps P n → Keeps P (if b then m else n)
  Keeps-if true m n km kn = km
  Keeps-if false m n km kn = kn

  recover-keeps :
      (r : Result A) (w : World B) (h : ShimError → Exec (World B) A)
      → P w.disk.tables
      → ((e : ShimError) → Keeps P (h e))
      → P (recover (r, w) h).1.disk.tables
  recover-keeps (ok a) w h k kh = k
  recover-keeps (err (shim e)) w h k kh = (kh e).at w k
  recover-keeps (err e) w h k kh = k
  recover-keeps aborted w h k kh = k

  Keeps-catch :
      (m : Exec (World B) A) (h : ShimError → Exec (World B) A)
      → Keeps P m
      → ((e : ShimError) → Keeps P (h e))
      → Keeps P (catch_shim m h)
  Keeps-catch m h km kh = record {
    at = λ w k. let (r, w') = m w in recover-keeps r w' h (km.at w k) kh;
  }

  module _ {C : Type 0} where
    continue-keeps :
        (r : Result C) (w : World B) (f : C → Exec (World B) A)
        → P w.disk.tables
        → ((c : C) → Keeps P (f c))
        → P (continue (r, w) f).1.disk.tables
    continue-keeps (ok c) w f k kf = (kf c).at w k
    continue-keeps (err e) w f k kf = k
    continue-keeps aborted w f k kf = k

    Keeps-bind :
        (m : Exec (World B) C) (f : C → Exec (World B) A)
        → Keeps P m
        → ((c : C) → Keeps P (f c))
        → Keeps P (m >>= f)
    Keeps-bind m f km kf = record {
      at = λ w k. let (r, w') = m w in continue-keeps r w' f (km.at w k) kf;
    }

module _ {B : Type 0} {P : Tables → Type 0} where
  Keeps-crash_point :
      (target : Option CrashPoint) (p : CrashPoint) → Keeps {B = B} P (crash_point_maybe target p)
  Keeps-crash_point none p = record { at = λ w h. h }
  Keeps-crash_point (some target) p = record { at = λ w h. ground arith }

  Keeps-validate : (id : Bytes) → Keeps {B = B} P (validate_mutation_id id)
  unfolding validate_mutation_id
  Keeps-validate id = record { at = λ w h. ground arith }

pub get_outcome-tables :
    (outcomes : Codec Outcome) (id : Bytes) (d : Disk)
    → (get_outcome outcomes id d).1.tables ≡ d.tables
unfolding get_outcome
get_outcome-tables outcomes id d = ground arith

-- What each write of the journal keeps, each run keeps.
module _ {B R : Type 0} (P : Tables → Type 0) (sha256 : Bytes → Bytes) (outcomes : Codec Outcome)
    (responses : Codec R) (q : Request) (apply : Recorder B R → Exec (World B) R)
    (writes : (w : Write sha256 outcomes) (d : Disk) → P d.tables → P (write w d).tables)
    (applies : (rec : Recorder B R) → ((r : R) → Keeps P (rec r)) → Keeps P (apply rec)) where
  Keeps-record_outcome :
      (o : Outcome) → Keeps {B = B} P (on_disk (record_outcome outcomes q.mutation_id o q.now))
  Keeps-record_outcome o = Keeps-on_disk _ (writes (outcome q.mutation_id o q.now))

  Keeps-on_shim_error :
      (e : ShimError) → Keeps P (on_shim_error {B = B} sha256 outcomes responses q e)
  Keeps-on_shim_error e =
      Keeps-bind _ _
        (Keeps-if (is_deterministic_verdict e.code) _ _ (Keeps-record_outcome _) (Keeps-pure tt))
        (λ _. Keeps-throw (shim e))

  Keeps-recorder : (r : R) → Keeps P (pending_recorder {B = B} sha256 outcomes responses q r)
  Keeps-recorder r =
      Keeps-bind _ _ (Keeps-on_disk _ (writes (stage q.mutation_id (responses.serialize r))))
        (λ _. Keeps-crash_point q.crash_at _)

  Keeps-execute : Keeps P (execute sha256 outcomes responses q apply)
  Keeps-execute =
      Keeps-bind _ _
        (Keeps-catch _ _
          (Keeps-bind _ _ (applies _ Keeps-recorder)
            (λ r. Keeps-bind _ _ (Keeps-crash_point q.crash_at _) (λ _. Keeps-pure r)))
          Keeps-on_shim_error)
        (λ r.
          Keeps-bind _ _ (Keeps-record_outcome _)
            (λ _. Keeps-bind _ _ (Keeps-crash_point q.crash_at _) (λ _. Keeps-pure r)))

  Keeps-replay : (o : Outcome) → Keeps P (replay {B = B} sha256 outcomes responses q o)
  Keeps-replay o = record { at = λ w h. ground arith }

  Keeps-answer :
      (recorded : Option Outcome)
      → Keeps P (elim recorded [
        | some o ↦ replay sha256 outcomes responses q o
        | none ↦ execute sha256 outcomes responses q apply
      ])
  Keeps-answer none = Keeps-execute
  Keeps-answer (some o) = Keeps-replay o

  pub Keeps-run_mutation : Keeps P (run_mutation sha256 outcomes responses q apply)
  unfolding run_mutation
  Keeps-run_mutation = Keeps-bind _ _ (Keeps-validate q.mutation_id) (λ _.
      Keeps-bind _ _
        (Keeps-on_disk (record_intent sha256 q.mutation_id q.rpc_name q.payload q.now)
          (writes (intent q.mutation_id q.rpc_name q.payload q.now)))
        (λ _. Keeps-bind _ _ (Keeps-crash_point q.crash_at after_intent) (λ _.
          Keeps-bind _ _
            (Keeps-on_disk (get_outcome outcomes q.mutation_id)
              (λ d h. subst P (sym (get_outcome-tables outcomes q.mutation_id d)) h))
            Keeps-answer)))

-- The journal's two promises, as predicates of the tables.
abbrev pub IsRecorded : Bytes → Bytes → Tables → Type 0
IsRecorded id o t = phase t id ≡ resolved o

module _ {sha256 : Bytes → Bytes} {codec : Codec Outcome} where
  pub write-IsRecorded :
      (id o : Bytes) (w : Write sha256 codec) (d : Disk)
      → IsRecorded id o d.tables
      → IsRecorded id o (write w d).tables
  unfolding record_intent record_pending clear_pending record_outcome
  write-IsRecorded id o (intent j rpc payload now) d h =
      statement-keeps (IsRecorded id o) _ d h
        (ground (arith, applied-insert_or_ignore (new_intent sha256 j rpc payload now) d.tables))
  write-IsRecorded id o (stage j b) d h = statement-keeps (IsRecorded id o) _ d h (ground arith)
  write-IsRecorded id o (unstage j) d h = statement-keeps (IsRecorded id o) _ d h (ground arith)
  write-IsRecorded id o (outcome j x now) d h = statement-keeps (IsRecorded id o) _ d h (
      ground (
        arith,
        first-snoc (applied_has id) d.tables.applied
            (record { mutation_id = j; outcome = codec.serialize x; applied_at_utc = now }),
      ))

module _ {B R : Type 0} (sha256 : Bytes → Bytes) (outcomes : Codec Outcome) (responses : Codec R)
    (backend : Backend B) (stage : B → Result (Staging B R)) (q : Request) (w : World B) where
  abbrev pub tables_after : Tables
  tables_after = (submit sha256 outcomes responses backend q stage w).1.disk.tables

  Keeps-decide :
      (P : Tables → Type 0) (rec : Recorder B R)
      → ((r : R) → Keeps P (rec r))
      → (v : World B) (decided : Result (Staging B R)) → P v.disk.tables
      → P (decide backend decided rec v).1.disk.tables
  Keeps-decide P rec keeps v (ok s) h =
      (Keeps-bind (rec s.response) _ (keeps s.response) (λ _.
          Keeps-bind (commit_edit backend s.final) _ (record { at = λ x k. k })
            (λ _. Keeps-pure s.response))).at
        (record v { live = s.edited }) h
  Keeps-decide P rec keeps v (err e) h = h
  Keeps-decide P rec keeps v aborted h = h

  staged-Keeps :
      (P : Tables → Type 0) (rec : Recorder B R)
      → ((r : R) → Keeps P (rec r))
      → Keeps P (staged backend stage rec)
  staged-Keeps P rec keeps = record { at = λ v h. Keeps-decide P rec keeps v (stage v.live) h }

  -- Whatever the request, the faults of the disk and the point of death: a recorded outcome stays as it
  -- is, of this id or another, and the keys and the reference of the tables hold.
  pub run-keeps_journal :
      ((id o : Bytes) → IsRecorded id o w.disk.tables → IsRecorded id o tables_after)
      × (IsValid w.disk.tables → IsValid tables_after)
  run-keeps_journal = (
    λ id o.
        (Keeps-run_mutation (IsRecorded id o) sha256 outcomes responses q (staged backend stage)
            (write-IsRecorded id o) (staged-Keeps (IsRecorded id o))).at
          w,
    (Keeps-run_mutation IsValid sha256 outcomes responses q (staged backend stage) write-IsValid
          (staged-Keeps IsValid)).at
        w,
  )
