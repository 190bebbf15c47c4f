-- ===== src/Rpc/Mutation/Staged/Anew.antt =====
-- A crash at any point of the protocol, where the retry's handler draws another clock and other GUIDs than the run that died.
use daichod.Base.{Bool, ℕ, ◌≡◌, true, false, Option, sym, subst}
use daichod.Base.Text.{Bytes}
use daichod.Base.Codec.{Codec}
use daichod.Exec.{Result, ok}
use daichod.World.{World, Backend, CrashPoint, restart}
use daichod.Journal.{Tables, Outcome, PendingEntry}
use daichod.Rpc.Mutation.{Request}
use daichod.Rpc.Mutation.Staged.{Staging, submit}
use daichod.Rpc.Mutation.Staged.Runs.{on_calm}
use daichod.Rpc.Mutation.Staged.ExactlyOnce.{
  Meets, IsDone, recover, retry_of, recovered_runs, recovered_replays, first_run_stops,
  dies_uncommitted,
}

-- Of what the first run drew and what the retry drew, the one that lasts.
abbrev pub lasting : {X : Type 0} → Option CrashPoint → X → X → X
lasting o first again = elim (dies_uncommitted o) [ true ↦ again | false ↦ first ]

module _ {B R : Type 0} (sha256 : Bytes → Bytes) (outcomes : Codec Outcome) (responses : Codec R)
    (backend : Backend B) (was_applied : B → PendingEntry → Option Bool) (now : PendingEntry → ℕ)
    (apply again : B → Result (Staging B R)) (q : Request) (later : ℕ) (t : Tables) (before : B)
    (s s' : Staging B R) where
  -- The client has the response of a staging, the book holds its edit once, and the id is resolved.
  abbrev pub IsDoneAs : Staging B R → Result R × World B → Type 0
  IsDoneAs kept =
      IsDone sha256 outcomes responses backend was_applied now again q later t before kept.edited
        kept.final kept.response

  -- The restart with the reconciliation, and the retry with what it draws.
  abbrev run_on : World B → Result R × World B
  run_on w =
      submit sha256 outcomes responses backend (retry_of q later) again
        (recover outcomes was_applied now (restart w)).1

  abbrev pub both_runs : Result R × World B
  both_runs = run_on (submit sha256 outcomes responses backend q apply (on_calm t before before)).1

  -- What lasts, by whether the first run dies before it commits.
  abbrev lasting_if : Bool → Staging B R
  lasting_if dropped = elim dropped [ true ↦ s' | false ↦ s ]

  -- At whichever crash point the process dies in the first run, if it does: what lasts is the retry's if it died before its
  -- commit, and its own if not; the client has that response, and the book holds that edit once.
  pub done_anew :
      Meets sha256 outcomes responses backend was_applied now apply q later t before s.edited
        s.final s.response
      → again before ≡ ok s'
      → IsDoneAs (lasting q.crash_at s s') both_runs
  done_anew m decided_again =
      first_run_stops sha256 outcomes responses backend was_applied now apply q later t before
        s.edited s.final s.response m (λ w. IsDoneAs (lasting q.crash_at s s') (run_on w))
        (λ dropped t' live v h.
          subst (λ b. IsDoneAs (lasting_if b) (run_on (on_calm t' live before))) (sym dropped)
            (recovered_runs sha256 outcomes responses backend was_applied now again q later t before
              s'.edited s'.final s'.response m.is_valid decided_again t' live v h))
        (λ kept t' o live v h good same.
          subst (λ b. IsDoneAs (lasting_if b) (run_on (on_calm t' live s.final))) (sym kept)
            (recovered_replays sha256 outcomes responses backend was_applied now again q later t
              before s.edited s.final s.response m.is_valid t' o live v h good same))
