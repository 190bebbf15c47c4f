-- ===== src/Tests/Boot.antt =====
-- A start and a stop of the daemon on a journal with pending rows.
use daichod.Base.{◌↔◌, ◌≡◌, refl, true, none, some, []}
use daichod.Base.Int.{pos, ◌+ℤ◌}
use daichod.Base.Text.{str, empty, bytes_eq, starts_with}
use daichod.Base.Totals.{count_all, place, try_emplace, add_under}
use daichod.Base.Sort.{sort_by, insert_by}
use daichod.Exec.{ok}
use daichod.Engine.Checks.{run_startup_checks, imbalanced, check_sums, values_by}
use daichod.Engine.Session.{close_session, no_err, open_session, book}
use daichod.Journal.{
  record_outcome, insert_applied, clear_pending, set_pending, list_indeterminate,
  list_pending_unresolved,
}
use daichod.Journal.Phase.{calm}
use daichod.Journal.Opening
use daichod.Journal.Opening.{open_journal, exec_all, exec}
use daichod.Journal.Recovery.{reconcile_pending_mutations, settle_entries}
use daichod.Startup.{Options}
use daichod.Startup.Run.Released.{IsReleased, run-IsReleased}
use daichod.Startup.Run.{
  run, exits, Ending, System, Surroundings, taken, boot, acquire_locks, acquire_one_lock,
}
use daichod.Startup.Run.Ready.{IsReady, boot-IsReady}
use daichod.Uri.{has_supported_scheme}
use daichod.Tests.Handlers.{start, opened}
use daichod.Tests.Journal.{three_rows, three_rows-IsValid}
use daichod.Tests.Objects.{Book, toy}
use daichod.Tests.Sessions.{answer, calm_open}
use daichod.Tests.Toy.{toy_outcomes}

abbrev settings : Options
settings = record {
  book_uri = str "sqlite3://b";
  socket_path = str "/s";
  journal_path = str "j";
  backup_dir = [];
  backup_keep_days = pos 14;
  read_only = true;
  queue_depth = 256;
}

abbrev machine : Surroundings Book
machine = record {
  lock = λ p. taken;
  what = λ x. [];
  today = [];
  filename = λ p. p;
  parent_path = λ p. p;
  join_paths = λ p q. q;
  sha256 = λ p. p;
  database = Opening.opened;
  answers = calm_open;
  loaded = start;
  listens = true;
  serve = λ s. s;
  fail_point = none;
  save = answer no_err;
}

abbrev before : System Book
before = record {
  backups = record { folders = []; files = []; faults = []; blind = [] };
  sqlite = record { handles = 0; executed = []; faults = [] };
  journal = calm three_rows;
  session = opened;
  book = start;
}

abbrev serving : System Book
serving = (boot toy machine toy_outcomes (λ b e. some true) (λ e. 40) settings before).1

serving_lem :
    boot toy machine toy_outcomes (λ b e. some true) (λ e. 40) settings before ≡ (none, serving)
unfolding open_journal exec_all exec boot acquire_locks acquire_one_lock empty open_session
    has_supported_scheme starts_with str run_startup_checks book imbalanced check_sums count_all
    values_by add_under try_emplace place bytes_eq ◌+ℤ◌ reconcile_pending_mutations settle_entries
    list_pending_unresolved list_indeterminate record_outcome insert_applied insert_by sort_by
    clear_pending set_pending
serving_lem = refl

boot-IsReady_example :
    IsReady toy machine toy_outcomes
      (λ b e. some true)
      (λ e. 40)
      settings
      three_rows
      before.sqlite
      serving
boot-IsReady_example =
    boot-IsReady toy machine toy_outcomes (λ b e. some true) (λ e. 40) settings before serving
      three_rows refl three_rows-IsValid serving_lem

abbrev stopped : Ending × System Book
stopped = run toy machine toy_outcomes (λ b e. some true) (λ e. 40) settings before

run-IsReleased_example :
    IsReleased before stopped.1
    × ((stopped.0 ≡ exits 0) ↔ ((close_session none (answer no_err) serving.session).0 ≡ ok tt))
run-IsReleased_example =
    run-IsReleased toy machine toy_outcomes (λ b e. some true) (λ e. 40) settings before serving
      (λ u c. c) (λ u. refl) serving_lem
