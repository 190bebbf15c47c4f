-- ===== src/Tests/Books.antt =====
-- The tree of accounts, the startup checks and the snapshots, on small inputs.
use daichod.Base.{
  ℕ, zero, suc, ◌≡◌, refl, true, false, none, some, List, [], ◌∷◌, All, length, if◌then◌else◌, ◌==◌,
  ◌≤◌, arith,
}
use daichod.Base.Int.{pos, ◌+ℤ◌}
use daichod.Base.Text.{Bytes, str, empty, bytes_eq}
use daichod.Base.Totals.{count_all, place, try_emplace, add_under}
use daichod.Exec.{ok}
use daichod.Backup.{
  exists, Disk, stamps_of, snapshot_before_open, size_of, assemble, copy_each, call, quietly,
  pruned,
}
use daichod.Backup.Atomic.{IsAtomic, snapshot-IsAtomic}
use daichod.Backup.Retention.{retention-bound}
use daichod.Engine.Checks.{run_startup_checks, trial_balance, values_by, imbalanced, check_sums}
use daichod.Engine.Checks.Healthy.{startup_checks-IsHealthy}
use daichod.Engine.Map.{account_type_from_proto}
use daichod.Engine.Convert.{account_to_proto, string_to_guid, find_account, find_commodity}
use daichod.Engine.Objects.{Call, account_append_child}
use daichod.Engine.Session.{book}
use daichod.Proto.{AccountSpec, bank}
use daichod.Rpc.Accounts.{climb, apply_update}
use daichod.Rpc.Accounts.Cycle.{update_account-IsForest}
use daichod.Rpc.Accounts.Tree.{TreeLaws, Lineage, IsForest, top, up, may_move}
use daichod.Rpc.Accounts.Staged.{stage_account, stage_update}
use daichod.Rpc.Mutation.Staged.{Staging}
use daichod.Rpc.Transactions.{perform_all}
use daichod.Tests.Handlers.{start, opened}
use daichod.Tests.Objects.{Book, toy, toy_perform}

unmoved :
    (c : Call ℕ ℕ ℕ ℕ ℕ) (b : Book) (x : ℕ)
    → may_move c ≡ false
    → (toy_perform c b).parents x ≡ b.parents x
unmoved (account_append_child p a) b x h = ground arith
unmoved _ b x h = refl

toy-TreeLaws : TreeLaws toy
toy-TreeLaws = record {
  same_refl = λ a. ground arith;
  same_eq = λ x y h. ground (arith, h);
  appended = λ b p a x. refl;
  parent_frame = λ b c x h. unmoved c b x h;
}

line_of : (a : ℕ) → (line : List ℕ) × Lineage toy start (some a) line
line_of zero = (0 ∷ [], up 0 [] top)
line_of (suc n) = (suc n ∷ 0 ∷ [], up (suc n) (0 ∷ []) (up 0 [] top))

abbrev under_three : AccountSpec
under_three = record {
  guid = 2 ∷ [];
  parent_guid = 3 ∷ [];
  name = b'n' ∷ [];
  type_of = bank;
  commodity = none;
  code = [];
  description = [];
  placeholder = false;
  hidden = false;
}

abbrev moved : Book
moved = record start {
  parents = λ x. if x == 2 then some 3 else start.parents x;
  names = λ x. if x == 2 then some (b'n' ∷ []) else start.names x;
}

abbrev the_move : Staging Book AccountSpec
the_move = stage_account toy opened (account_to_proto toy) 2 moved

the_move_lem : stage_update toy opened 5 under_three start ≡ ok the_move
unfolding stage_update apply_update perform_all climb string_to_guid find_account find_commodity
    account_type_from_proto empty book bytes_eq str
the_move_lem = refl

update_account-IsForest_example : IsForest toy the_move.final
update_account-IsForest_example =
    update_account-IsForest toy toy-TreeLaws opened 5 under_three start the_move the_move_lem
      line_of

checks_lem : run_startup_checks toy opened start ≡ ok tt
unfolding run_startup_checks imbalanced check_sums values_by count_all place try_emplace add_under
    empty book bytes_eq str ◌+ℤ◌
checks_lem = refl

startup_checks-IsHealthy_example :
    All
      (λ s. toy.numeric_is_zero (toy.imbalance_value start (toy.split_parent start s)) ≡ true)
      (toy.all_splits start)
    × All (λ x. toy.numeric_is_zero x.total ≡ true) (trial_balance toy start)
unfolding empty str
startup_checks-IsHealthy_example =
    startup_checks-IsHealthy toy opened start (λ t. refl) (λ c. refl) refl checks_lem

abbrev old_day : Bytes
old_day = str "2026-11-24"

abbrev new_day : Bytes
new_day = str "2026-11-25"

abbrev backups : Disk
backups = record {
  folders = record { name = old_day; is_directory = true; contents = [] } ∷ [];
  files =
      record { file_name = b'b' ∷ []; data_of = 1 ∷ [] }
      ∷ record { file_name = b'j' ∷ []; data_of = 2 ∷ [] }
      ∷ [];
  faults = [];
  blind = [];
}

abbrev keep_name : Bytes → Bytes
keep_name s = s

-- The copy of the journal fails.
abbrev failing : Disk
failing = record backups { faults = none ∷ none ∷ none ∷ some (str "no space") ∷ [] }

snapshot-IsAtomic_example :
    IsAtomic keep_name new_day
      (b'b' ∷ [])
      (b'j' ∷ [])
      []
      (pos 1)
      failing
      (snapshot_before_open keep_name new_day (b'b' ∷ []) (b'j' ∷ []) [] (pos 1) failing)
unfolding bytes_eq str
snapshot-IsAtomic_example =
    snapshot-IsAtomic keep_name new_day (b'b' ∷ []) (b'j' ∷ []) [] (pos 1) failing refl refl

taken_lem :
    (snapshot_before_open keep_name new_day (b'b' ∷ []) (b'j' ∷ []) [] (pos 1) backups).0 ≡ ok true
unfolding snapshot_before_open pruned assemble copy_each call quietly exists bytes_eq str
taken_lem = refl

retention-bound_example :
    length (
      stamps_of
        (snapshot_before_open keep_name new_day
          (b'b' ∷ [])
          (b'j' ∷ [])
          []
          (pos 1)
          backups).1.folders)
    ≤ size_of (pos 1)
retention-bound_example =
    retention-bound keep_name new_day (b'b' ∷ []) (b'j' ∷ []) [] (pos 1) backups refl taken_lem
