-- ===== src/Rpc/Transactions.antt =====
-- src/rpc/transaction_service.cpp: ApplyPlan, and the handlers of GetTransaction, PostTransaction, UpdateTransaction and
-- DeleteTransaction, as they run on the engine thread.
pub mod Entered
pub mod Once
pub mod Response
pub mod Staged
use daichod.Base.{
  ℕ, Bool, true, false, not, Option, none, some, List, [], ◌∷◌, ◌++◌, map, if◌then◌else◌,
}
use daichod.Base.Int.{ℤ}
use daichod.Base.Text.{Bytes, str, empty, bytes_eq}
use daichod.Exec.{Result, ok, err, Exec, pure, ◌>>=◌, ◌>>◌}
use daichod.World.{World, Backend}
use daichod.Engine.Map.{refuse}
use daichod.Engine.Objects.{
  Objects, Call, trans_begin_edit, trans_commit_edit, trans_destroy, trans_set_currency,
  trans_set_date_posted, trans_set_date_entered, trans_set_num, trans_set_description,
  split_destroy, split_set_parent, split_set_account, split_set_value, split_set_amount,
  split_set_memo, split_set_action, split_set_reconcile,
}
use daichod.Engine.Convert.{find_account, find_commodity, find_transaction, transaction_to_proto}
use daichod.Engine.Session.{Session}
use daichod.Proto.{TransactionSpec}
use daichod.Rpc.Handler.{check, read, edit, alloc, commit, require_book}
use daichod.Rpc.Mutation.{Recorder}
use daichod.Rpc.Plan.{plan_transaction}
use daichod.Rpc.Plan.Types.{Lookups, SplitPlan, TransactionPlan, Keyed, and_then}

-- `engine_splits[guid] = split`
abbrev pub remember : {S : Type 0} → Keyed S → List (Keyed S) → List (Keyed S)
remember k [] = k ∷ []
remember k (j ∷ ks) = if bytes_eq j.key k.key then k ∷ ks else j ∷ remember k ks

-- The loop of PlanTransaction that fills engine_splits.
abbrev pub index_splits : {S : Type 0} → (S → Bytes) → List S → List (Keyed S) → List (Keyed S)
index_splits guid [] ks = ks
index_splits guid (s ∷ ss) ks =
    index_splits guid ss (remember (record { key = guid s; split = s }) ks)

-- RunRpc's and RunMutation's requests are messages; an empty response is the unit.
module _ {B G C A T S P : Type 0} (e : Objects B G C A T S P) where
  abbrev pub lookups_of : B → Lookups C A
  lookups_of b = record {
    find_commodity = find_commodity e b;
    is_currency = e.is_currency;
    find_account = find_account e b;
    is_valid_dmy = e.is_valid_dmy;
    show_date = e.show_date;
    show_index = e.show_index;
    flags = e.flags;
    numeric_add = e.numeric_add;
    numeric_is_ok = e.numeric_is_ok;
    numeric_is_zero = e.numeric_is_zero;
    numeric_text = e.numeric_text;
    now = e.now;
  }

  abbrev pub splits_of : B → T → List (Keyed S)
  splits_of b t = index_splits (λ s. e.guid_to_string (e.split_guid s)) (e.trans_splits b t) []

  -- Calls in order.
  unfoldable pub perform_all : List (Call C A T S P) → B → B
  perform_all [] b = b
  perform_all (c ∷ cs) b = perform_all cs (e.perform c b)

  abbrev pub doom : List S → List (Call C A T S P)
  doom ss = map split_destroy ss

  abbrev pub fill_split : S → SplitPlan A S → List (Call C A T S P)
  fill_split s p =
      split_set_account s p.account
      ∷ split_set_value s p.value
      ∷ split_set_amount s p.quantity
      ∷ split_set_memo s p.memo
      ∷ split_set_action s p.action
      ∷ split_set_reconcile s p.reconcile
      ∷ []

  -- The loop of ApplyPlan over the planned splits: a split that does not exist yet is made.
  unfoldable pub apply_splits : T → List (SplitPlan A S) → B → B
  apply_splits t [] b = b
  apply_splits t (p ∷ ps) b = apply_splits t ps (elim p.existing [
    | some s ↦ perform_all (fill_split s p) b
    | none ↦
        let made = e.malloc_split b in
        perform_all (split_set_parent made.0 t ∷ fill_split made.0 p) made.1
  ])

  -- ApplyPlan
  unfoldable pub apply_plan : T → TransactionPlan C A S → B → B
  apply_plan t plan b = apply_splits t plan.splits (
      perform_all
        (trans_set_currency t plan.currency
          ∷ trans_set_date_posted t plan.post_date
          ∷ trans_set_date_entered t plan.enter_time
          ∷ trans_set_num t plan.num
          ∷ trans_set_description t plan.description
          ∷ doom plan.doomed)
        b)

  module _ (backend : Backend B) (session : Session) where
    -- GetTransaction
    unfoldable pub get_transaction : Bytes → Exec (World B) TransactionSpec
    get_transaction guid = do
      check (require_book session)
      t ← check (λ b. find_transaction e b guid (str "guid"))
      read (λ b. transaction_to_proto e b t)

    -- The body of PostTransaction.
    unfoldable pub post_transaction :
        TransactionSpec → Recorder B TransactionSpec → Exec (World B) TransactionSpec
    post_transaction spec record_pending = do
      check (λ b.
          if empty spec.guid
          then ok tt
          else refuse (str "guid must be empty on create; the engine assigns")
              (str "transaction.guid"))
      check (require_book session)
      plan ← check (λ b. plan_transaction (lookups_of b) none spec)
      t ← alloc e.malloc_transaction
      edit (e.perform (trans_begin_edit t))
      edit (apply_plan t plan)
      out ← read (λ b. transaction_to_proto e b t)
      record_pending out
      commit backend (e.perform (trans_commit_edit t))
      pure out

    -- The body of UpdateTransaction.
    unfoldable pub update_transaction :
        TransactionSpec → Recorder B TransactionSpec → Exec (World B) TransactionSpec
    update_transaction spec record_pending = do
      check (λ b.
          if empty spec.guid
          then refuse (str "guid is required on update") (str "transaction.guid")
          else ok tt)
      check (require_book session)
      t ← check (λ b. find_transaction e b spec.guid (str "transaction.guid"))
      plan ← check (λ b. plan_transaction (lookups_of b) (some (splits_of b t)) spec)
      edit (e.perform (trans_begin_edit t))
      edit (apply_plan t plan)
      out ← read (λ b. transaction_to_proto e b t)
      record_pending out
      commit backend (e.perform (trans_commit_edit t))
      pure out

    -- The body of DeleteTransaction, whose response is empty.
    unfoldable pub delete_transaction : Bytes → Recorder B (Unit {0}) → Exec (World B) (Unit {0})
    delete_transaction guid record_pending = do
      check (require_book session)
      t ← check (λ b. find_transaction e b guid (str "guid"))
      record_pending tt
      edit (e.perform (trans_begin_edit t))
      edit (e.perform (trans_destroy t))
      commit backend (e.perform (trans_commit_edit t))
