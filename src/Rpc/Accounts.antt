-- ===== src/Rpc/Accounts.antt =====
-- src/rpc/account_service.cpp: the handlers of the accounts, as they run on the engine thread.
pub mod Staged
pub mod Response
pub mod Once
pub mod Reconciled
pub mod Cycle
pub mod Tree
use daichod.Base.{
  ℕ, zero, suc, Bool, true, false, not, ◌||◌, Option, none, some, List, [], ◌∷◌, ◌++◌, map, ltb,
  if◌then◌else◌,
}
use daichod.Base.Text.{Bytes, str, empty}
use daichod.Exec.{Result, ok, err, aborted, Exec, pure, ◌>>=◌, ◌>>◌}
use daichod.World.{World, Backend}
use daichod.Rpc.Error.{shim, account_not_empty}
use daichod.Engine.Map.{GDate, GncAccountType, refuse, account_type_from_proto, date_from_proto}
use daichod.Engine.Objects.{
  Objects, Call, account_begin_edit, account_commit_edit, account_destroy, account_set_name,
  account_set_code, account_set_description, account_set_type, account_set_commodity,
  account_set_placeholder, account_set_hidden, account_append_child,
  account_set_reconcile_last_date,
}
use daichod.Engine.Convert.{
  find_account, find_commodity, id_or_default, account_to_proto, reconcile_info_to_proto,
}
use daichod.Engine.Session.{Session}
use daichod.Proto.{Date, AccountSpec, ReconcileInfo}
use daichod.Rpc.Handler.{check, read, edit, alloc, commit, require_book}
use daichod.Rpc.Mutation.{Recorder}
use daichod.Rpc.Plan.Types.{and_then}
use daichod.Rpc.Transactions.{perform_all}

-- What CreateAccount and UpdateAccount look up before they edit.
pub record AccountPlan (C A : Type 0) : Type 0 where
  pub parent : A
  pub type_of : GncAccountType
  pub commodity : C

abbrev pub require : Bool → Bytes → Bytes → Result (Unit {0})
require true message context = ok tt
require false message context = refuse message context

module _ {B G C A T S P : Type 0} (e : Objects B G C A T S P) where
  -- The loop of CheckNoCycle, from a cursor on; `fuel` bounds the rounds, and `aborted` stands for a loop that goes on.
  unfoldable pub climb : ℕ → B → A → Bytes → Option A → Result (Unit {0})
  climb zero b account context cursor = aborted
  climb (suc fuel) b account context none = ok tt
  climb (suc fuel) b account context (some cursor) =
      let rest = climb fuel b account context (e.account_parent b cursor) in
      if e.same_account cursor account
      then refuse (str "parent_guid would create a cycle") context
      else rest

  -- CheckNoCycle
  abbrev pub check_no_cycle : ℕ → B → A → A → Bytes → Result (Unit {0})
  check_no_cycle fuel b account new_parent context = climb fuel b account context (some new_parent)

  -- CheckIsNotRoot
  abbrev pub check_is_not_root : A → A → Bytes → Result (Unit {0})
  check_is_not_root account root context =
      if e.same_account account root
      then refuse (str "the root account cannot be modified") context
      else ok tt

  -- The setters that CreateAccount and UpdateAccount call, in order.
  abbrev pub fill_account : A → AccountSpec → GncAccountType → C → List (Call C A T S P)
  fill_account a spec type_of commodity =
      account_set_name a spec.name
      ∷ account_set_type a type_of
      ∷ account_set_commodity a commodity
      ∷ account_set_code a spec.code
      ∷ account_set_description a spec.description
      ∷ account_set_placeholder a spec.placeholder
      ∷ account_set_hidden a spec.hidden
      ∷ []

  -- What CreateAccount looks up once the book is open.
  abbrev pub plan_create : B → AccountSpec → Result (AccountPlan C A)
  plan_create b spec =
      and_then (find_account e b spec.parent_guid (str "account.parent_guid")) (λ parent.
        and_then (account_type_from_proto spec.type_of (str "account.type")) (λ type_of.
          and_then (find_commodity e b (id_or_default spec.commodity) (str "account.commodity"))
            (λ commodity.
              ok (record { parent = parent; type_of = type_of; commodity = commodity }))))

  -- What UpdateAccount looks up and checks once it has the account.
  abbrev pub plan_update : ℕ → B → A → AccountSpec → Result (AccountPlan C A)
  plan_update fuel b account spec =
      and_then (check_is_not_root account (e.root_account b) (str "account.guid")) (λ _.
        and_then (account_type_from_proto spec.type_of (str "account.type")) (λ type_of.
          and_then (find_commodity e b (id_or_default spec.commodity) (str "account.commodity"))
            (λ commodity.
              and_then
                (require (not (empty spec.parent_guid))
                  (str "parent_guid is required (full replacement)") (str "account.parent_guid"))
                (λ _.
                  and_then (find_account e b spec.parent_guid (str "account.parent_guid"))
                    (λ parent.
                      and_then (check_no_cycle fuel b account parent (str "account.parent_guid"))
                        (λ _. ok (record {
                          parent = parent;
                          type_of = type_of;
                          commodity = commodity;
                        })))))))

  -- `new_parent != gnc_account_get_parent(account)`
  abbrev pub is_parent : B → A → A → Bool
  is_parent b parent account = elim (e.account_parent b account) [
    | none ↦ false
    | some p ↦ e.same_account parent p
  ]

  -- The edit of UpdateAccount, between begin and commit.
  unfoldable pub apply_update : A → AccountSpec → AccountPlan C A → B → B
  apply_update a spec plan b =
      let filled = perform_all e (fill_account a spec plan.type_of plan.commodity) b in
      if is_parent filled plan.parent a
      then filled
      else e.perform (account_append_child plan.parent a) filled

  -- What SetReconcileInfo checks once it has the account.
  abbrev pub required_last_date : Option Date → Result GDate
  required_last_date none = refuse (str "last_date is required") (str "last_date")
  required_last_date (some d) = date_from_proto e.is_valid_dmy e.show_date d (str "last_date")

  -- What DeleteAccount checks once it has the account.
  abbrev pub check_deletable : B → A → Bytes → Result (Unit {0})
  check_deletable b a guid = and_then (check_is_not_root a (e.root_account b) (str "guid")) (λ _.
      if e.account_has_splits b a || ltb 0 (e.account_n_children b a)
      then err (
          shim (record {
            code = account_not_empty;
            engine_message = str "account has splits or children";
            context = guid;
          }))
      else ok tt)

  module _ (backend : Backend B) (session : Session) where
    -- ListAccounts
    unfoldable pub list_accounts : Exec (World B) (List AccountSpec)
    list_accounts = do
      check (require_book session)
      read (λ b.
          account_to_proto e b (e.root_account b)
          ∷ map (account_to_proto e b) (e.descendants_sorted b (e.root_account b)))

    -- GetAccount
    unfoldable pub get_account : Bytes → Exec (World B) AccountSpec
    get_account guid = do
      check (require_book session)
      a ← check (λ b. find_account e b guid (str "guid"))
      read (λ b. account_to_proto e b a)

    -- GetReconcileInfo
    unfoldable pub get_reconcile_info : Bytes → Exec (World B) ReconcileInfo
    get_reconcile_info guid = do
      check (require_book session)
      a ← check (λ b. find_account e b guid (str "guid"))
      read (λ b. reconcile_info_to_proto e b a)

    -- The body of CreateAccount.
    unfoldable pub create_account :
        AccountSpec → Recorder B AccountSpec → Exec (World B) AccountSpec
    create_account spec record_pending = do
      check (λ b.
          require (empty spec.guid) (str "guid must be empty on create; the engine assigns")
            (str "account.guid"))
      check (λ b. require (not (empty spec.name)) (str "name is required") (str "account.name"))
      check (λ b.
          require (not (empty spec.parent_guid)) (str "parent_guid is required")
            (str "account.parent_guid"))
      check (require_book session)
      plan ← check (λ b. plan_create b spec)
      a ← alloc e.malloc_account
      edit (e.perform (account_begin_edit a))
      edit (perform_all e (fill_account a spec plan.type_of plan.commodity))
      edit (e.perform (account_append_child plan.parent a))
      out ← read (λ b. account_to_proto e b a)
      record_pending out
      commit backend (e.perform (account_commit_edit a))
      pure out

    -- The body of UpdateAccount.
    unfoldable pub update_account :
        ℕ → AccountSpec → Recorder B AccountSpec → Exec (World B) AccountSpec
    update_account fuel spec record_pending = do
      check (λ b.
          require (not (empty spec.guid)) (str "guid is required on update") (str "account.guid"))
      check (λ b. require (not (empty spec.name)) (str "name is required") (str "account.name"))
      check (require_book session)
      a ← check (λ b. find_account e b spec.guid (str "account.guid"))
      plan ← check (λ b. plan_update fuel b a spec)
      edit (e.perform (account_begin_edit a))
      edit (apply_update a spec plan)
      out ← read (λ b. account_to_proto e b a)
      record_pending out
      commit backend (e.perform (account_commit_edit a))
      pure out

    -- The body of DeleteAccount; xaccAccountDestroy commits the edit itself.
    unfoldable pub delete_account : Bytes → Recorder B (Unit {0}) → Exec (World B) (Unit {0})
    delete_account guid record_pending = do
      check (require_book session)
      a ← check (λ b. find_account e b guid (str "guid"))
      check (λ b. check_deletable b a guid)
      record_pending tt
      edit (e.perform (account_begin_edit a))
      commit backend (e.perform (account_destroy a))

    -- The body of SetReconcileInfo.
    unfoldable pub set_reconcile_info :
        Bytes → Option Date → Recorder B ReconcileInfo → Exec (World B) ReconcileInfo
    set_reconcile_info account_guid last_date record_pending = do
      check (require_book session)
      a ← check (λ b. find_account e b account_guid (str "account_guid"))
      date ← check (λ b. required_last_date last_date)
      edit (e.perform (account_begin_edit a))
      edit (e.perform (account_set_reconcile_last_date a (e.dmy2time64_neutral date)))
      out ← read (λ b. reconcile_info_to_proto e b a)
      record_pending out
      commit backend (e.perform (account_commit_edit a))
      pure out
