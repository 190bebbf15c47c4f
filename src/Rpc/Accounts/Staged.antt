-- ===== src/Rpc/Accounts/Staged.antt =====
-- The mutating handlers of accounts, as stagings.
use daichod.Base.{ℕ, not, ◌≡◌, ap, Option}
use daichod.Base.Text.{Bytes, str, empty}
use daichod.Exec.{Result, ok, continue}
use daichod.World.{World, Backend}
use daichod.Engine.Map.{GDate}
use daichod.Engine.Objects.{
  Objects, account_begin_edit, account_commit_edit, account_destroy, account_append_child,
  account_set_reconcile_last_date,
}
use daichod.Engine.Convert.{find_account, account_to_proto, reconcile_info_to_proto}
use daichod.Engine.Session.{Session}
use daichod.Proto.{Date, AccountSpec, ReconcileInfo}
use daichod.Rpc.Handler.{require_book, KeepsBook}
use daichod.Rpc.Handler.Steps.{check_then, after_record}
use daichod.Rpc.Mutation.{Recorder}
use daichod.Rpc.Mutation.Staged.{Staging, staged, decide}
use daichod.Rpc.Plan.Types.{and_then}
use daichod.Rpc.Transactions.{perform_all}
use daichod.Rpc.Accounts.{
  AccountPlan, require, plan_create, plan_update, fill_account, apply_update, required_last_date,
  check_deletable, create_account, update_account, delete_account, set_reconcile_info,
}

module _ {B G C A T S P : Type 0} (e : Objects B G C A T S P) (session : Session) where
  -- An open edit of an account, read back by a conversion.
  abbrev pub stage_account : {R : Type 0} → (B → A → R) → A → B → Staging B R
  stage_account to_proto a edited = record {
    response = to_proto edited a;
    edited = edited;
    final = e.perform (account_commit_edit a) edited;
  }

  abbrev pub created : AccountSpec → AccountPlan C A → B → B
  created spec plan b =
      let made = e.malloc_account b in
      e.perform (account_append_child plan.parent made.0) (
        perform_all e (fill_account e made.0 spec plan.type_of plan.commodity)
          (e.perform (account_begin_edit made.0) made.1))

  abbrev pub dated : A → GDate → B → B
  dated a date b =
      e.perform (account_set_reconcile_last_date a (e.dmy2time64_neutral date))
        (e.perform (account_begin_edit a) b)

  abbrev pub destroyed : A → B → Staging B (Unit {0})
  destroyed a b = record {
    response = tt;
    edited = b;
    final = e.perform (account_destroy a) (e.perform (account_begin_edit a) b);
  }

  unfoldable pub stage_create : AccountSpec → B → Result (Staging B AccountSpec)
  stage_create spec b =
      and_then
        (require (empty spec.guid) (str "guid must be empty on create; the engine assigns")
          (str "account.guid"))
        (λ _.
          and_then (require (not (empty spec.name)) (str "name is required") (str "account.name"))
            (λ _.
              and_then
                (require (not (empty spec.parent_guid)) (str "parent_guid is required")
                  (str "account.parent_guid"))
                (λ _. and_then (require_book session b) (λ _.
                  and_then (plan_create e b spec) (λ plan. ok (
                    stage_account (account_to_proto e) (e.malloc_account b).0
                      (created spec plan b)))))))

  unfoldable pub stage_update : ℕ → AccountSpec → B → Result (Staging B AccountSpec)
  stage_update fuel spec b =
      and_then
        (require (not (empty spec.guid)) (str "guid is required on update") (str "account.guid"))
        (λ _.
          and_then (require (not (empty spec.name)) (str "name is required") (str "account.name"))
            (λ _. and_then (require_book session b) (λ _.
              and_then (find_account e b spec.guid (str "account.guid")) (λ a.
                and_then (plan_update e fuel b a spec) (λ plan. ok (
                  stage_account (account_to_proto e) a
                    (apply_update e a spec plan (e.perform (account_begin_edit a) b))))))))

  unfoldable pub stage_delete : Bytes → B → Result (Staging B (Unit {0}))
  stage_delete guid b = and_then (require_book session b) (λ _.
      and_then (find_account e b guid (str "guid"))
        (λ a. and_then (check_deletable e b a guid) (λ _. ok (destroyed a b))))

  unfoldable pub stage_set_reconcile_info :
      Bytes → Option Date → B → Result (Staging B ReconcileInfo)
  stage_set_reconcile_info guid last_date b = and_then (require_book session b) (λ _.
      and_then (find_account e b guid (str "account_guid")) (λ a.
        and_then (required_last_date e last_date)
          (λ date. ok (stage_account (reconcile_info_to_proto e) a (dated a date b)))))

  module _ (backend : Backend B) where
    -- From the open edit on: the response, the record, the commit.
    finish_account :
        {R : Type 0} (to_proto : B → A → R) (a : A) (record_pending : Recorder B R)
        → KeepsBook record_pending
        → (w : World B) (edited : B)
        → continue (record_pending (to_proto edited a) (record w { live = edited })) (λ _ v. (
          ok (to_proto edited a),
          record v {
            live = e.perform (account_commit_edit a) v.live;
            saved = backend.commit v.saved (e.perform (account_commit_edit a) v.live);
          },
        ))
          ≡ decide backend (ok (stage_account to_proto a edited)) record_pending w
    finish_account to_proto a record_pending keeps w edited =
        after_record backend record_pending
          (record_pending (to_proto edited a) (record w { live = edited }))
          (e.perform (account_commit_edit a)) _ (to_proto edited a)
          (ap (e.perform (account_commit_edit a))
            (keeps (to_proto edited a) (record w { live = edited })))

    pub create_account-staged :
        (spec : AccountSpec) (record_pending : Recorder B AccountSpec)
        → KeepsBook record_pending
        → (w : World B)
        → create_account e backend session spec record_pending w
          ≡ staged backend (stage_create spec) record_pending w
    unfolding create_account stage_create
    create_account-staged spec record_pending keeps w =
        check_then backend record_pending
          (require (empty spec.guid) (str "guid must be empty on create; the engine assigns")
            (str "account.guid"))
          w _ _
          (λ _.
            check_then backend record_pending
              (require (not (empty spec.name)) (str "name is required") (str "account.name")) w _ _
              (λ _.
                check_then backend record_pending
                  (require (not (empty spec.parent_guid)) (str "parent_guid is required")
                    (str "account.parent_guid"))
                  w _ _
                  (λ _. check_then backend record_pending (require_book session w.live) w _ _ (λ _.
                    check_then backend record_pending (plan_create e w.live spec) w _ _ (λ plan.
                      finish_account (account_to_proto e) (e.malloc_account w.live).0 record_pending
                        keeps w (created spec plan w.live))))))

    pub update_account-staged :
        (fuel : ℕ) (spec : AccountSpec) (record_pending : Recorder B AccountSpec)
        → KeepsBook record_pending
        → (w : World B)
        → update_account e backend session fuel spec record_pending w
          ≡ staged backend (stage_update fuel spec) record_pending w
    unfolding update_account stage_update
    update_account-staged fuel spec record_pending keeps w =
        check_then backend record_pending
          (require (not (empty spec.guid)) (str "guid is required on update") (str "account.guid"))
          w _ _
          (λ _.
            check_then backend record_pending
              (require (not (empty spec.name)) (str "name is required") (str "account.name")) w _ _
              (λ _. check_then backend record_pending (require_book session w.live) w _ _ (λ _.
                check_then backend record_pending
                  (find_account e w.live spec.guid (str "account.guid")) w _ _
                  (λ a.
                    check_then backend record_pending (plan_update e fuel w.live a spec) w _ _
                      (λ plan.
                        finish_account (account_to_proto e) a record_pending keeps w (
                          apply_update e a spec plan (e.perform (account_begin_edit a) w.live)))))))

    pub delete_account-staged :
        (guid : Bytes) (record_pending : Recorder B (Unit {0}))
        → KeepsBook record_pending
        → (w : World B)
        → delete_account e backend session guid record_pending w
          ≡ staged backend (stage_delete guid) record_pending w
    unfolding delete_account stage_delete
    delete_account-staged guid record_pending keeps w =
        check_then backend record_pending (require_book session w.live) w _ _ (λ _.
          check_then backend record_pending (find_account e w.live guid (str "guid")) w _ _ (λ a.
            check_then backend record_pending (check_deletable e w.live a guid) w _ _ (λ _.
              after_record backend record_pending (record_pending tt w)
                (λ b. e.perform (account_destroy a) (e.perform (account_begin_edit a) b)) _ tt
                (ap (λ b. e.perform (account_destroy a) (e.perform (account_begin_edit a) b))
                  (keeps tt w)))))

    pub set_reconcile_info-staged :
        (guid : Bytes) (last_date : Option Date) (record_pending : Recorder B ReconcileInfo)
        → KeepsBook record_pending
        → (w : World B)
        → set_reconcile_info e backend session guid last_date record_pending w
          ≡ staged backend (stage_set_reconcile_info guid last_date) record_pending w
    unfolding set_reconcile_info stage_set_reconcile_info
    set_reconcile_info-staged guid last_date record_pending keeps w =
        check_then backend record_pending (require_book session w.live) w _ _ (λ _.
          check_then backend record_pending (find_account e w.live guid (str "account_guid")) w _ _
            (λ a. check_then backend record_pending (required_last_date e last_date) w _ _ (λ date.
              finish_account (reconcile_info_to_proto e) a record_pending keeps w
                (dated a date w.live))))
