-- ===== src/Rpc/Accounts/Cycle.antt =====
-- UpdateAccount and the tree of the accounts.
use daichod.Base.{not, ℕ, ◌≡◌, refl, sym, subst, some, arith}
use daichod.Base.Text.{empty, str}
use daichod.Exec.{Result, ok, err, aborted}
use daichod.Engine.Map.{account_type_from_proto}
use daichod.Engine.Objects.{Objects, account_begin_edit, account_commit_edit}
use daichod.Engine.Session.{Session}
use daichod.Proto.{AccountSpec}
use daichod.Rpc.Plan.Types.{and_then}
use daichod.Rpc.Accounts.{
  find_account, id_or_default, require_book, find_commodity, check_is_not_root, require,
  AccountPlan, check_no_cycle, apply_update, plan_update,
}
use daichod.Rpc.Mutation.Staged.{Staging}
use daichod.Rpc.Accounts.Tree.{
  TreeLaws, IsForest, climb-ok, Lineage-frame, same-IsForest, apply_update-IsForest,
}
use daichod.Rpc.Accounts.Staged.{stage_update}

-- Goes on with what a step has returned.
then_ok :
    {X Y : Type 0} {Goal : Type 0} (r : Result X) (f : X → Result Y) (y : Y)
    → ((x : X) → r ≡ ok x → f x ≡ ok y → Goal)
    → and_then r f ≡ ok y
    → Goal
then_ok (ok x) f y k h = k x refl h
then_ok (err e) f y k h = ground arith
then_ok aborted f y k h = ground arith

module _ {B G C A T S P : Type 0} (e : Objects B G C A T S P) where
  module _ (laws : TreeLaws e) where
    -- What UpdateAccount has checked when it edits.
    plan_update-checks :
        (fuel : ℕ) (b : B) (a : A) (spec : AccountSpec) (plan : AccountPlan C A)
        → plan_update e fuel b a spec ≡ ok plan
        → check_no_cycle e fuel b a plan.parent (str "account.parent_guid") ≡ ok tt
    plan_update-checks fuel b a spec plan =
        then_ok (check_is_not_root e a (e.root_account b) (str "account.guid")) _ plan (λ _ _.
          then_ok (account_type_from_proto spec.type_of (str "account.type")) _ plan (λ t _.
            then_ok (find_commodity e b (id_or_default spec.commodity) (str "account.commodity")) _
              plan
              (λ c _.
                then_ok
                  (require (not (empty spec.parent_guid))
                    (str "parent_guid is required (full replacement)") (str "account.parent_guid"))
                  _ plan
                  (λ _ _.
                    then_ok (find_account e b spec.parent_guid (str "account.parent_guid")) _ plan
                      (λ parent _.
                        then_ok (check_no_cycle e fuel b a parent (str "account.parent_guid")) _
                          plan (λ _ checked h. ground (arith, checked, h)))))))

    update_decided :
        (session : Session) (fuel : ℕ) (spec : AccountSpec) (b : B) (s : Staging B AccountSpec)
        → stage_update e session fuel spec b ≡ ok s
        → (a : A) × (plan : AccountPlan C A) × (plan_update e fuel b a spec ≡ ok plan)
          × (s.final
              ≡ e.perform
                  (account_commit_edit a)
                  (apply_update e a spec plan (e.perform (account_begin_edit a) b)))
    unfolding stage_update
    update_decided session fuel spec b s =
        then_ok
          (require (not (empty spec.guid)) (str "guid is required on update") (str "account.guid"))
          _ s
          (λ _ _.
            then_ok (require (not (empty spec.name)) (str "name is required") (str "account.name"))
              _ s
              (λ _ _. then_ok (require_book session b) _ s (λ _ _.
                then_ok (find_account e b spec.guid (str "account.guid")) _ s (λ a _.
                  then_ok (plan_update e fuel b a spec) _ s
                    (λ plan planned h. (a, plan, planned, ground (arith, h)))))))

    -- Where every account has a line of ancestors that ends, every account still has one after UpdateAccount's commit.
    pub update_account-IsForest :
        (session : Session) (fuel : ℕ) (spec : AccountSpec) (b : B) (s : Staging B AccountSpec)
        → stage_update e session fuel spec b ≡ ok s
        → IsForest e b
        → IsForest e s.final
    update_account-IsForest session fuel spec b s h forest =
        let (a, plan, planned, final) = update_decided session fuel spec b s h in
        let begun = e.perform (account_begin_edit a) b in
        let begun_same = λ (x : A). laws.parent_frame b (account_begin_edit a) x refl in
        let (line, l) = forest plan.parent in
        subst (IsForest e) (sym final) (
          same-IsForest e laws (apply_update e a spec plan begun) _
            (λ x.
              laws.parent_frame (apply_update e a spec plan begun) (account_commit_edit a) x refl)
            (apply_update-IsForest e laws begun a spec plan line
              (Lineage-frame e laws b begun begun_same (some plan.parent) line l)
              (climb-ok e b a (str "account.parent_guid") (some plan.parent) line fuel l
                (plan_update-checks fuel b a spec plan planned))
              (same-IsForest e laws b begun begun_same forest)))
