-- ===== src/Rpc/Transactions/Staged.antt =====
-- The mutating handlers of transactions, as stagings.
use daichod.Base.{◌≡◌, ap, none, some, if◌then◌else◌}
use daichod.Base.Text.{Bytes, str, empty}
use daichod.Exec.{continue, Result, ok}
use daichod.World.{World, Backend}
use daichod.Engine.Map.{refuse}
use daichod.Engine.Objects.{Objects, trans_begin_edit, trans_commit_edit, trans_destroy}
use daichod.Engine.Convert.{find_transaction, transaction_to_proto}
use daichod.Engine.Session.{Session}
use daichod.Proto.{TransactionSpec}
use daichod.Rpc.Handler.{require_book, KeepsBook}
use daichod.Rpc.Handler.Steps.{check_then, after_record}
use daichod.Rpc.Mutation.{Recorder}
use daichod.Rpc.Mutation.Staged.{decide, Staging, staged}
use daichod.Rpc.Plan.{plan_transaction}
use daichod.Rpc.Plan.Types.{TransactionPlan, and_then}
use daichod.Rpc.Transactions.{
  lookups_of, splits_of, apply_plan, post_transaction, update_transaction, delete_transaction,
}

module _ {B G C A T S P : Type 0} (e : Objects B G C A T S P) (session : Session) where
  -- The open edit that applies a plan, and what its commit leaves.
  abbrev pub stage_plan : T → TransactionPlan C A S → B → Staging B TransactionSpec
  stage_plan t plan b =
      let edited = apply_plan e t plan (e.perform (trans_begin_edit t) b) in
      record {
        response = transaction_to_proto e edited t;
        edited = edited;
        final = e.perform (trans_commit_edit t) edited;
      }

  unfoldable pub stage_post : TransactionSpec → B → Result (Staging B TransactionSpec)
  stage_post spec b =
      and_then
        (if empty spec.guid
          then ok tt
          else refuse (str "guid must be empty on create; the engine assigns")
              (str "transaction.guid"))
        (λ _. and_then (require_book session b) (λ _.
          and_then (plan_transaction (lookups_of e b) none spec)
            (λ plan. ok (stage_plan (e.malloc_transaction b).0 plan (e.malloc_transaction b).1))))

  unfoldable pub stage_update : TransactionSpec → B → Result (Staging B TransactionSpec)
  stage_update spec b =
      and_then
        (if empty spec.guid
          then refuse (str "guid is required on update") (str "transaction.guid")
          else ok tt)
        (λ _. and_then (require_book session b) (λ _.
          and_then (find_transaction e b spec.guid (str "transaction.guid")) (λ t.
            and_then (plan_transaction (lookups_of e b) (some (splits_of e b t)) spec)
              (λ plan. ok (stage_plan t plan b)))))

  abbrev pub deleted : T → B → Staging B (Unit {0})
  deleted t b = record {
    response = tt;
    edited = b;
    final =
        e.perform (trans_commit_edit t)
          (e.perform (trans_destroy t) (e.perform (trans_begin_edit t) b));
  }

  unfoldable pub stage_delete : Bytes → B → Result (Staging B (Unit {0}))
  stage_delete guid b =
      and_then (require_book session b)
        (λ _. and_then (find_transaction e b guid (str "guid")) (λ t. ok (deleted t b)))

  module _ (backend : Backend B) where
    -- From the open edit on: the response, the record, the commit.
    finish_plan :
        (t : T) (plan : TransactionPlan C A S) (record_pending : Recorder B TransactionSpec)
        → KeepsBook record_pending
        → (w : World B) (b : B)
        → let s = stage_plan t plan b in
          let recorded = record_pending s.response (record w { live = s.edited }) in
          continue recorded (λ _ v. (
            ok s.response,
            record v {
              live = e.perform (trans_commit_edit t) v.live;
              saved = backend.commit v.saved (e.perform (trans_commit_edit t) v.live);
            },
          ))
          ≡ decide backend (ok s) record_pending w
    finish_plan t plan record_pending keeps w b =
        let s = stage_plan t plan b in
        after_record backend record_pending
          (record_pending s.response (record w { live = s.edited }))
          (e.perform (trans_commit_edit t)) s.final s.response
          (ap (e.perform (trans_commit_edit t)) (keeps s.response (record w { live = s.edited })))

    pub post_transaction-staged :
        (spec : TransactionSpec) (record_pending : Recorder B TransactionSpec)
        → KeepsBook record_pending
        → (w : World B)
        → post_transaction e backend session spec record_pending w
          ≡ staged backend (stage_post spec) record_pending w
    unfolding post_transaction stage_post
    post_transaction-staged spec record_pending keeps w =
        check_then backend record_pending
          (if empty spec.guid
            then ok tt
            else refuse (str "guid must be empty on create; the engine assigns")
                (str "transaction.guid"))
          w _ _
          (λ _. check_then backend record_pending (require_book session w.live) w _ _ (λ _.
            check_then backend record_pending
              (plan_transaction {S = S} (lookups_of e w.live) none spec) w _ _
              (λ plan.
                finish_plan (e.malloc_transaction w.live).0 plan record_pending keeps w
                  (e.malloc_transaction w.live).1)))

    pub update_transaction-staged :
        (spec : TransactionSpec) (record_pending : Recorder B TransactionSpec)
        → KeepsBook record_pending
        → (w : World B)
        → update_transaction e backend session spec record_pending w
          ≡ staged backend (stage_update spec) record_pending w
    unfolding update_transaction stage_update
    update_transaction-staged spec record_pending keeps w =
        check_then backend record_pending
          (if empty spec.guid
            then refuse (str "guid is required on update") (str "transaction.guid")
            else ok tt)
          w _ _
          (λ _. check_then backend record_pending (require_book session w.live) w _ _ (λ _.
            check_then backend record_pending
              (find_transaction e w.live spec.guid (str "transaction.guid")) w _ _
              (λ t.
                check_then backend record_pending
                  (plan_transaction {S = S} (lookups_of e w.live) (some (splits_of e w.live t))
                    spec)
                  w _ _ (λ plan. finish_plan t plan record_pending keeps w w.live))))

    pub delete_transaction-staged :
        (guid : Bytes) (record_pending : Recorder B (Unit {0}))
        → KeepsBook record_pending
        → (w : World B)
        → delete_transaction e backend session guid record_pending w
          ≡ staged backend (stage_delete guid) record_pending w
    unfolding delete_transaction stage_delete
    delete_transaction-staged guid record_pending keeps w =
        check_then backend record_pending (require_book session w.live) w _ _ (λ _.
          check_then backend record_pending (find_transaction e w.live guid (str "guid")) w _ _
            (λ t.
              after_record backend record_pending (record_pending tt w)
                (λ b.
                  e.perform (trans_commit_edit t)
                    (e.perform (trans_destroy t) (e.perform (trans_begin_edit t) b)))
                _ tt
                (ap
                  (λ b.
                    e.perform (trans_commit_edit t)
                      (e.perform (trans_destroy t) (e.perform (trans_begin_edit t) b)))
                  (keeps tt w))))
