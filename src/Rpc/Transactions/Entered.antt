-- ===== src/Rpc/Transactions/Entered.antt =====
-- The time of entry that ApplyPlan leaves.
use daichod.Base.{◌≡◌, ◌≢◌, refl, ◌∙◌, false, Option, none, some, List, [], ◌∷◌, All, arith}
use daichod.Base.Int.{pos}
use daichod.Exec.{ok}
use daichod.Engine.Objects.{Objects, Call, trans_set_num, trans_set_description, split_set_parent}
use daichod.Engine.Laws.{EntryLaws, may_enter}
use daichod.Proto.{TransactionSpec}
use daichod.Rpc.Plan.{plan_transaction}
use daichod.Rpc.Plan.Types.{Lookups, SplitPlan, TransactionPlan, Keyed}
use daichod.Rpc.Plan.Steps.{plan_transaction-Steps}
use daichod.Rpc.Transactions.{perform_all, apply_splits, apply_plan, doom, fill_split}

module _ {B G C A T S P : Type 0} (e : Objects B G C A T S P) (t : T) (laws : EntryLaws e t) where
  abbrev Quiet : List (Call C A T S P) → Type 0
  Quiet = All (λ c. may_enter c ≡ false)

  perform_all-entered :
      (cs : List (Call C A T S P)) (b : B)
      → Quiet cs
      → e.trans_date_entered (perform_all e cs b) t ≡ e.trans_date_entered b t
  unfolding perform_all
  perform_all-entered [] b q = refl
  perform_all-entered (c ∷ cs) b q =
      perform_all-entered cs (e.perform c b) q.1 ∙ laws.entered_frame b c q.0

  doom-Quiet : (ss : List S) → Quiet (doom e ss)
  doom-Quiet [] = tt
  doom-Quiet (s ∷ ss) = (refl, doom-Quiet ss)

  fill_split-Quiet : (s : S) (p : SplitPlan A S) → Quiet (fill_split e s p)
  fill_split-Quiet s p = (refl, (refl, (refl, (refl, (refl, (refl, tt))))))

  apply_splits-entered :
      (ps : List (SplitPlan A S)) (b : B)
      → e.trans_date_entered (apply_splits e t ps b) t ≡ e.trans_date_entered b t
  unfolding apply_splits
  apply_splits-entered [] b = refl
  apply_splits-entered (p ∷ ps) b =
      apply_splits-entered ps _
      ∙ (elim p.existing
          as (λ o.
            e.trans_date_entered
              (elim o [
                | some s ↦ perform_all e (fill_split e s p) b
                | none ↦
                    let made = e.malloc_split b in
                    perform_all e (split_set_parent made.0 t ∷ fill_split e made.0 p) made.1
              ])
              t
            ≡ e.trans_date_entered b t) [
              | some s ↦ perform_all-entered (fill_split e s p) b (fill_split-Quiet s p)
              | none ↦
                  let made = e.malloc_split b in
                  perform_all-entered (split_set_parent made.0 t ∷ fill_split e made.0 p) made.1
                    (refl, fill_split-Quiet made.0 p)
                  ∙ laws.entered_malloc b
            ])

  pub apply_plan-entered :
      (plan : TransactionPlan C A S) (b : B)
      → e.trans_date_entered (apply_plan e t plan b) t ≡ plan.enter_time
  unfolding apply_plan perform_all
  apply_plan-entered plan b =
      apply_splits-entered plan.splits _
      ∙ perform_all-entered
          (trans_set_num t plan.num ∷ trans_set_description t plan.description ∷ doom e plan.doomed)
          _ (refl, (refl, doom-Quiet plan.doomed))
      ∙ laws.entered_set _ plan.enter_time

module _ {C A S : Type 0} (engine : Lookups C A) (engine_splits : Option (List (Keyed S))) where
  pub plan_transaction-entered :
      (spec : TransactionSpec) (plan : TransactionPlan C A S)
      → plan_transaction engine engine_splits spec ≡ ok plan
      → engine.now ≢ pos 0
      → plan.enter_time ≢ pos 0
  plan_transaction-entered spec plan h later =
      let st = plan_transaction-Steps engine engine_splits spec plan h in
      ground (arith, st.concluded_as, later)
