-- ===== src/Rpc/Plan/Steps.antt =====
-- The steps by which a plan is made.
use daichod.Rpc.Plan.Types.{Lookups, TransactionPlan, Keyed, Progress, and_then}
use daichod.Proto.{SplitSpec, TransactionSpec}
use daichod.Base.{◌≡◌, Option, List}
use daichod.Exec.{ok}
use daichod.Engine.Map.{GDate}
use daichod.Rpc.Plan.{
  plan_splits, begin, conclude, required_currency, required_date, required_splits, plan_transaction,
}
use daichod.Rpc.Plan.Balanced.{and_then-ok}

module _ {C A S : Type 0} (engine : Lookups C A) (engine_splits : Option (List (Keyed S))) where
  -- What PlanTransaction went through when it made a plan.
  pub record Steps (spec : TransactionSpec) (plan : TransactionPlan C A S) : Type 0 where
    pub currency : C
    pub post_date : GDate
    pub specs : List SplitSpec
    pub progress : Progress A S
    pub with_currency : required_currency engine spec ≡ ok currency
    pub with_date : required_date engine spec ≡ ok post_date
    pub with_splits : required_splits spec ≡ ok specs
    pub looped : plan_splits engine engine_splits 0 specs (begin engine) ≡ ok progress
    pub concluded_as : conclude engine engine_splits spec currency post_date progress ≡ ok plan

  pub plan_transaction-Steps :
      (spec : TransactionSpec) (plan : TransactionPlan C A S)
      → plan_transaction engine engine_splits spec ≡ ok plan
      → Steps spec plan
  unfolding plan_transaction
  plan_transaction-Steps spec plan h =
      let (currency, e1, h1) =
        and_then-ok (required_currency engine spec)
          (λ c. and_then (required_date engine spec) (λ d. and_then (required_splits spec) (λ specs.
            and_then (plan_splits engine engine_splits 0 specs (begin engine))
              (conclude engine engine_splits spec c d))))
          plan h in
      let (date, e2, h2) =
        and_then-ok (required_date engine spec)
          (λ d. and_then (required_splits spec) (λ specs.
            and_then (plan_splits engine engine_splits 0 specs (begin engine))
              (conclude engine engine_splits spec currency d)))
          plan h1 in
      let (specs, e3, h3) =
        and_then-ok (required_splits spec)
          (λ specs.
            and_then (plan_splits engine engine_splits 0 specs (begin engine))
              (conclude engine engine_splits spec currency date))
          plan h2 in
      let (p, e4, h4) =
        and_then-ok (plan_splits engine engine_splits 0 specs (begin engine))
          (conclude engine engine_splits spec currency date) plan h3 in
      record {
        currency = currency;
        post_date = date;
        specs = specs;
        progress = p;
        with_currency = e1;
        with_date = e2;
        with_splits = e3;
        looped = e4;
        concluded_as = h4;
      }
