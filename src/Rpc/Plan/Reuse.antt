-- ===== src/Rpc/Plan/Reuse.antt =====
-- What a plan is made of.
use daichod.Rpc.Plan.Types.{Lookups, TransactionPlan, Keyed, Progress, and_then, zero_numeric}
use daichod.Proto.{CommodityId, SplitSpec, TransactionSpec}
use daichod.Base.{
  subst, if◌then◌else◌, ◌<◌, ◌≡◌, refl, sym, ap, ◌∙◌, true, not, ◌||◌, Option, none, some, List, [],
  ◌∷◌, length, keep, map, All, arith,
}
use daichod.Base.Text.{Bytes, str}
use daichod.Exec.{Result, ok, err, aborted}
use daichod.Engine.Map.{GDate}
use daichod.Rpc.Plan.{
  currency_mismatch, shim, is_claimed, begin, conclude, required_currency, required_splits,
  plan_transaction, doomed_of,
}
use daichod.Rpc.Plan.Steps.{plan_transaction-Steps}
use daichod.Rpc.Plan.Rounds.{named_split, is_named, Rounds, plan_splits-Rounds}
use daichod.Rpc.Plan.Balanced.{IsPositive, total_from}

module _ {C A S : Type 0} (engine : Lookups C A) (engine_splits : Option (List (Keyed S))) where
  -- A plan that is made balances: the engine's sum of its values, which are those of the spec, one for each, is zero. Every
  -- denominator is positive and there is a split. A spec's split is the one of the transaction that it names, if it names one; and
  -- doomed are just the splits of the transaction that no spec names.
  pub record IsSound (spec : TransactionSpec) (plan : TransactionPlan C A S) : Type 0 where
    pub zero_sum : engine.numeric_is_zero (total_from engine zero_numeric plan.splits) ≡ true
    pub values : map (λ s. s.value) plan.splits ≡ map (λ s. s.value) spec.splits
    pub nonempty : 0 < length spec.splits
    pub positive : All (λ s. IsPositive s.value × IsPositive s.quantity) plan.splits
    pub reused : map (λ s. s.existing) plan.splits ≡ map (named_split engine_splits) spec.splits
    pub doomed : plan.doomed ≡ (elim engine_splits [
      | none ↦ []
      | some known ↦ map (λ k. k.split) (keep (λ k. not (is_named k.key spec.splits)) known)
    ])
    pub in_currency : engine.is_currency plan.currency ≡ true

  doomed_lem :
      (known : List (Keyed S)) (specs : List SplitSpec) (claimed : List Bytes)
      → ((guid : Bytes) → is_claimed guid claimed ≡ (is_named guid specs || is_claimed guid []))
      → doomed_of engine (some known) claimed
        ≡ map (λ k. k.split) (keep (λ k. not (is_named k.key specs)) known)
  doomed_lem [] specs claimed h = refl
  doomed_lem (k ∷ known) specs claimed h = ground (arith, h k.key, doomed_lem known specs claimed h)

  required_splits-ok :
      (spec : TransactionSpec) (specs : List SplitSpec)
      → required_splits spec ≡ ok specs
      → (specs ≡ spec.splits) × (0 < length spec.splits)
  required_splits-ok spec specs h = ground arith

  required_currency-ok :
      (spec : TransactionSpec) (c : C)
      → required_currency engine spec ≡ ok c
      → engine.is_currency c ≡ true
  required_currency-ok spec c h = by_currency spec.currency refl h
    where
      checked :
          (r : Result C)
          → and_then r (λ d.
            if engine.is_currency d
            then ok d
            else err (
                shim (record {
                  code = currency_mismatch;
                  engine_message = str "transaction currency is not a currency commodity";
                  context = str "transaction.currency";
                })))
            ≡ ok c
          → engine.is_currency c ≡ true
      checked (ok d) h =
          let same : engine.is_currency d ≡ true → d ≡ c = λ e. ground arith in
          ground (arith, λ (e : engine.is_currency d ≡ true). ap engine.is_currency (same e))
      checked (err e) h = ground arith
      checked aborted h = ground arith

      by_currency :
          (o : Option CommodityId)
          → spec.currency ≡ o
          → required_currency engine spec ≡ ok c
          → engine.is_currency c ≡ true
      by_currency none e h = ground arith
      by_currency (some id) e h =
          checked (engine.find_commodity id (str "transaction.currency")) (ground arith)

  concluded :
      (spec : TransactionSpec) (plan : TransactionPlan C A S) (c : C) (d : GDate) (p : Progress A S)
      → conclude engine engine_splits spec c d p ≡ ok plan
      → (engine.numeric_is_zero p.sum ≡ true)
        × (c ≡ plan.currency)
        × (p.splits ≡ plan.splits)
        × (doomed_of engine engine_splits p.claimed ≡ plan.doomed)
  concluded spec plan c d p h = ground arith

  doomed_as_named :
      (specs : List SplitSpec) (claimed : List Bytes)
      → ((guid : Bytes) → is_claimed guid claimed ≡ (is_named guid specs || is_claimed guid []))
      → doomed_of engine engine_splits claimed ≡ (elim engine_splits [
        | none ↦ []
        | some known ↦ map (λ k. k.split) (keep (λ k. not (is_named k.key specs)) known)
      ])
  doomed_as_named specs claimed h = by_cases engine_splits
    where
      by_cases :
          (o : Option (List (Keyed S)))
          → doomed_of engine o claimed ≡ (elim o [
            | none ↦ []
            | some known ↦ map (λ k. k.split) (keep (λ k. not (is_named k.key specs)) known)
          ])
      by_cases none = refl
      by_cases (some known) = doomed_lem known specs claimed h

  conclude-IsSound :
      (spec : TransactionSpec) (plan : TransactionPlan C A S) (c : C) (d : GDate) (p : Progress A S)
      → 0 < length spec.splits
      → engine.is_currency c ≡ true
      → Rounds engine engine_splits spec.splits (begin engine) p
      → conclude engine engine_splits spec c d p ≡ ok plan
      → IsSound spec plan
  conclude-IsSound spec plan c d p many is_cur rounds h =
      let (zero_sum, same_c, same_s, same_d) = concluded spec plan c d p h in
      let added = sym rounds.appended ∙ same_s in
      record {
        zero_sum =
            sym (
              ap engine.numeric_is_zero (rounds.summed ∙ ap (total_from engine zero_numeric) added))
            ∙ zero_sum;
        values = sym (ap (map (λ s. s.value)) added) ∙ rounds.values;
        nonempty = many;
        positive =
            subst (All (λ s. IsPositive s.value × IsPositive s.quantity)) added rounds.positive;
        reused = sym (ap (map (λ s. s.existing)) added) ∙ rounds.reused;
        doomed = sym same_d ∙ doomed_as_named spec.splits p.claimed rounds.claims;
        in_currency = sym (ap engine.is_currency same_c) ∙ is_cur;
      }

  pub plan_transaction-IsSound :
      (spec : TransactionSpec) (plan : TransactionPlan C A S)
      → plan_transaction engine engine_splits spec ≡ ok plan
      → IsSound spec plan
  plan_transaction-IsSound spec plan h =
      let st = plan_transaction-Steps engine engine_splits spec plan h in
      let (same, many) = required_splits-ok spec st.specs st.with_splits in
      conclude-IsSound spec plan st.currency st.post_date st.progress many
        (required_currency-ok spec st.currency st.with_currency)
        (subst (λ (ss : List SplitSpec). Rounds engine engine_splits ss (begin engine) st.progress)
          same
          (plan_splits-Rounds engine engine_splits 0 st.specs (begin engine) st.progress st.looped))
        st.concluded_as
