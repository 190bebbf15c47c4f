-- ===== src/Rpc/Plan.antt =====
-- PlanTransaction of src/rpc/transaction_service.cpp: everything that a Post or an Update needs, resolved and
-- checked before any engine object is touched. The engine's objects, its lookups and its arithmetic are an
-- interface; its errors (FindAccount, FindCommodity) are theirs.
pub mod Balanced
pub mod Reuse
pub mod Rounds
pub mod Steps
pub mod Types
use daichod.Proto.{Date, Numeric}
use daichod.Proto.{ReconcileState, state_unspecified}
use daichod.Rpc.Plan.Types.{
  Lookups, SplitPlan, TransactionPlan, Keyed, Progress, and_then, throw_if, zero_numeric,
}
use daichod.Proto.{CommodityId, SplitSpec, TransactionSpec}
use daichod.Base.{
  ◌==◌, map, ℕ, suc, ◌+◌, Bool, true, false, not, Option, none, some, List, [], ◌∷◌, ◌++◌, any,
  keep, if◌then◌else◌,
}
use daichod.Base.Int.{ℤ, pos, negsuc}
use daichod.Base.Text.{Bytes, str, empty, bytes_eq}
use daichod.Exec.{Result, ok, err, aborted}
use daichod.Engine.Map.{
  GDate, numeric_from_proto, date_from_proto, ReconcileFlags, reconcile_state_from_proto, refuse,
}
use daichod.Rpc.Error.{ErrorCode, shim, invalid_argument, currency_mismatch, unbalanced_transaction}

abbrev pub find_split : {S : Type 0} → Bytes → List (Keyed S) → Option S
find_split guid [] = none
find_split guid (k ∷ ks) = if bytes_eq k.key guid then some k.split else find_split guid ks

abbrev pub is_claimed : Bytes → List Bytes → Bool
is_claimed guid claimed = any (λ g. bytes_eq g guid) claimed

abbrev pub required_splits : TransactionSpec → Result (List SplitSpec)
required_splits spec = elim spec.splits [
  | [] ↦ refuse (str "at least one split is required") (str "transaction.splits")
  | s ∷ ss ↦ ok (s ∷ ss)
]

module _ {C A : Type 0} (engine : Lookups C A) where
  -- UNSPECIFIED is the default, not reconciled.
  abbrev pub reconcile_of : SplitSpec → Bytes → Result ℕ
  reconcile_of spec field = elim spec.reconcile_state [
    | state_unspecified ↦ ok engine.flags.nrec
    | s ↦ reconcile_state_from_proto engine.flags s (field ++ str ".reconcile_state")
  ]

  abbrev pub required_currency : TransactionSpec → Result C
  required_currency spec = elim spec.currency [
    | none ↦ refuse (str "currency is required") (str "transaction.currency")
    | some id ↦ and_then (engine.find_commodity id (str "transaction.currency")) (λ c.
        if engine.is_currency c
        then ok c
        else err (
            shim (record {
              code = currency_mismatch;
              engine_message = str "transaction currency is not a currency commodity";
              context = str "transaction.currency";
            })))
  ]

  abbrev pub required_date : TransactionSpec → Result GDate
  required_date spec = elim spec.post_date [
    | none ↦ refuse (str "post_date is required") (str "transaction.post_date")
    | some d ↦ date_from_proto engine.is_valid_dmy engine.show_date d (str "transaction.post_date")
  ]

module _ {C A S : Type 0} (engine : Lookups C A) where
  -- The split of the existing transaction that a spec names, if it names one; `none` is a create.
  abbrev pub resolve : Option (List (Keyed S)) → List Bytes → SplitSpec → Bytes → Result (Option S)
  resolve engine_splits claimed spec field =
      if empty spec.guid then ok none else elim engine_splits [
        | none ↦
            refuse (str "split guid must be empty on create; the engine assigns")
              (field ++ str ".guid")
        | some known ↦ elim (find_split spec.guid known) [
          | none ↦
              refuse (str "split " ++ (spec.guid ++ str " does not belong to this transaction"))
                (field ++ str ".guid")
          | some split ↦
              if is_claimed spec.guid claimed
              then refuse (str "split " ++ (spec.guid ++ str " appears twice"))
                  (field ++ str ".guid")
              else ok (some split)
        ]
      ]

  -- The split is added to the plan and its value to the sum, which must not overflow.
  abbrev pub add_split :
      SplitSpec
      → Bytes
      → Progress A S
      → Option S
      → A
      → Numeric
      → Numeric
      → ℕ
      → Result (Progress A S)
  add_split spec field p existing account value quantity reconcile =
      if engine.numeric_is_ok (engine.numeric_add p.sum value)
      then ok (record {
        claimed = if empty spec.guid then p.claimed else spec.guid ∷ p.claimed;
        sum = engine.numeric_add p.sum value;
        splits =
            p.splits
            ++ (record {
              existing = existing;
              account = account;
              value = value;
              quantity = quantity;
              memo = spec.memo;
              action = spec.action;
              reconcile = reconcile;
            })
              ∷ [];
      })
      else refuse (str "split values overflow engine arithmetic") field

  -- The body of the loop.
  unfoldable pub plan_split :
      Option (List (Keyed S)) → SplitSpec → Bytes → Progress A S → Result (Progress A S)
  plan_split engine_splits spec field p =
      and_then (resolve engine_splits p.claimed spec field) (λ existing.
        and_then (engine.find_account spec.account_guid (field ++ str ".account_guid")) (λ account.
          and_then (numeric_from_proto spec.value (field ++ str ".value")) (λ value.
            and_then (numeric_from_proto spec.quantity (field ++ str ".quantity")) (λ quantity.
              and_then (reconcile_of engine spec field)
                (λ reconcile. add_split spec field p existing account value quantity reconcile)))))

  -- The loop, from an index on.
  unfoldable pub plan_splits :
      Option (List (Keyed S)) → ℕ → List SplitSpec → Progress A S → Result (Progress A S)
  plan_splits engine_splits i [] p = ok p
  plan_splits engine_splits i (spec ∷ specs) p =
      and_then
        (plan_split engine_splits spec
          (str "transaction.splits[" ++ (engine.show_index i ++ str "]")) p)
        (plan_splits engine_splits (i + 1) specs)

  -- The splits of the existing transaction that the spec leaves out.
  abbrev pub doomed_of : Option (List (Keyed S)) → List Bytes → List S
  doomed_of none claimed = []
  doomed_of (some known) claimed =
      map (λ k. k.split) (keep (λ k. not (is_claimed k.key claimed)) known)

  abbrev pub begin : Progress A S
  begin = record { claimed = []; sum = zero_numeric; splits = [] }

  -- What follows the loop.
  abbrev pub conclude :
      Option (List (Keyed S))
      → TransactionSpec
      → C
      → GDate
      → Progress A S
      → Result (TransactionPlan C A S)
  conclude engine_splits spec currency post_date p =
      if engine.numeric_is_zero p.sum
      then ok (record {
        currency = currency;
        post_date = post_date;
        enter_time = elim spec.enter_time_utc [
          | pos n ↦ if n == 0 then engine.now else pos n
          | negsuc n ↦ negsuc n
        ];
        num = spec.num;
        description = spec.description;
        splits = p.splits;
        doomed = doomed_of engine_splits p.claimed;
      })
      else err (
          shim (record {
            code = unbalanced_transaction;
            engine_message =
                str "split values sum to " ++ (engine.numeric_text p.sum ++ str ", expected zero");
            context = str "transaction.splits";
          }))

  -- PlanTransaction: the splits of the existing transaction, or `none` on create.
  unfoldable pub plan_transaction :
      Option (List (Keyed S)) → TransactionSpec → Result (TransactionPlan C A S)
  plan_transaction engine_splits spec = and_then (required_currency engine spec) (λ currency.
      and_then (required_date engine spec) (λ post_date. and_then (required_splits spec) (λ specs.
        and_then (plan_splits engine_splits 0 specs begin)
          (conclude engine_splits spec currency post_date))))
