-- ===== src/Engine/Checks.antt =====
-- Session::RunStartupChecks of src/engine/session.cpp, and BalanceServiceImpl::GetTrialBalance of
-- src/rpc/commodity_service.cpp, which sums the same splits.
pub mod Healthy
pub mod Sums
use daichod.Base.{
  ℕ, Bool, true, false, not, ◌&&◌, ◌||◌, ◌==◌, ltb, Option, none, some, List, [], ◌∷◌, ◌++◌, map,
  if◌then◌else◌,
}
use daichod.Base.Text.{Bytes, str, empty, bytes_eq, bytes_lt}
use daichod.Base.Totals.{Entry, count_all}
use daichod.Exec.{Result, ok, err, Exec, ◌>>=◌, ◌>>◌}
use daichod.World.{World}
use daichod.Rpc.Error.{shim, engine_error}
use daichod.Engine.Objects.{Objects}
use daichod.Engine.Convert.{commodity_id_to_proto}
use daichod.Engine.Session.{Session}
use daichod.Proto.{CommodityId, Numeric}
use daichod.Rpc.Handler.{check, read, require_book}
use daichod.Rpc.Plan.Types.{and_then, zero_numeric}

-- std::pair's == and <
unfoldable pub same_id : CommodityId → CommodityId → Bool
same_id k l = bytes_eq k.space l.space && bytes_eq k.mnemonic l.mnemonic

unfoldable pub id_before : CommodityId → CommodityId → Bool
id_before k l =
    bytes_lt k.space l.space || (bytes_eq k.space l.space && bytes_lt k.mnemonic l.mnemonic)

-- The key of RunStartupChecks.
abbrev pub joined : CommodityId → Bytes
joined k = k.space ++ (str ":" ++ k.mnemonic)

module _ {B G C A T S P : Type 0} (e : Objects B G C A T S P) where
  -- A split's value under a key of its transaction's currency; a split without a currency is passed over.
  unfoldable pub values_by : {K : Type 0} → (CommodityId → K) → B → List S → List (Entry K Numeric)
  values_by key b [] = []
  values_by key b (s ∷ ss) =
      let rest = values_by key b ss in
      elim (e.trans_currency b (e.split_parent b s)) [
        | none ↦ rest
        | some c ↦
            record { key = key (commodity_id_to_proto e c); total = e.split_value b s } ∷ rest
      ]

  -- The `imbalanced_txn` of the loop of RunStartupChecks.
  unfoldable pub imbalanced : B → Bytes → List S → Bytes
  imbalanced b text [] = text
  imbalanced b text (s ∷ ss) =
      imbalanced b
        (if empty text && not (e.numeric_is_zero (e.imbalance_value b (e.split_parent b s)))
          then e.guid_to_string (e.trans_guid (e.split_parent b s))
          else text)
        ss

  abbrev pub startup_sums : B → List (Entry Bytes Numeric)
  startup_sums b =
      count_all bytes_eq bytes_lt zero_numeric e.numeric_add (values_by joined b (e.all_splits b))
        []

  -- The last loop of RunStartupChecks.
  unfoldable pub check_sums : List (Entry Bytes Numeric) → Result (Unit {0})
  check_sums [] = ok tt
  check_sums (s ∷ ss) =
      if e.numeric_is_zero s.total
      then check_sums ss
      else err (
          shim (record {
            code = engine_error;
            engine_message = str "startup check failed: trial balance is nonzero";
            context = s.key;
          }))

  -- RunStartupChecks
  unfoldable pub run_startup_checks : Session → B → Result (Unit {0})
  run_startup_checks session b = and_then (require_book session b) (λ _.
      let text = imbalanced b [] (e.all_splits b) in
      if empty text
      then check_sums (startup_sums b)
      else err (
          shim (record {
            code = engine_error;
            engine_message = str "startup check failed: imbalanced transaction";
            context = text;
          })))

  -- The entries of GetTrialBalance; the currency of an entry reads as its key.
  abbrev pub trial_balance : B → List (Entry CommodityId Numeric)
  trial_balance b =
      count_all same_id id_before zero_numeric e.numeric_add (values_by (λ k. k) b (e.all_splits b))
        []

  -- GetTrialBalance
  unfoldable pub get_trial_balance : Session → Exec (World B) (List (Entry CommodityId Numeric))
  get_trial_balance session = do check (require_book session); read trial_balance
