-- ===== src/Engine/Map.antt =====
-- src/engine/map.h and src/engine/map.cpp: the proto's account types, reconcile states, dates and amounts,
-- against the engine's. What is thrown is an error of a result; GLib's calendar is a parameter.
pub mod RoundTrip
use daichod.Proto.{
  ReconcileState, state_unspecified, not_reconciled, cleared, reconciled, frozen, voided,
  other_state,
}
use daichod.Proto.{
  AccountType, type_unspecified, asset, bank, cash, credit, liability, equity, income, expense,
  stock, mutual_fund, receivable, payable, trading, root, other_type, Date, Numeric,
}
use daichod.Base.{
  ◌==◌, ◌-◌, ℕ, ◌+◌, ◌%◌, Bool, true, false, ◌||◌, Option, none, some, List, [], ◌∷◌, ◌++◌, ltb,
  leb, if◌then◌else◌,
}
use daichod.Base.Int.{ℤ, pos, negsuc, ltb_ℤ}
use daichod.Base.Text.{Bytes, str}
use daichod.Exec.{Result, ok, err}
use daichod.Rpc.Error.{ErrorCode, Exception, shim, invalid_argument}

-- GNCAccountType; `obsolete` is any type that the contract does not model.
pub data GncAccountType : Type 0 where
  acct_asset acct_bank acct_cash acct_credit acct_liability acct_equity acct_income : GncAccountType
  acct_expense acct_stock acct_mutual acct_receivable acct_payable acct_trading : GncAccountType
  acct_root obsolete : GncAccountType

abbrev pub refuse : {A : Type 0} → Bytes → Bytes → Result A
refuse message context =
    err (shim (record { code = invalid_argument; engine_message = message; context = context }))

-- AccountTypeFromProto
unfoldable pub account_type_from_proto : AccountType → Bytes → Result GncAccountType
account_type_from_proto asset context = ok acct_asset
account_type_from_proto bank context = ok acct_bank
account_type_from_proto cash context = ok acct_cash
account_type_from_proto credit context = ok acct_credit
account_type_from_proto liability context = ok acct_liability
account_type_from_proto equity context = ok acct_equity
account_type_from_proto income context = ok acct_income
account_type_from_proto expense context = ok acct_expense
account_type_from_proto stock context = ok acct_stock
account_type_from_proto mutual_fund context = ok acct_mutual
account_type_from_proto receivable context = ok acct_receivable
account_type_from_proto payable context = ok acct_payable
account_type_from_proto trading context = ok acct_trading
account_type_from_proto root context = refuse (str "ROOT is not a settable account type") context
account_type_from_proto _ context = refuse (str "unspecified account type") context

-- AccountTypeToProto
unfoldable pub account_type_to_proto : GncAccountType → AccountType
account_type_to_proto acct_asset = asset
account_type_to_proto acct_bank = bank
account_type_to_proto acct_cash = cash
account_type_to_proto acct_credit = credit
account_type_to_proto acct_liability = liability
account_type_to_proto acct_equity = equity
account_type_to_proto acct_income = income
account_type_to_proto acct_expense = expense
account_type_to_proto acct_stock = stock
account_type_to_proto acct_mutual = mutual_fund
account_type_to_proto acct_receivable = receivable
account_type_to_proto acct_payable = payable
account_type_to_proto acct_trading = trading
account_type_to_proto acct_root = root
account_type_to_proto obsolete = type_unspecified

-- NREC, CREC, YREC, FREC and VREC of the engine's Split.h.
pub record ReconcileFlags : Type 0 where
  pub nrec : ℕ
  pub crec : ℕ
  pub yrec : ℕ
  pub frec : ℕ
  pub vrec : ℕ

-- ReconcileStateFromProto
unfoldable pub reconcile_state_from_proto : ReconcileFlags → ReconcileState → Bytes → Result ℕ
reconcile_state_from_proto f not_reconciled context = ok f.nrec
reconcile_state_from_proto f cleared context = ok f.crec
reconcile_state_from_proto f reconciled context = ok f.yrec
reconcile_state_from_proto f frozen context = ok f.frec
reconcile_state_from_proto f voided context = ok f.vrec
reconcile_state_from_proto f _ context = refuse (str "unspecified reconcile state") context

-- ReconcileStateToProto
unfoldable pub reconcile_state_to_proto : ReconcileFlags → ℕ → ReconcileState
reconcile_state_to_proto f flag =
    if flag == f.nrec
    then not_reconciled
    else if flag == f.crec
    then cleared
    else if flag == f.yrec
    then reconciled
    else if flag == f.frec
    then frozen
    else if flag == f.vrec
    then voided
    else state_unspecified

-- A GDate that is set: an 8-bit day, a month, and a 16-bit year.
pub record GDate : Type 0 where
  pub g_year : ℕ
  pub g_month : ℕ
  pub g_day : ℕ

-- static_cast to an unsigned type of `width` values.
abbrev pub cast_to : ℕ → ℤ → ℕ
cast_to width (pos n) = n % width
cast_to width (negsuc n) = (width - 1 - n % width) % width

-- The range check of DateFromProto.
abbrev pub is_out_of_range : Date → Bool
is_out_of_range d =
    ltb_ℤ d.year (pos 1)
    || ltb_ℤ (pos 65535) d.year
    || ltb_ℤ d.month (pos 1)
    || ltb_ℤ (pos 12) d.month
    || ltb_ℤ d.day (pos 1)
    || ltb_ℤ (pos 31) d.day

-- The casts of DateFromProto; GDateMonth is an enum that is stored in an int.
abbrev pub narrowed : Date → GDate
narrowed d = record {
  g_year = cast_to 65536 d.year;
  g_month = cast_to 4294967296 d.month;
  g_day = cast_to 256 d.day;
}

module _ (is_valid_dmy : GDate → Bool) (show_date : Date → Bytes) where
  -- DateFromProto
  unfoldable pub date_from_proto : Date → Bytes → Result GDate
  date_from_proto d context =
      if is_out_of_range d
      then refuse (str "invalid calendar date " ++ show_date d) context
      else if is_valid_dmy (narrowed d)
      then ok (narrowed d)
      else refuse (str "invalid calendar date " ++ show_date d) context

-- DateToProto
unfoldable pub date_to_proto : GDate → Date
date_to_proto d = record { year = pos d.g_year; month = pos d.g_month; day = pos d.g_day }

-- NumericFromProto
unfoldable pub numeric_from_proto : Numeric → Bytes → Result Numeric
numeric_from_proto n context =
    if ltb_ℤ (pos 0) n.denom then ok n else refuse (str "Numeric.denom must be > 0") context
