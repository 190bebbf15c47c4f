-- ===== src/Proto.antt =====
-- The messages of proto/shim.proto. An enum has one more constructor, for any number that has no name; a message
-- field that may be absent is an Option; a 64-bit number is an integer.
use daichod.Base.{Bool, Option, List}
use daichod.Base.Int.{ℤ}
use daichod.Base.Text.{Bytes}

-- shim::AccountType, whose MUTUAL is `mutual_fund` here; `other_type` is any value that has no name.
pub data AccountType : Type 0 where
  type_unspecified asset bank cash credit liability equity income expense : AccountType
  stock mutual_fund receivable payable trading root other_type : AccountType

-- ReconcileState of the proto; `other_state` is any value that has no name.
pub data ReconcileState : Type 0 where
  state_unspecified not_reconciled cleared reconciled frozen voided other_state : ReconcileState

-- shim::Date, of int32.
pub record Date : Type 0 where
  pub year : ℤ
  pub month : ℤ
  pub day : ℤ

-- gnc_numeric, and shim::Numeric: two int64.
pub record Numeric : Type 0 where
  pub num : ℤ
  pub denom : ℤ

-- shim::CommodityId, shim::Split and shim::Transaction.
pub record CommodityId : Type 0 where
  pub space : Bytes
  pub mnemonic : Bytes

pub record SplitSpec : Type 0 where
  pub guid : Bytes
  pub account_guid : Bytes
  pub value : Numeric
  pub quantity : Numeric
  pub memo : Bytes
  pub action : Bytes
  pub reconcile_state : ReconcileState

pub record TransactionSpec : Type 0 where
  pub guid : Bytes
  pub currency : Option CommodityId
  pub post_date : Option Date
  pub enter_time_utc : ℤ
  pub num : Bytes
  pub description : Bytes
  pub splits : List SplitSpec

-- shim::Account, shim::ReconcileInfo, shim::Commodity, shim::Price
pub record AccountSpec : Type 0 where
  pub guid : Bytes
  pub parent_guid : Bytes
  pub name : Bytes
  pub type_of : AccountType
  pub commodity : Option CommodityId
  pub code : Bytes
  pub description : Bytes
  pub placeholder : Bool
  pub hidden : Bool

pub record ReconcileInfo : Type 0 where
  pub account_guid : Bytes
  pub last_date : Option Date
  pub reconciled_balance : Numeric

pub record CommodityMessage : Type 0 where
  pub id : CommodityId
  pub fullname : Bytes
  pub fraction : ℤ
  pub is_currency : Bool

pub record PriceSpec : Type 0 where
  pub guid : Bytes
  pub commodity : CommodityId
  pub currency : CommodityId
  pub date : Option Date
  pub value : Numeric
  pub source : Bytes
