-- ===== src/Rpc/Plan/Types.antt =====
-- What PlanTransaction asks for, and what it makes.
use daichod.Base.{ℕ, Bool, Option, List, if◌then◌else◌}
use daichod.Base.Int.{ℤ, pos}
use daichod.Base.Text.{Bytes}
use daichod.Exec.{Result, ok, err, aborted}
use daichod.Engine.Map.{GDate, ReconcileFlags}
use daichod.Proto.{Date, Numeric, CommodityId}

-- What the code asks of libgnucash, GLib and the clock.
pub record Lookups (C A : Type 0) : Type 0 where
  pub find_commodity : CommodityId → Bytes → Result C
  pub is_currency : C → Bool
  pub find_account : Bytes → Bytes → Result A
  pub is_valid_dmy : GDate → Bool
  pub show_date : Date → Bytes
  pub show_index : ℕ → Bytes
  pub flags : ReconcileFlags
  pub numeric_add : Numeric → Numeric → Numeric
  pub numeric_is_ok : Numeric → Bool
  pub numeric_is_zero : Numeric → Bool
  pub numeric_text : Numeric → Bytes
  pub now : ℤ

pub record SplitPlan (A S : Type 0) : Type 0 where
  pub existing : Option S
  pub account : A
  pub value : Numeric
  pub quantity : Numeric
  pub memo : Bytes
  pub action : Bytes
  pub reconcile : ℕ

pub record TransactionPlan (C A S : Type 0) : Type 0 where
  pub currency : C
  pub post_date : GDate
  pub enter_time : ℤ
  pub num : Bytes
  pub description : Bytes
  pub splits : List (SplitPlan A S)
  pub doomed : List S

-- A split of the existing transaction, under its GUID; std::unordered_map promises no order.
pub record Keyed (S : Type 0) : Type 0 where
  pub key : Bytes
  pub split : S

-- The variables of the loop over the splits.
pub record Progress (A S : Type 0) : Type 0 where
  pub claimed : List Bytes
  pub sum : Numeric
  pub splits : List (SplitPlan A S)

abbrev pub and_then : {A B : Type 0} → Result A → (A → Result B) → Result B
and_then (ok a) f = f a
and_then (err e) f = err e
and_then aborted f = aborted

abbrev pub throw_if : {A : Type 0} → Bool → Result A → Result A → Result A
throw_if b thrown otherwise = if b then thrown else otherwise

abbrev pub zero_numeric : Numeric
zero_numeric = record { num = pos 0; denom = pos 1 }
