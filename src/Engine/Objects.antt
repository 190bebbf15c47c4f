-- ===== src/Engine/Objects.antt =====
-- What the daemon asks of libgnucash: pointers to the objects of a book, the getters that it reads them by, and the
-- calls that change them. A `const char*` that may be null is an Option; a date that g_date_valid refuses is `none`.
use daichod.Base.{ℕ, Bool, Option, List}
use daichod.Base.Int.{ℤ}
use daichod.Base.Text.{Bytes}
use daichod.Engine.Map.{GDate, GncAccountType, ReconcileFlags}
use daichod.Proto.{Date, Numeric}

-- The calls that change an object, or the book.
pub data Call (C A T S P : Type 0) : Type 0 where
  account_begin_edit account_commit_edit account_destroy : A → Call C A T S P
  account_set_name account_set_code account_set_description : A → Bytes → Call C A T S P
  account_set_type : A → GncAccountType → Call C A T S P
  account_set_commodity : A → C → Call C A T S P
  account_set_placeholder account_set_hidden : A → Bool → Call C A T S P
  account_append_child : A → A → Call C A T S P
  account_set_reconcile_last_date : A → ℤ → Call C A T S P
  trans_begin_edit trans_commit_edit trans_destroy : T → Call C A T S P
  trans_set_currency : T → C → Call C A T S P
  trans_set_date_posted : T → GDate → Call C A T S P
  trans_set_date_entered : T → ℤ → Call C A T S P
  trans_set_num trans_set_description : T → Bytes → Call C A T S P
  split_destroy : S → Call C A T S P
  split_set_parent : S → T → Call C A T S P
  split_set_account : S → A → Call C A T S P
  split_set_value split_set_amount : S → Numeric → Call C A T S P
  split_set_memo split_set_action : S → Bytes → Call C A T S P
  split_set_reconcile : S → ℕ → Call C A T S P
  price_begin_edit price_commit_edit pricedb_add_price price_unref : P → Call C A T S P
  price_set_commodity price_set_currency : P → C → Call C A T S P
  price_set_time64 : P → ℤ → Call C A T S P
  price_set_value : P → Numeric → Call C A T S P
  price_set_source : P → Bytes → Call C A T S P

-- B is the engine's state, G a GncGUID; C, A, T, S and P are pointers to a commodity, an account, a transaction, a split
-- and a price. One value is the engine as one request meets it: `now` is what gnc_time(nullptr) reads then, and the new objects
-- come with the GUIDs that are drawn then. Another request meets other ones, its `Chance`.
pub record Objects (B G C A T S P : Type 0) : Type 0 where
  pub perform : Call C A T S P → B → B
  pub malloc_account : B → A × B
  pub malloc_transaction : B → T × B
  pub malloc_split : B → S × B
  pub price_create : B → P × B
  pub string_to_guid : Bytes → Option G
  pub guid_to_string : G → Bytes
  pub account_lookup : B → G → Option A
  pub trans_lookup : B → G → Option T
  pub price_lookup : B → G → Option P
  pub commodity_lookup : B → Bytes → Bytes → Option C
  pub commodity_space : C → Bytes
  pub commodity_mnemonic : C → Bytes
  pub commodity_fullname : C → Option Bytes
  pub commodity_fraction : C → ℤ
  pub is_currency : C → Bool
  pub namespaces : B → List Bytes
  pub commodities_of : B → Bytes → List C
  pub root_account : B → A
  pub same_account : A → A → Bool
  pub account_guid : A → G
  pub account_parent : B → A → Option A
  pub account_name : B → A → Option Bytes
  pub account_type : B → A → GncAccountType
  pub account_commodity : B → A → Option C
  pub account_code : B → A → Option Bytes
  pub account_description : B → A → Option Bytes
  pub account_placeholder : B → A → Bool
  pub account_hidden : B → A → Bool
  pub account_has_splits : B → A → Bool
  pub account_n_children : B → A → ℕ
  pub descendants_sorted : B → A → List A
  pub reconcile_last_date : B → A → Option ℤ
  pub reconciled_balance : B → A → Numeric
  pub balance_as_of : B → A → ℤ → C → Bool → Numeric
  pub trans_guid : T → G
  pub trans_currency : B → T → Option C
  pub trans_date_posted : B → T → Option GDate
  pub trans_date_entered : B → T → ℤ
  pub trans_num : B → T → Option Bytes
  pub trans_description : B → T → Option Bytes
  pub trans_splits : B → T → List S
  pub imbalance_value : B → T → Numeric
  pub split_guid : S → G
  pub split_account : B → S → A
  pub split_parent : B → S → T
  pub split_value : B → S → Numeric
  pub split_amount : B → S → Numeric
  pub split_memo : B → S → Option Bytes
  pub split_action : B → S → Option Bytes
  pub split_reconcile : B → S → ℕ
  pub split_destroying : B → S → Bool
  -- The query for GNC_ID_SPLIT.
  pub all_splits : B → List S
  pub price_guid : P → G
  pub price_commodity : B → P → C
  pub price_currency : B → P → C
  pub price_time64 : B → P → ℤ
  pub price_value : B → P → Numeric
  pub price_source : B → P → Option Bytes
  pub prices_of : B → C → Option C → List P
  pub is_valid_dmy : GDate → Bool
  pub dmy2time64 : GDate → ℤ
  pub dmy2time64_end : GDate → ℤ
  pub dmy2time64_neutral : GDate → ℤ
  pub time64_to_gdate : ℤ → Option GDate
  pub now : ℤ
  pub show_date : Date → Bytes
  pub show_index : ℕ → Bytes
  pub flags : ReconcileFlags
  pub numeric_add : Numeric → Numeric → Numeric
  pub numeric_is_ok : Numeric → Bool
  pub numeric_is_zero : Numeric → Bool
  pub numeric_text : Numeric → Bytes

-- The clock and the new objects of another request.
pub record Chance (B A T S P : Type 0) : Type 0 where
  pub reads_now : ℤ
  pub draws_account : B → A × B
  pub draws_transaction : B → T × B
  pub draws_split : B → S × B
  pub draws_price : B → P × B

abbrev pub drawn :
    {B G C A T S P : Type 0} → Chance B A T S P → Objects B G C A T S P → Objects B G C A T S P
drawn chance e = record e {
  now = chance.reads_now;
  malloc_account = chance.draws_account;
  malloc_transaction = chance.draws_transaction;
  malloc_split = chance.draws_split;
  price_create = chance.draws_price;
}
