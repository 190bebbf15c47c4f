-- ===== src/Engine/Convert.antt =====
-- src/engine/map.cpp: finding the engine's objects for a message, and writing them to messages.
use daichod.Base.{not, Option, none, some, [], ◌++◌, map, keep}
use daichod.Base.Int.{ℤ}
use daichod.Base.Text.{Bytes, str}
use daichod.Exec.{Result, ok, err}
use daichod.Rpc.Error.{ErrorCode, shim, account_not_found, txn_not_found, commodity_not_found}
use daichod.Engine.Map.{
  GDate, refuse, account_type_to_proto, reconcile_state_to_proto, date_to_proto,
}
use daichod.Engine.Objects.{Objects}
use daichod.Proto.{
  CommodityId, SplitSpec, TransactionSpec, AccountSpec, ReconcileInfo, CommodityMessage, PriceSpec,
}
use daichod.Rpc.Plan.Types.{and_then}

abbrev pub not_found : {X : Type 0} → ErrorCode → Bytes → Bytes → Result X
not_found c message context =
    err (shim (record { code = c; engine_message = message; context = context }))

-- A pointer that was looked up, or the error.
abbrev pub found : {X : Type 0} → Option X → Result X → Result X
found none missing = missing
found (some x) missing = ok x

-- safe
abbrev pub safe : Option Bytes → Bytes
safe none = []
safe (some s) = s

abbrev pub option_map : {X Y : Type 0} → (X → Y) → Option X → Option Y
option_map f none = none
option_map f (some x) = some (f x)

-- The default instance of an unset message.
abbrev pub id_or_default : Option CommodityId → CommodityId
id_or_default none = record { space = []; mnemonic = [] }
id_or_default (some id) = id

module _ {B G C A T S P : Type 0} (e : Objects B G C A T S P) where
  -- StringToGuid
  unfoldable pub string_to_guid : Bytes → Bytes → Result G
  string_to_guid text context =
      found (e.string_to_guid text) (refuse (str "malformed GUID: " ++ text) context)

  -- FindCommodity
  unfoldable pub find_commodity : B → CommodityId → Bytes → Result C
  find_commodity book id context = found (e.commodity_lookup book id.space id.mnemonic) (
      not_found commodity_not_found
        (str "no commodity {" ++ (id.space ++ (str ", " ++ (id.mnemonic ++ str "}")))) context)

  -- FindAccount
  unfoldable pub find_account : B → Bytes → Bytes → Result A
  find_account book guid context = and_then (string_to_guid guid context) (λ parsed.
      found (e.account_lookup book parsed)
        (not_found account_not_found (str "no account " ++ guid) context))

  -- FindTransaction
  unfoldable pub find_transaction : B → Bytes → Bytes → Result T
  find_transaction book guid context = and_then (string_to_guid guid context) (λ parsed.
      found (e.trans_lookup book parsed)
        (not_found txn_not_found (str "no transaction " ++ guid) context))

  -- CommodityIdToProto
  abbrev pub commodity_id_to_proto : C → CommodityId
  commodity_id_to_proto c = record {
    space = e.commodity_space c;
    mnemonic = e.commodity_mnemonic c;
  }

  -- CommodityToProto
  unfoldable pub commodity_to_proto : C → CommodityMessage
  commodity_to_proto c = record {
    id = commodity_id_to_proto c;
    fullname = safe (e.commodity_fullname c);
    fraction = e.commodity_fraction c;
    is_currency = e.is_currency c;
  }

  -- SplitToProto
  unfoldable pub split_to_proto : B → S → SplitSpec
  split_to_proto b s = record {
    guid = e.guid_to_string (e.split_guid s);
    account_guid = e.guid_to_string (e.account_guid (e.split_account b s));
    value = e.split_value b s;
    quantity = e.split_amount b s;
    memo = safe (e.split_memo b s);
    action = safe (e.split_action b s);
    reconcile_state = reconcile_state_to_proto e.flags (e.split_reconcile b s);
  }

  -- TransactionToProto: a split that is queued for destruction is left out.
  unfoldable pub transaction_to_proto : B → T → TransactionSpec
  transaction_to_proto b t = record {
    guid = e.guid_to_string (e.trans_guid t);
    currency = option_map commodity_id_to_proto (e.trans_currency b t);
    post_date = option_map date_to_proto (e.trans_date_posted b t);
    enter_time_utc = e.trans_date_entered b t;
    num = safe (e.trans_num b t);
    description = safe (e.trans_description b t);
    splits = map (split_to_proto b) (keep (λ s. not (e.split_destroying b s)) (e.trans_splits b t));
  }

  -- AccountToProto
  unfoldable pub account_to_proto : B → A → AccountSpec
  account_to_proto b a = record {
    guid = e.guid_to_string (e.account_guid a);
    parent_guid =
        safe (option_map (λ p. e.guid_to_string (e.account_guid p)) (e.account_parent b a));
    name = safe (e.account_name b a);
    type_of = account_type_to_proto (e.account_type b a);
    commodity = option_map commodity_id_to_proto (e.account_commodity b a);
    code = safe (e.account_code b a);
    description = safe (e.account_description b a);
    placeholder = e.account_placeholder b a;
    hidden = e.account_hidden b a;
  }

  abbrev date_of : Option GDate → Option daichod.Proto.Date
  date_of = option_map date_to_proto

  -- GLib reads an invalid GDate as G_DATE_BAD_YEAR, G_DATE_BAD_MONTH and G_DATE_BAD_DAY, which are all 0.
  abbrev read_or_bad : Option GDate → GDate
  read_or_bad none = record { g_year = 0; g_month = 0; g_day = 0 }
  read_or_bad (some date) = date

  abbrev last_date_of : Option ℤ → Option daichod.Proto.Date
  last_date_of none = none
  last_date_of (some stamp) = some (date_to_proto (read_or_bad (e.time64_to_gdate stamp)))

  -- ReconcileInfoToProto
  unfoldable pub reconcile_info_to_proto : B → A → ReconcileInfo
  reconcile_info_to_proto b a = record {
    account_guid = e.guid_to_string (e.account_guid a);
    last_date = last_date_of (e.reconcile_last_date b a);
    reconciled_balance = e.reconciled_balance b a;
  }

  -- PriceToProto
  unfoldable pub price_to_proto : B → P → PriceSpec
  price_to_proto b p = record {
    guid = e.guid_to_string (e.price_guid p);
    commodity = commodity_id_to_proto (e.price_commodity b p);
    currency = commodity_id_to_proto (e.price_currency b p);
    date = date_of (e.time64_to_gdate (e.price_time64 b p));
    value = e.price_value b p;
    source = safe (e.price_source b p);
  }
