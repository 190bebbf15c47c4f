-- ===== src/Journal/Recovery/Verdict.antt =====
-- GuidExists and WasApplied of src/journal/recovery.cpp: does the book show that a pending mutation was
-- committed? The engine's lookups and the protobuf messages are an interface.
pub mod Tells
use daichod.Base.{
  ℕ, Bool, true, false, not, ◌≡◌, ◌≢◌, Option, none, some, List, [], ◌∷◌, is_some, leb, ◌-◌, length,
  if◌then◌else◌, arith, ◌&&◌,
}
use daichod.Base.Text.{Bytes, str, bytes_eq, bytes_eq_iff, drop}
use daichod.Journal.{PendingEntry}
use daichod.Journal.Recovery.{is_applied}

-- What WasApplied asks of the engine and of the messages. A message is read for the one GUID that
-- it is about, as the text in it; a lookup takes the GUID that string_to_guid has made of the text.
pub record Engine (B Guid A T : Type 0) : Type 0 where
  pub string_to_guid : Bytes → Option Guid
  pub account_lookup : B → Guid → Option A
  pub trans_lookup : B → Guid → Option T
  pub price_lookup : B → Guid → Bool
  -- AccountToProto, ReconcileInfoToProto and TransactionToProto, serialised.
  pub account_bytes : A → Bytes
  pub reconcile_info_bytes : A → Bytes
  pub transaction_bytes : T → Bytes
  pub parse_account : Bytes → Option Bytes
  pub parse_reconcile_info : Bytes → Option Bytes
  pub parse_transaction : Bytes → Option Bytes
  pub parse_price : Bytes → Option Bytes
  pub parse_delete_account : Bytes → Option Bytes
  pub parse_delete_transaction : Bytes → Option Bytes

-- The mutating RPCs, in the order of WasApplied's tests.
pub data Kind : Type 0 where
  create_account update_account delete_account set_reconcile_info : Kind
  post_transaction update_transaction delete_transaction add_price : Kind

-- ends_with of WasApplied
abbrev pub ends_with : Bytes → Bytes → Bool
ends_with rpc s = leb (length s) (length rpc) && bytes_eq (drop (length rpc - length s) rpc) s

-- The chain of tests of WasApplied.
unfoldable pub kind_of : Bytes → Option Kind
kind_of rpc =
    if ends_with rpc (str "/CreateAccount")
    then some create_account
    else if ends_with rpc (str "/UpdateAccount")
    then some update_account
    else if ends_with rpc (str "/DeleteAccount")
    then some delete_account
    else if ends_with rpc (str "/SetReconcileInfo")
    then some set_reconcile_info
    else if ends_with rpc (str "/PostTransaction")
    then some post_transaction
    else if ends_with rpc (str "/UpdateTransaction")
    then some update_transaction
    else if ends_with rpc (str "/DeleteTransaction")
    then some delete_transaction
    else if ends_with rpc (str "/AddPrice")
    then some add_price
    else none

-- Goes on with a value that is there.
abbrev pub on_some : {A B : Type 0} → Option A → (A → Option B) → Option B
on_some none f = none
on_some (some a) f = f a

module _ {B Guid A T : Type 0} (engine : Engine B Guid A T) (book : B) where
  -- GuidExists, for accounts and for transactions.
  abbrev pub account_exists : Bytes → Bool
  account_exists guid = is_some (on_some (engine.string_to_guid guid) (engine.account_lookup book))

  abbrev pub transaction_exists : Bytes → Bool
  transaction_exists guid =
      is_some (on_some (engine.string_to_guid guid) (engine.trans_lookup book))

  -- The account, or transaction, of an update, if it is there: does it read as the pending response?
  abbrev pub account_reads : (A → Bytes) → PendingEntry → Bytes → Option Bool
  account_reads to_bytes e guid = on_some (engine.string_to_guid guid) (λ g.
      on_some (engine.account_lookup book g) (λ a. some (bytes_eq (to_bytes a) e.pending_response)))

  abbrev pub transaction_reads : PendingEntry → Bytes → Option Bool
  transaction_reads e guid = on_some (engine.string_to_guid guid) (λ g.
      on_some (engine.trans_lookup book g)
        (λ t. some (bytes_eq (engine.transaction_bytes t) e.pending_response)))

  abbrev pub price_exists : Bytes → Option Bool
  price_exists guid = on_some (engine.string_to_guid guid) (λ g. some (engine.price_lookup book g))

  -- The branches of WasApplied.
  unfoldable pub verdict : Kind → PendingEntry → Option Bool
  verdict create_account e =
      on_some (engine.parse_account e.pending_response) (λ guid. some (account_exists guid))
  verdict update_account e =
      on_some (engine.parse_account e.pending_response) (account_reads engine.account_bytes e)
  verdict delete_account e =
      on_some (engine.parse_delete_account e.request_payload)
        (λ guid. some (not (account_exists guid)))
  verdict set_reconcile_info e =
      on_some (engine.parse_reconcile_info e.pending_response)
        (account_reads engine.reconcile_info_bytes e)
  verdict post_transaction e =
      on_some (engine.parse_transaction e.pending_response) (λ guid. some (transaction_exists guid))
  verdict update_transaction e =
      on_some (engine.parse_transaction e.pending_response) (transaction_reads e)
  verdict delete_transaction e =
      on_some (engine.parse_delete_transaction e.request_payload)
        (λ guid. some (not (transaction_exists guid)))
  verdict add_price e = on_some (engine.parse_price e.pending_response) price_exists

  -- WasApplied
  unfoldable pub was_applied : PendingEntry → Option Bool
  was_applied e = on_some (kind_of e.rpc_name) (λ k. verdict k e)
