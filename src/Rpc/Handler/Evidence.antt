-- ===== src/Rpc/Handler/Evidence.antt =====
-- What recovery parses and looks up (src/journal/recovery.cpp), answered by the messages and the objects of the book.
use daichod.Base.{some, ◌≡◌, ap, arith, is_some}
use daichod.Base.Text.{Bytes}
use daichod.Base.Codec.{Codec}
use daichod.Exec.{ok}
use daichod.Journal.Recovery.Verdict.{on_some, Engine}
use daichod.Engine.Objects.{Objects}
use daichod.Engine.Convert.{
  string_to_guid, find_transaction, find_account, transaction_to_proto, account_to_proto,
  reconcile_info_to_proto, option_map,
}
use daichod.Proto.{TransactionSpec, AccountSpec, ReconcileInfo, PriceSpec}

-- The messages that recovery parses.
pub record Codecs : Type 0 where
  pub accounts : Codec AccountSpec
  pub reconcile_infos : Codec ReconcileInfo
  pub transactions : Codec TransactionSpec
  pub prices : Codec PriceSpec
  -- DeleteAccountRequest and DeleteTransactionRequest are their GUID.
  pub delete_accounts : Codec Bytes
  pub delete_transactions : Codec Bytes
  -- shim::Empty
  pub empties : Codec (Unit {0})

pub serialize_injective :
    {X : Type 0} (codec : Codec X) (x y : X) → codec.serialize x ≡ codec.serialize y → x ≡ y
serialize_injective codec x y same =
    ground (arith, codec.parse-serialize x, codec.parse-serialize y, ap codec.parse same)

module _ {B G C A T S P : Type 0} (e : Objects B G C A T S P) (codecs : Codecs) where
  -- What recovery asks, answered by the objects of the book: an object is read in the book that it was found in.
  abbrev pub recovery_engine : Engine B G (B × A) (B × T)
  recovery_engine = record {
    string_to_guid = e.string_to_guid;
    account_lookup = λ b g. option_map (λ a. (b, a)) (e.account_lookup b g);
    trans_lookup = λ b g. option_map (λ t. (b, t)) (e.trans_lookup b g);
    price_lookup = λ b g. is_some (e.price_lookup b g);
    account_bytes = λ p. codecs.accounts.serialize (account_to_proto e p.0 p.1);
    reconcile_info_bytes =
        λ p. codecs.reconcile_infos.serialize (reconcile_info_to_proto e p.0 p.1);
    transaction_bytes = λ p. codecs.transactions.serialize (transaction_to_proto e p.0 p.1);
    parse_account = λ bytes. option_map (λ m. m.guid) (codecs.accounts.parse bytes);
    parse_reconcile_info =
        λ bytes. option_map (λ m. m.account_guid) (codecs.reconcile_infos.parse bytes);
    parse_transaction = λ bytes. option_map (λ m. m.guid) (codecs.transactions.parse bytes);
    parse_price = λ bytes. option_map (λ m. m.guid) (codecs.prices.parse bytes);
    parse_delete_account = codecs.delete_accounts.parse;
    parse_delete_transaction = codecs.delete_transactions.parse;
  }

  -- What a handler has found is what recovery would find.
  pub find_account-found :
      (b : B) (guid context : Bytes) (a : A)
      → find_account e b guid context ≡ ok a
      → on_some (e.string_to_guid guid) (e.account_lookup b) ≡ some a
  unfolding find_account string_to_guid
  find_account-found b guid context a h = ground arith

  pub find_transaction-found :
      (b : B) (guid context : Bytes) (t : T)
      → find_transaction e b guid context ≡ ok t
      → on_some (e.string_to_guid guid) (e.trans_lookup b) ≡ some t
  unfolding find_transaction string_to_guid
  find_transaction-found b guid context t h = ground arith
