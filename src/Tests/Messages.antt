-- ===== src/Tests/Messages.antt =====
-- Concrete codecs of the messages that recovery parses.
use daichod.Base.{some, [], refl}
use daichod.Proto.{
  Date, Numeric, CommodityId, SplitSpec, TransactionSpec, AccountSpec, ReconcileInfo, PriceSpec,
}
use daichod.Rpc.Handler.Evidence.{Codecs}
use daichod.Tests.Fields.{
  Field, both, as_field, many, perhaps, codec_of, text, truth, integer, type_field, state_field,
}

abbrev date_field : Field Date
date_field =
    as_field (both integer (both integer integer)) (λ d. (d.year, (d.month, d.day)))
      (λ p. record { year = p.0; month = p.1.0; day = p.1.1 }) (λ d. refl)

abbrev numeric_field : Field Numeric
numeric_field =
    as_field (both integer integer) (λ n. (n.num, n.denom)) (λ p. record { num = p.0; denom = p.1 })
      (λ n. refl)

abbrev commodity_field : Field CommodityId
commodity_field =
    as_field (both text text) (λ c. (c.space, c.mnemonic))
      (λ p. record { space = p.0; mnemonic = p.1 }) (λ c. refl)

abbrev split_field : Field SplitSpec
split_field =
    as_field
      (both text
        (both text (both numeric_field (both numeric_field (both text (both text state_field))))))
      (λ s. (
        s.guid,
        (s.account_guid, (s.value, (s.quantity, (s.memo, (s.action, s.reconcile_state))))),
      ))
      (λ p. record {
        guid = p.0;
        account_guid = p.1.0;
        value = p.1.1.0;
        quantity = p.1.1.1.0;
        memo = p.1.1.1.1.0;
        action = p.1.1.1.1.1.0;
        reconcile_state = p.1.1.1.1.1.1;
      })
      (λ s. refl)

abbrev transaction_field : Field TransactionSpec
transaction_field =
    as_field
      (both text (
        both (perhaps commodity_field)
          (both (perhaps date_field) (both integer (both text (both text (many split_field)))))))
      (λ s. (
        s.guid,
        (s.currency, (s.post_date, (s.enter_time_utc, (s.num, (s.description, s.splits))))),
      ))
      (λ p. record {
        guid = p.0;
        currency = p.1.0;
        post_date = p.1.1.0;
        enter_time_utc = p.1.1.1.0;
        num = p.1.1.1.1.0;
        description = p.1.1.1.1.1.0;
        splits = p.1.1.1.1.1.1;
      })
      (λ s. refl)

abbrev account_field : Field AccountSpec
account_field =
    as_field
      (both text (
        both text (
          both text (
            both type_field
              (both (perhaps commodity_field) (both text (both text (both truth truth))))))))
      (λ a. (
        a.guid,
        (
          a.parent_guid,
          (
            a.name,
            (a.type_of, (a.commodity, (a.code, (a.description, (a.placeholder, a.hidden))))),
          ),
        ),
      ))
      (λ p. record {
        guid = p.0;
        parent_guid = p.1.0;
        name = p.1.1.0;
        type_of = p.1.1.1.0;
        commodity = p.1.1.1.1.0;
        code = p.1.1.1.1.1.0;
        description = p.1.1.1.1.1.1.0;
        placeholder = p.1.1.1.1.1.1.1.0;
        hidden = p.1.1.1.1.1.1.1.1;
      })
      (λ a. refl)

abbrev info_field : Field ReconcileInfo
info_field =
    as_field (both text (both (perhaps date_field) numeric_field))
      (λ r. (r.account_guid, (r.last_date, r.reconciled_balance)))
      (λ p. record { account_guid = p.0; last_date = p.1.0; reconciled_balance = p.1.1 })
      (λ r. refl)

abbrev price_field : Field PriceSpec
price_field =
    as_field
      (both text (
        both commodity_field
          (both commodity_field (both (perhaps date_field) (both numeric_field text)))))
      (λ s. (s.guid, (s.commodity, (s.currency, (s.date, (s.value, s.source))))))
      (λ p. record {
        guid = p.0;
        commodity = p.1.0;
        currency = p.1.1.0;
        date = p.1.1.1.0;
        value = p.1.1.1.1.0;
        source = p.1.1.1.1.1;
      })
      (λ s. refl)

abbrev pub toy_codecs : Codecs
toy_codecs = record {
  accounts = codec_of account_field;
  reconcile_infos = codec_of info_field;
  transactions = codec_of transaction_field;
  prices = codec_of price_field;
  delete_accounts = codec_of text;
  delete_transactions = codec_of text;
  empties = record { serialize = λ u. []; parse = λ s. some tt; parse-serialize = λ u. refl };
}
