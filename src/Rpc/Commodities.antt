-- ===== src/Rpc/Commodities.antt =====
-- src/rpc/commodity_service.cpp: the handlers of commodities, prices and balances, as they run on the engine thread.
pub mod Staged
pub mod Once
use daichod.Base.{
  ℕ, Bool, true, false, not, ◌||◌, ◌&&◌, Option, none, some, List, [], ◌∷◌, ◌++◌, map, keep,
  if◌then◌else◌,
}
use daichod.Base.Int.{ℤ, ltb_ℤ}
use daichod.Base.Text.{Bytes, str, empty}
use daichod.Exec.{Result, ok, err, Exec, pure, ◌>>=◌, ◌>>◌}
use daichod.World.{World, Backend}
use daichod.Rpc.Error.{shim, currency_mismatch}
use daichod.Engine.Map.{GDate, refuse, date_from_proto, date_to_proto, numeric_from_proto}
use daichod.Engine.Objects.{
  Objects, Call, price_begin_edit, price_commit_edit, pricedb_add_price, price_unref,
  price_set_commodity, price_set_currency, price_set_time64, price_set_value, price_set_source,
}
use daichod.Engine.Convert.{
  find_account, find_commodity, commodity_to_proto, commodity_id_to_proto, price_to_proto,
}
use daichod.Engine.Session.{Session}
use daichod.Proto.{Date, Numeric, CommodityId, CommodityMessage, PriceSpec}
use daichod.Rpc.Handler.{check, read, edit, alloc, commit, require_book}
use daichod.Rpc.Mutation.{Recorder}
use daichod.Rpc.Plan.Types.{and_then}
use daichod.Rpc.Transactions.{perform_all}

-- shim::GetPricesRequest, shim::GetBalanceRequest and shim::Balance
pub record PricesRequest : Type 0 where
  pub commodity : CommodityId
  pub currency : Option CommodityId
  pub date_from : Option Date
  pub date_to : Option Date

pub record BalanceRequest : Type 0 where
  pub account_guid : Bytes
  pub as_of : Option Date
  pub include_children : Bool
  pub convert_to : Option CommodityId

pub record Balance : Type 0 where
  pub amount : Numeric
  pub commodity : CommodityId
  pub as_of : Date

-- What AddPrice looks up and checks.
pub record PricePlan (C : Type 0) : Type 0 where
  pub commodity : C
  pub currency : C
  pub date : GDate
  pub value : Numeric

-- What GetPrices has resolved before it asks the price database.
pub record PricesPlan (C : Type 0) : Type 0 where
  pub commodity : C
  pub currency : Option C
  pub from : Option ℤ
  pub to : Option ℤ

-- An optional field, resolved if it is set.
abbrev pub if_set : {X Y : Type 0} → Option X → (X → Result Y) → Result (Option Y)
if_set none f = ok none
if_set (some x) f = and_then (f x) (λ y. ok (some y))

abbrev pub concat_map : {X Y : Type 0} → (X → List Y) → List X → List Y
concat_map f [] = []
concat_map f (x ∷ xs) = f x ++ concat_map f xs

-- The end of time that GetBalance takes for "latest".
abbrev pub latest : GDate
latest = record { g_year = 9999; g_month = 12; g_day = 31 }

module _ {B G C A T S P : Type 0} (e : Objects B G C A T S P) where
  abbrev pub date_in : Date → Bytes → Result GDate
  date_in = date_from_proto e.is_valid_dmy e.show_date

  -- What AddPrice looks up once the book is open.
  abbrev pub plan_price : B → PriceSpec → Result (PricePlan C)
  plan_price b spec =
      and_then (find_commodity e b spec.commodity (str "price.commodity")) (λ commodity.
        and_then (find_commodity e b spec.currency (str "price.currency")) (λ currency.
          if e.is_currency currency
          then elim spec.date [
            | none ↦ refuse (str "date is required") (str "price.date")
            | some d ↦ and_then (date_in d (str "price.date")) (λ date.
                and_then (numeric_from_proto spec.value (str "price.value")) (λ value. ok (record {
                  commodity = commodity;
                  currency = currency;
                  date = date;
                  value = value;
                })))
          ]
          else err (
              shim (record {
                code = currency_mismatch;
                engine_message = str "price currency is not a currency commodity";
                context = str "price.currency";
              }))))

  -- The setters of AddPrice, in order.
  abbrev pub fill_price : P → PriceSpec → PricePlan C → List (Call C A T S P)
  fill_price p spec plan =
      price_set_commodity p plan.commodity
      ∷ price_set_currency p plan.currency
      ∷ price_set_time64 p (e.dmy2time64_neutral plan.date)
      ∷ price_set_value p plan.value
      ∷ price_set_source p (if empty spec.source then str "shim:api" else spec.source)
      ∷ []

  -- What GetPrices resolves once the book is open.
  abbrev pub plan_prices : B → PricesRequest → Result (PricesPlan C)
  plan_prices b q = and_then (find_commodity e b q.commodity (str "commodity")) (λ commodity.
      and_then (if_set q.currency (λ id. find_commodity e b id (str "currency"))) (λ currency.
        and_then
          (if_set q.date_from
            (λ d. and_then (date_in d (str "date_from")) (λ g. ok (e.dmy2time64 g))))
          (λ from.
            and_then
              (if_set q.date_to
                (λ d. and_then (date_in d (str "date_to")) (λ g. ok (e.dmy2time64_end g))))
              (λ to.
                ok (record { commodity = commodity; currency = currency; from = from; to = to })))))

  abbrev pub is_before : Option ℤ → ℤ → Bool
  is_before none stamp = false
  is_before (some from) stamp = ltb_ℤ stamp from

  abbrev pub is_after : Option ℤ → ℤ → Bool
  is_after none stamp = false
  is_after (some to) stamp = ltb_ℤ to stamp

  -- The loop of GetPrices.
  unfoldable pub collect_prices : B → PricesPlan C → List P → List PriceSpec
  collect_prices b plan [] = []
  collect_prices b plan (p ∷ ps) =
      let rest = collect_prices b plan ps in
      if is_before plan.from (e.price_time64 b p)
      then rest
      else if is_after plan.to (e.price_time64 b p)
      then rest
      else price_to_proto e b p ∷ rest

  -- The date, the commodity and the amount of GetBalance.
  abbrev pub as_of_date : Option Date → Result GDate
  as_of_date none = ok latest
  as_of_date (some d) = date_in d (str "as_of")

  abbrev pub target_of : B → A → BalanceRequest → Result C
  target_of b a q = elim q.convert_to [
    | some id ↦ find_commodity e b id (str "convert_to")
    | none ↦ elim (e.account_commodity b a) [
      | some c ↦ ok c
      | none ↦ refuse (str "account has no commodity and convert_to is unset") q.account_guid
    ]
  ]

  abbrev pub reported_date : Option Date → GDate → Date
  reported_date none g = date_to_proto g
  reported_date (some d) g = d

  module _ (backend : Backend B) (session : Session) where
    -- ListCommodities
    unfoldable pub list_commodities : Exec (World B) (List CommodityMessage)
    list_commodities = do
      check (require_book session)
      read (λ b.
          concat_map (λ ns. map (commodity_to_proto e) (e.commodities_of b ns)) (e.namespaces b))

    -- GetPrices
    unfoldable pub get_prices : PricesRequest → Exec (World B) (List PriceSpec)
    get_prices q = do
      check (require_book session)
      plan ← check (λ b. plan_prices b q)
      read (λ b. collect_prices b plan (e.prices_of b plan.commodity plan.currency))

    -- The body of AddPrice.
    unfoldable pub add_price : PriceSpec → Recorder B PriceSpec → Exec (World B) PriceSpec
    add_price spec record_pending = do
      check (λ b.
          if empty spec.guid
          then ok tt
          else refuse (str "guid must be empty on create; the engine assigns") (str "price.guid"))
      check (require_book session)
      plan ← check (λ b. plan_price b spec)
      p ← alloc e.price_create
      edit (e.perform (price_begin_edit p))
      edit (perform_all e (fill_price p spec plan))
      out ← read (λ b. price_to_proto e b p)
      record_pending out
      commit backend (e.perform (price_commit_edit p))
      commit backend (e.perform (pricedb_add_price p))
      edit (e.perform (price_unref p))
      pure out

    -- GetBalance
    unfoldable pub get_balance : BalanceRequest → Exec (World B) Balance
    get_balance q = do
      check (require_book session)
      a ← check (λ b. find_account e b q.account_guid (str "account_guid"))
      date ← check (λ b. as_of_date q.as_of)
      target ← check (λ b. target_of b a q)
      read (λ b. record {
        amount = e.balance_as_of b a (e.dmy2time64_end date) target q.include_children;
        commodity = commodity_id_to_proto e target;
        as_of = reported_date q.as_of date;
      })
