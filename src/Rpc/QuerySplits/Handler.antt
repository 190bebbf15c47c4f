-- ===== src/Rpc/QuerySplits/Handler.antt =====
-- The handler of QuerySplits in src/rpc/transaction_service.cpp: the inputs that it resolves, the query that it builds, and
-- the messages of a page.
use daichod.Base.{
  Bool, true, false, not, ◌||◌, Option, none, some, List, [], ◌∷◌, ◌++◌, map, is_some,
}
use daichod.Base.Int.{ℤ}
use daichod.Base.Text.{Bytes, str, empty}
use daichod.Exec.{Result, ok, Exec, ◌>>◌}
use daichod.World.{World}
use daichod.Engine.Map.{refuse, date_from_proto, date_to_proto, numeric_from_proto}
use daichod.Engine.Convert.{find_account, split_to_proto, commodity_id_to_proto, option_map, safe}
use daichod.Engine.Objects.{Objects}
use daichod.Engine.Session.{Session}
use daichod.Proto.{Date, Numeric, CommodityId, SplitSpec, ReconcileState}
use daichod.Rpc.Handler.{check, require_book}
use daichod.Rpc.Plan.Types.{and_then}
use daichod.Rpc.QuerySplits.{ClearedMask, Page, cleared_mask_from_states, query_splits}

-- shim::QuerySplitsRequest, shim::SplitWithContext and shim::QuerySplitsResponse
pub record SplitsRequest : Type 0 where
  pub account_guids : List Bytes
  pub date_from : Option Date
  pub date_to : Option Date
  pub description_contains : Bytes
  pub memo_contains : Bytes
  pub value_min : Option Numeric
  pub value_max : Option Numeric
  pub states : List ReconcileState
  pub page_size : ℤ
  pub page_token : Bytes

pub record SplitWithContext : Type 0 where
  pub split : SplitSpec
  pub transaction_guid : Bytes
  pub post_date : Option Date
  pub description : Bytes
  pub txn_currency : Option CommodityId

pub record SplitsResponse : Type 0 where
  pub splits : List SplitWithContext
  pub next_page_token : Bytes

-- The terms that are added to the engine's query, all joined by "and".
pub data Term (A : Type 0) : Type 0 where
  account_match : List A → Term A
  date_match : Option ℤ → Option ℤ → Term A
  description_match : Bytes → Term A
  memo_match : Bytes → Term A
  cleared_match : ClearedMask → Term A

-- The inputs, validated and resolved.
pub record Resolved (A : Type 0) : Type 0 where
  pub accounts : List A
  pub start : Option ℤ
  pub end : Option ℤ
  pub cleared_mask : ClearedMask
  pub value_min : Option Numeric
  pub value_max : Option Numeric

-- An optional field, resolved if it is set.
abbrev resolve_if : {X Y : Type 0} → Option X → (X → Result Y) → Result (Option Y)
resolve_if none f = ok none
resolve_if (some x) f = and_then (f x) (λ y. ok (some y))

abbrev mask_or_throw : Option ClearedMask → Result ClearedMask
mask_or_throw none = refuse (str "unspecified reconcile state") (str "states")
mask_or_throw (some m) = ok m

-- A term, unless it is left out.
abbrev term_if : {A : Type 0} → Bool → Term A → List (Term A)
term_if true t = t ∷ []
term_if false t = []

-- `gnc_numeric_compare`, and the run of a query, are the engine's.
module _ {B G C A T S P : Type 0} (e : Objects B G C A T S P)
    (numeric_compare : Numeric → Numeric → ℤ) (qof_query_run : B → List (Term A) → List S) where
  -- The loop over the accounts, which puts each in front.
  unfoldable pub find_accounts : B → List Bytes → List A → Result (List A)
  find_accounts b [] accounts = ok accounts
  find_accounts b (guid ∷ guids) accounts =
      and_then (find_account e b guid (str "account_guids"))
        (λ a. find_accounts b guids (a ∷ accounts))

  abbrev pub resolve_inputs : B → SplitsRequest → Result (Resolved A)
  resolve_inputs b q = and_then (find_accounts b q.account_guids []) (λ accounts.
      and_then
        (resolve_if q.date_from (λ d.
          and_then (date_from_proto e.is_valid_dmy e.show_date d (str "date_from"))
            (λ g. ok (e.dmy2time64 g))))
        (λ start.
          and_then
            (resolve_if q.date_to (λ d.
              and_then (date_from_proto e.is_valid_dmy e.show_date d (str "date_to"))
                (λ g. ok (e.dmy2time64_end g))))
            (λ end. and_then (mask_or_throw (cleared_mask_from_states q.states)) (λ mask.
              and_then (resolve_if q.value_min (λ n. numeric_from_proto n (str "value_min")))
                (λ low.
                  and_then (resolve_if q.value_max (λ n. numeric_from_proto n (str "value_max")))
                    (λ high. ok (record {
                      accounts = accounts;
                      start = start;
                      end = end;
                      cleared_mask = mask;
                      value_min = low;
                      value_max = high;
                    })))))))

  abbrev is_nil : {X : Type 0} → List X → Bool
  is_nil [] = true
  is_nil (x ∷ xs) = false

  -- The query, term by term.
  abbrev pub terms_of : SplitsRequest → Resolved A → List (Term A)
  terms_of q r =
      term_if (not (is_nil r.accounts)) (account_match r.accounts)
      ++ (term_if (is_some q.date_from || is_some q.date_to) (date_match r.start r.end)
          ++ (term_if (not (empty q.description_contains))
                (description_match q.description_contains)
              ++ (term_if (not (empty q.memo_contains)) (memo_match q.memo_contains)
                  ++ term_if (not (is_nil q.states)) (cleared_match r.cleared_mask))))

  -- One SplitWithContext.
  abbrev pub split_with_context : B → S → SplitWithContext
  split_with_context b s = record {
    split = split_to_proto e b s;
    transaction_guid = e.guid_to_string (e.trans_guid (e.split_parent b s));
    post_date = option_map date_to_proto (e.trans_date_posted b (e.split_parent b s));
    description = safe (e.trans_description b (e.split_parent b s));
    txn_currency = option_map (commodity_id_to_proto e) (e.trans_currency b (e.split_parent b s));
  }

  abbrev pub to_response : B → Page S → SplitsResponse
  to_response b page = record {
    splits = map (split_with_context b) page.splits;
    next_page_token = page.next_page_token;
  }

  -- The body of QuerySplits once the book is open.
  unfoldable pub query_page : B → SplitsRequest → Result SplitsResponse
  query_page b q = and_then (resolve_inputs b q) (λ r.
      and_then
        (query_splits (λ s. e.guid_to_string (e.split_guid s)) (e.split_value b) numeric_compare
          (record {
            page_token = q.page_token;
            page_size = q.page_size;
            value_min = r.value_min;
            value_max = r.value_max;
          })
          (qof_query_run b (terms_of q r)))
        (λ page. ok (to_response b page)))

  -- QuerySplits
  unfoldable pub query_splits_handler : Session → SplitsRequest → Exec (World B) SplitsResponse
  query_splits_handler session q = do check (require_book session); check (λ b. query_page b q)
