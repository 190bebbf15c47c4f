-- ===== src/Tests/Accounts.antt =====
-- The crash story of accounts and of prices on the small engine.
use daichod.Base.{ℕ, ap, ◌≡◌, ◌≢◌, refl, false, none, some, [], ◌∷◌, arith}
use daichod.Base.Int.{pos}
use daichod.Base.Text.{Bytes, str, empty, bytes_eq, drop}
use daichod.Exec.{ok}
use daichod.Engine.Map.{acct_bank, numeric_from_proto, date_from_proto, account_type_from_proto}
use daichod.Engine.Objects.{account_begin_edit}
use daichod.Engine.Laws.{GuidsParse, AccountCommitLaws}
use daichod.Engine.Convert.{account_to_proto, find_account, find_commodity, string_to_guid}
use daichod.Engine.Session.{book}
use daichod.Journal.Recovery.Verdict.{
  kind_of, create_account as creating, update_account as updating, delete_account as deleting,
  add_price as pricing,
}
use daichod.Proto.{AccountSpec, PriceSpec, bank}
use daichod.Rpc.Handler.Evidence.{recovery_engine}
use daichod.Rpc.Handler.Anew.{HappensAnew}
use daichod.Engine.Objects.{drawn}
use daichod.Rpc.Handler.Once.{HappensOnce}
use daichod.Rpc.Transactions.{perform_all}
use daichod.Rpc.Accounts.{
  AccountPlan, plan_create, plan_update, apply_update, climb, create_account, update_account,
  delete_account,
}
use daichod.Rpc.Accounts.Staged.{
  stage_account, created, destroyed, stage_create, stage_update, stage_delete,
}
use daichod.Rpc.Accounts.Once.{
  create_account_exactly_once, update_account_exactly_once, delete_account_exactly_once,
}
use daichod.Rpc.Commodities.{PricePlan, plan_price, add_price}
use daichod.Rpc.Commodities.Staged.{priced, stage_priced, stage_add_price}
use daichod.Rpc.Commodities.Once.{add_price_exactly_once}
use daichod.Tests.Toy.{toy_outcomes, toy_sha}
use daichod.Tests.Messages.{toy_codecs}
use daichod.Tests.Objects.{next_chance, registry, amount_of, some_day}
use daichod.Tests.Handlers.{
  sent_early-IsFresh, sent_early, book_backend, start, opened, no_rows, sent, sent_with,
  sent-IsFresh,
}

abbrev savings : Bytes → AccountSpec
savings guid = record {
  guid = guid;
  parent_guid = 0 ∷ [];
  name = b's' ∷ [];
  type_of = bank;
  commodity = none;
  code = [];
  description = [];
  placeholder = false;
  hidden = false;
}

abbrev below_the_root : AccountPlan ℕ ℕ
below_the_root = record { parent = 0; type_of = acct_bank; commodity = 0 }

abbrev create_rpc : Bytes
create_rpc = str "daicho.shim.v1.AccountService/CreateAccount"

abbrev update_rpc : Bytes
update_rpc = str "daicho.shim.v1.AccountService/UpdateAccount"

abbrev delete_rpc : Bytes
delete_rpc = str "daicho.shim.v1.AccountService/DeleteAccount"

abbrev price_rpc : Bytes
price_rpc = str "daicho.shim.v1.CommodityService/AddPrice"

registry-GuidsParse : GuidsParse registry
registry-GuidsParse g = refl

registry-AccountCommitLaws :
    AccountCommitLaws registry 2
      (stage_account registry opened (account_to_proto registry) 2 (
        apply_update registry 2
          (savings (2 ∷ []))
          below_the_root
          (registry.perform (account_begin_edit 2) start))).edited
registry-AccountCommitLaws = record {
  parent_kept = refl;
  name_kept = refl;
  type_kept = refl;
  commodity_kept = refl;
  code_kept = refl;
  description_kept = refl;
  placeholder_kept = refl;
  hidden_kept = refl;
  last_date_kept = refl;
  balance_kept = refl;
}

create_rpc-kind : kind_of create_rpc ≡ some creating
unfolding kind_of str bytes_eq drop
create_rpc-kind = refl

update_rpc-kind : kind_of update_rpc ≡ some updating
unfolding kind_of str bytes_eq drop
update_rpc-kind = refl

delete_rpc-kind : kind_of delete_rpc ≡ some deleting
unfolding kind_of str bytes_eq drop
delete_rpc-kind = refl

price_rpc-kind : kind_of price_rpc ≡ some pricing
unfolding kind_of str bytes_eq drop
price_rpc-kind = refl

savings-plan_create : plan_create registry start (savings []) ≡ ok below_the_root
unfolding find_account find_commodity string_to_guid account_type_from_proto
savings-plan_create = refl

savings-plan_update : plan_update registry 9 start 2 (savings (2 ∷ [])) ≡ ok below_the_root
unfolding find_account find_commodity string_to_guid account_type_from_proto climb empty
savings-plan_update = refl

found_lem : find_account registry start (2 ∷ []) (str "account.guid") ≡ ok 2
unfolding find_account string_to_guid
found_lem = refl

create_account_exactly_once_example :
    HappensAnew toy_sha toy_outcomes toy_codecs.accounts book_backend
      (recovery_engine registry toy_codecs)
      (λ e. 9)
      (create_account registry book_backend opened (savings []))
      (create_account (drawn next_chance registry) book_backend opened (savings []))
      (sent_early create_rpc)
      6
      no_rows
      start
      (stage_create registry opened (savings []))
      (stage_create (drawn next_chance registry) opened (savings []))
      (stage_account registry opened
        (account_to_proto registry)
        9
        (created registry opened (savings []) below_the_root start))
      (stage_account
        (drawn next_chance registry)
        opened
        (account_to_proto (drawn next_chance registry))
        8
        (created (drawn next_chance registry) opened (savings []) below_the_root start))
unfolding empty book perform_all
create_account_exactly_once_example =
    create_account_exactly_once registry toy_codecs toy_sha toy_outcomes book_backend opened
      (λ e. 9) (sent_early create_rpc) 6 no_rows start next_chance (savings []) below_the_root
      registry-GuidsParse (sent_early-IsFresh create_rpc) create_rpc-kind refl refl refl refl
      savings-plan_create refl refl

savings-differs :
    account_to_proto registry start 2
    ≢ (stage_account registry opened (account_to_proto registry) 2 (
        apply_update registry 2
          (savings (2 ∷ []))
          below_the_root
          (registry.perform (account_begin_edit 2) start))).response
unfolding account_to_proto apply_update perform_all
savings-differs h = ground (arith, ap (λ (m : AccountSpec). m.name) h)

update_account_exactly_once_example :
    HappensOnce toy_sha toy_outcomes toy_codecs.accounts book_backend
      (recovery_engine registry toy_codecs)
      (λ e. 9)
      (update_account registry book_backend opened 9 (savings (2 ∷ [])))
      (sent update_rpc)
      6
      no_rows
      start
      (stage_update registry opened 9 (savings (2 ∷ [])))
      (stage_account registry opened (account_to_proto registry) 2 (
        apply_update registry 2
          (savings (2 ∷ []))
          below_the_root
          (registry.perform (account_begin_edit 2) start)))
unfolding empty book perform_all apply_update
update_account_exactly_once_example =
    update_account_exactly_once registry toy_codecs toy_sha toy_outcomes book_backend opened
      (λ e. 9) (sent update_rpc) 6 no_rows start 9 (savings (2 ∷ [])) 2 below_the_root
      registry-GuidsParse (sent-IsFresh [] update_rpc) update_rpc-kind refl refl refl found_lem
      savings-plan_update registry-AccountCommitLaws refl refl savings-differs

found_to_delete : find_account registry start (2 ∷ []) (str "guid") ≡ ok 2
unfolding find_account string_to_guid
found_to_delete = refl

abbrev goodbye : Bytes
goodbye = toy_codecs.delete_accounts.serialize (2 ∷ [])

delete_account_exactly_once_example :
    HappensOnce toy_sha toy_outcomes toy_codecs.empties book_backend
      (recovery_engine registry toy_codecs)
      (λ e. 9)
      (delete_account registry book_backend opened (2 ∷ []))
      (sent_with goodbye delete_rpc)
      6
      no_rows
      start
      (stage_delete registry opened (2 ∷ []))
      (destroyed registry opened 2 start)
unfolding book
delete_account_exactly_once_example =
    delete_account_exactly_once registry toy_codecs toy_sha toy_outcomes book_backend opened
      (λ e. 9) (sent_with goodbye delete_rpc) 6 no_rows start (2 ∷ []) 2
      (sent-IsFresh goodbye delete_rpc) delete_rpc-kind
      (toy_codecs.delete_accounts.parse-serialize (2 ∷ [])) refl found_to_delete refl refl

abbrev quote : PriceSpec
quote = record {
  guid = [];
  commodity = record { space = str "CURRENCY"; mnemonic = str "EUR" };
  currency = record { space = str "CURRENCY"; mnemonic = str "EUR" };
  date = some (record { year = pos 2026; month = pos 11; day = pos 25 });
  value = amount_of 0;
  source = [];
}

abbrev quote_plan : PricePlan ℕ
quote_plan = record { commodity = 0; currency = 0; date = some_day; value = amount_of 0 }

quote-plan_price : plan_price registry start quote ≡ ok quote_plan
unfolding find_commodity numeric_from_proto date_from_proto
quote-plan_price = refl

add_price_exactly_once_example :
    HappensAnew toy_sha toy_outcomes toy_codecs.prices book_backend
      (recovery_engine registry toy_codecs)
      (λ e. 9)
      (add_price registry book_backend opened quote)
      (add_price (drawn next_chance registry) book_backend opened quote)
      (sent price_rpc)
      6
      no_rows
      start
      (stage_add_price registry opened quote)
      (stage_add_price (drawn next_chance registry) opened quote)
      (stage_priced registry opened 9 (priced registry opened quote quote_plan start))
      (stage_priced
        (drawn next_chance registry)
        opened
        8
        (priced (drawn next_chance registry) opened quote quote_plan start))
unfolding empty book perform_all
add_price_exactly_once_example =
    add_price_exactly_once registry toy_codecs toy_sha toy_outcomes book_backend opened (λ e. 9)
      (sent price_rpc) 6 no_rows start next_chance quote quote_plan registry-GuidsParse
      (λ p b. refl) (sent-IsFresh [] price_rpc) price_rpc-kind refl refl quote-plan_price refl refl
