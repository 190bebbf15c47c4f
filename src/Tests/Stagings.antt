-- ===== src/Tests/Stagings.antt =====
-- The handlers that change the book, with a recorder that records nothing.
use daichod.Rpc.Stagings.{handlers-staged}
use daichod.Rpc.Handler.{KeepsBook}
use daichod.Rpc.Mutation.{Recorder}
use daichod.Rpc.Mutation.Staged.{staged}
use daichod.Rpc.Accounts.{create_account, update_account, delete_account, set_reconcile_info}
use daichod.Rpc.Accounts.Staged.{
  stage_create, stage_update as stage_account_update, stage_delete as stage_account_delete,
  stage_set_reconcile_info,
}
use daichod.Rpc.Commodities.{add_price}
use daichod.Rpc.Commodities.Staged.{stage_add_price}
use daichod.Rpc.Transactions.{delete_transaction}
use daichod.Rpc.Transactions.Staged.{stage_delete}
use daichod.Proto.{AccountSpec, PriceSpec, bank}
use daichod.Base.{◌≡◌, refl, false, none, [], ◌∷◌}
use daichod.Base.Text.{str}
use daichod.Exec.{ok}
use daichod.World.{World}
use daichod.Rpc.Transactions.{post_transaction, update_transaction}
use daichod.Rpc.Transactions.Staged.{stage_post, stage_update}
use daichod.Tests.Objects.{Book, toy, amount_of}
use daichod.Tests.Handlers.{book_backend, start, opened, lunch, no_rows}

abbrev silent : {R : Type 0} → Recorder Book R
silent r w = (ok tt, w)

silent-KeepsBook : {R : Type 0} → KeepsBook (silent {R = R})
silent-KeepsBook r w = refl

abbrev calm_world : World Book
calm_world = record { disk = record { tables = no_rows; faults = [] }; live = start; saved = start }

abbrev bank_account : AccountSpec
bank_account = record {
  guid = [];
  parent_guid = 1 ∷ [];
  name = b'n' ∷ [];
  type_of = bank;
  commodity = none;
  code = [];
  description = [];
  placeholder = false;
  hidden = false;
}

abbrev quote : PriceSpec
quote = record {
  guid = [];
  commodity = record { space = str "NYSE"; mnemonic = str "X" };
  currency = record { space = str "CURRENCY"; mnemonic = str "EUR" };
  date = none;
  value = amount_of 0;
  source = [];
}

handlers-staged_example :
    (create_account toy book_backend opened bank_account silent calm_world
      ≡ staged book_backend (stage_create toy opened bank_account) silent calm_world)
    × (update_account toy book_backend opened 5 bank_account silent calm_world
        ≡ staged book_backend (stage_account_update toy opened 5 bank_account) silent calm_world)
    × (delete_account toy book_backend opened (2 ∷ []) silent calm_world
        ≡ staged book_backend (stage_account_delete toy opened (2 ∷ [])) silent calm_world)
    × (set_reconcile_info toy book_backend opened (2 ∷ []) none silent calm_world
        ≡ staged book_backend (stage_set_reconcile_info toy opened (2 ∷ []) none) silent calm_world)
    × (post_transaction toy book_backend opened (lunch []) silent calm_world
        ≡ staged book_backend (stage_post toy opened (lunch [])) silent calm_world)
    × (update_transaction toy book_backend opened (lunch []) silent calm_world
        ≡ staged book_backend (stage_update toy opened (lunch [])) silent calm_world)
    × (delete_transaction toy book_backend opened (2 ∷ []) silent calm_world
        ≡ staged book_backend (stage_delete toy opened (2 ∷ [])) silent calm_world)
    × (add_price toy book_backend opened quote silent calm_world
        ≡ staged book_backend (stage_add_price toy opened quote) silent calm_world)
handlers-staged_example =
    handlers-staged toy book_backend opened silent silent silent silent silent silent-KeepsBook
      silent-KeepsBook silent-KeepsBook silent-KeepsBook silent-KeepsBook (λ p b. refl) (2 ∷ [])
      none 5 bank_account (lunch []) quote calm_world
