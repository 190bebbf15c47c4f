-- ===== src/Rpc/Stagings.antt =====
-- The bodies of all handlers that change the book, as stagings.
use daichod.Base.{ℕ, ◌≡◌, Option}
use daichod.Base.Text.{Bytes}
use daichod.World.{World, Backend}
use daichod.Engine.Objects.{Objects, price_unref}
use daichod.Engine.Session.{Session}
use daichod.Proto.{Date, AccountSpec, TransactionSpec, PriceSpec, ReconcileInfo}
use daichod.Rpc.Handler.{KeepsBook}
use daichod.Rpc.Mutation.{Recorder}
use daichod.Rpc.Mutation.Staged.{staged}
use daichod.Rpc.Accounts.{create_account, update_account, delete_account, set_reconcile_info}
use daichod.Rpc.Accounts.Staged.{
  stage_create, stage_update as stage_account_update, stage_delete as stage_account_delete,
  stage_set_reconcile_info, create_account-staged, update_account-staged, delete_account-staged,
  set_reconcile_info-staged,
}
use daichod.Rpc.Commodities.{add_price}
use daichod.Rpc.Commodities.Staged.{stage_add_price, add_price-staged}
use daichod.Rpc.Transactions.{post_transaction, update_transaction, delete_transaction}
use daichod.Rpc.Transactions.Staged.{
  stage_post, stage_update, stage_delete, post_transaction-staged, update_transaction-staged,
  delete_transaction-staged,
}

module _ {B G C A T S P : Type 0} (e : Objects B G C A T S P) (backend : Backend B)
    (session : Session) where
  -- Each of the eight handlers that change the book does what its staging says: the checks decide on the book as it is, the edit
  -- is made in memory, the response is recorded as pending, and then the edit is committed, in one commit as far as the backend
  -- shows; for recorders that leave the book alone, and where letting go of a price leaves it in the book.
  pub handlers-staged :
      (record_account : Recorder B AccountSpec) (record_info : Recorder B ReconcileInfo)
      (record_transaction : Recorder B TransactionSpec) (record_price : Recorder B PriceSpec)
      (record_empty : Recorder B (Unit {0}))
      → KeepsBook record_account
      → KeepsBook record_info
      → KeepsBook record_transaction
      → KeepsBook record_price
      → KeepsBook record_empty
      → ((p : P) (b : B) → e.perform (price_unref p) b ≡ b)
      → (guid : Bytes) (date : Option Date) (fuel : ℕ) (account : AccountSpec)
        (transaction : TransactionSpec) (price : PriceSpec) (w : World B)
      → (create_account e backend session account record_account w
          ≡ staged backend (stage_create e session account) record_account w)
        × (update_account e backend session fuel account record_account w
            ≡ staged backend (stage_account_update e session fuel account) record_account w)
        × (delete_account e backend session guid record_empty w
            ≡ staged backend (stage_account_delete e session guid) record_empty w)
        × (set_reconcile_info e backend session guid date record_info w
            ≡ staged backend (stage_set_reconcile_info e session guid date) record_info w)
        × (post_transaction e backend session transaction record_transaction w
            ≡ staged backend (stage_post e session transaction) record_transaction w)
        × (update_transaction e backend session transaction record_transaction w
            ≡ staged backend (stage_update e session transaction) record_transaction w)
        × (delete_transaction e backend session guid record_empty w
            ≡ staged backend (stage_delete e session guid) record_empty w)
        × (add_price e backend session price record_price w
            ≡ staged backend (stage_add_price e session price) record_price w)
  handlers-staged ra ri rt rp re ka ki kt kp ke unref guid date fuel account transaction price w = (
    create_account-staged e session backend account ra ka w,
    update_account-staged e session backend fuel account ra ka w,
    delete_account-staged e session backend guid re ke w,
    set_reconcile_info-staged e session backend guid date ri ki w,
    post_transaction-staged e session backend transaction rt kt w,
    update_transaction-staged e session backend transaction rt kt w,
    delete_transaction-staged e session backend guid re ke w,
    add_price-staged e session backend unref price rp kp w,
  )
