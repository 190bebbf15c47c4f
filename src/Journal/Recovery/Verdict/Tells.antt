-- ===== src/Journal/Recovery/Verdict/Tells.antt =====
-- WasApplied on the book before a commit and on the book after it.
use daichod.Base.{Bool, true, false, ◌≡◌, ◌≢◌, Option, none, some, arith, ap}
use daichod.Base.Text.{Bytes, bytes_eq_iff}
use daichod.Journal.{PendingEntry}
use daichod.Journal.Recovery.{is_applied}
use daichod.Journal.Recovery.Verdict.{
  Engine, Kind, create_account, update_account, delete_account, set_reconcile_info,
  post_transaction, update_transaction, delete_transaction, add_price, kind_of, on_some, verdict,
  was_applied,
}

-- A message names a GUID at which one book has nothing and the other has something.
pub record Appears {X : Type 0} (parsed : Option Bytes) (empty_in full_in : Bytes → Option X)
    : Type 0 where
  pub guid : Bytes
  pub it : X
  pub parses : parsed ≡ some guid
  pub absent : empty_in guid ≡ none
  pub present : full_in guid ≡ some it

-- A message names a GUID whose object reads as the response in the second book, and otherwise in the first.
pub record Rewritten {X : Type 0} (parsed : Option Bytes) (to_bytes : X → Bytes) (response : Bytes)
    (in_first in_second : Bytes → Option X) : Type 0 where
  pub guid : Bytes
  pub old : X
  pub new : X
  pub parses : parsed ≡ some guid
  pub was : in_first guid ≡ some old
  pub is_now : in_second guid ≡ some new
  pub differed : to_bytes old ≢ response
  pub agrees : to_bytes new ≡ response

abbrev pub flag : Bool → Option Bool
flag true = some true
flag false = none

module _ {B Guid A T : Type 0} (engine : Engine B Guid A T) where
  abbrev pub account_in : B → Bytes → Option A
  account_in book guid = on_some (engine.string_to_guid guid) (engine.account_lookup book)

  abbrev pub transaction_in : B → Bytes → Option T
  transaction_in book guid = on_some (engine.string_to_guid guid) (engine.trans_lookup book)

  abbrev pub price_in : B → Bytes → Option Bool
  price_in book guid = on_some (engine.string_to_guid guid) (λ g. flag (engine.price_lookup book g))

  -- What the commit of each RPC does to the book, as far as its entry is concerned.
  abbrev pub Changes : Kind → B → B → PendingEntry → Type 0
  Changes create_account before after e =
      Appears (engine.parse_account e.pending_response) (account_in before) (account_in after)
  Changes update_account before after e =
      Rewritten (engine.parse_account e.pending_response) engine.account_bytes e.pending_response
        (account_in before) (account_in after)
  Changes delete_account before after e =
      Appears (engine.parse_delete_account e.request_payload) (account_in after) (account_in before)
  Changes set_reconcile_info before after e =
      Rewritten (engine.parse_reconcile_info e.pending_response) engine.reconcile_info_bytes
        e.pending_response (account_in before) (account_in after)
  Changes post_transaction before after e =
      Appears (engine.parse_transaction e.pending_response) (transaction_in before)
        (transaction_in after)
  Changes update_transaction before after e =
      Rewritten (engine.parse_transaction e.pending_response) engine.transaction_bytes
        e.pending_response (transaction_in before) (transaction_in after)
  Changes delete_transaction before after e =
      Appears (engine.parse_delete_transaction e.request_payload) (transaction_in after)
        (transaction_in before)
  Changes add_price before after e =
      Appears (engine.parse_price e.pending_response) (price_in before) (price_in after)

  abbrev Tells : Kind → B → B → PendingEntry → Type 0
  Tells k before after e =
      (verdict engine after k e ≡ some true) × (is_applied (verdict engine before k e) ≡ false)

  verdict-Changes :
      (k : Kind) (before after : B) (e : PendingEntry)
      → Changes k before after e
      → Tells k before after e
  unfolding verdict
  verdict-Changes create_account before after e c = ground (arith, c)
  verdict-Changes update_account before after e c = ground (
    arith,
    c,
    bytes_eq_iff (engine.account_bytes c.old) e.pending_response,
    bytes_eq_iff (engine.account_bytes c.new) e.pending_response,
  )
  verdict-Changes delete_account before after e c = ground (arith, c)
  verdict-Changes set_reconcile_info before after e c = ground (
    arith,
    c,
    bytes_eq_iff (engine.reconcile_info_bytes c.old) e.pending_response,
    bytes_eq_iff (engine.reconcile_info_bytes c.new) e.pending_response,
  )
  verdict-Changes post_transaction before after e c = ground (arith, c)
  verdict-Changes update_transaction before after e c = ground (
    arith,
    c,
    bytes_eq_iff (engine.transaction_bytes c.old) e.pending_response,
    bytes_eq_iff (engine.transaction_bytes c.new) e.pending_response,
  )
  verdict-Changes delete_transaction before after e c = ground (arith, c)
  verdict-Changes add_price before after e c = ground (arith, c)

  -- For every RPC that WasApplied knows: on a book in which the commit shows the entry is found applied, and on the book before
  -- the commit it is not.
  pub was_applied-Changes :
      (k : Kind) (before after : B) (e : PendingEntry)
      → kind_of e.rpc_name ≡ some k
      → Changes k before after e
      → (was_applied engine after e ≡ some true)
        × (is_applied (was_applied engine before e) ≡ false)
  unfolding was_applied
  was_applied-Changes k before after e h c = ground (
    arith,
    verdict-Changes k before after e c,
    ap (λ (o : Option Kind). on_some o (λ j. verdict engine after j e)) h,
    ap (λ (o : Option Kind). on_some o (λ j. verdict engine before j e)) h,
  )
