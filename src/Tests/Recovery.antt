-- ===== src/Tests/Recovery.antt =====
-- Recovery's verdict, on a ledger whose numbers are its transactions.
use daichod.Base.{ℕ, true, false, ◌≡◌, refl, Option, none, some, [], ◌∷◌, first, ◌==◌}
use daichod.Base.Text.{drop, Bytes, str, bytes_eq}
use daichod.World.{after_apply}
use daichod.Journal.{PendingEntry}
use daichod.Journal.Recovery.{is_applied}
use daichod.Journal.Recovery.Verdict.{Engine, post_transaction, kind_of, was_applied}
use daichod.Journal.Recovery.Verdict.Tells.{was_applied-Changes}
use daichod.Rpc.Mutation.{Request}
use daichod.Tests.Toy.{uuid, Ledger}

abbrev first_number : Bytes → Option ℕ
first_number [] = none
first_number (n ∷ s) = some n

abbrev itself : Bytes → Option Bytes
itself s = some s

abbrev toy_engine : Engine Ledger ℕ ℕ ℕ
toy_engine = record {
  string_to_guid = first_number;
  account_lookup = λ b g. none;
  trans_lookup = λ b g. first (λ n. n == g) b;
  price_lookup = λ b g. false;
  account_bytes = λ n. n ∷ [];
  reconcile_info_bytes = λ n. n ∷ [];
  transaction_bytes = λ n. n ∷ [];
  parse_account = itself;
  parse_reconcile_info = itself;
  parse_transaction = itself;
  parse_price = itself;
  parse_delete_account = itself;
  parse_delete_transaction = itself;
}

abbrev posting : Request
posting = record {
  mutation_id = uuid;
  payload = [];
  rpc_name = str "daicho.shim.v1.TransactionService/PostTransaction";
  now = 5;
  crash_at = some after_apply;
}

posting-kind : kind_of posting.rpc_name ≡ some post_transaction
unfolding kind_of str bytes_eq drop
posting-kind = refl

abbrev posted : PendingEntry
posted = record {
  mutation_id = uuid;
  rpc_name = str "daicho.shim.v1.TransactionService/PostTransaction";
  request_payload = [];
  pending_response = 7 ∷ [];
}

was_applied-Changes_example :
    (was_applied toy_engine (7 ∷ []) posted ≡ some true)
    × (is_applied (was_applied toy_engine [] posted) ≡ false)
was_applied-Changes_example =
    was_applied-Changes toy_engine post_transaction [] (7 ∷ []) posted posting-kind
      (record { guid = 7 ∷ []; it = 7; parses = refl; absent = refl; present = refl })
