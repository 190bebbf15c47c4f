-- ===== src/Tests/Handlers.antt =====
-- The handlers of transactions and of accounts on the small engine, and the startup checks.
use daichod.Base.{
  ltb, if◌then◌else◌, ap, ℕ, ◌≡◌, ◌≢◌, refl, true, false, none, some, [], ◌∷◌, arith,
}
use daichod.Base.Int.{pos, ◌+ℤ◌}
use daichod.Base.Text.{Bytes, str, empty, bytes_eq, drop}
use daichod.Exec.{ok}
use daichod.World.{Backend, after_pending, after_apply}
use daichod.Engine.Map.{numeric_from_proto, date_from_proto}
use daichod.Engine.Objects.{Objects, Call, trans_set_date_entered}
use daichod.Engine.Laws.{may_enter, GuidsParse, CommitLaws, EntryLaws}
use daichod.Engine.Convert.{
  find_transaction, transaction_to_proto, string_to_guid, find_commodity, find_account,
}
use daichod.Engine.Session.{Session, book}
use daichod.Journal.{Tables}
use daichod.Journal.Recovery.Verdict.{
  kind_of, post_transaction as posting_kind, update_transaction as updating_kind,
}
use daichod.Proto.{TransactionSpec, SplitSpec, state_unspecified}
use daichod.Rpc.Handler.Anew.{HappensAnew}
use daichod.Engine.Objects.{drawn}
use daichod.Rpc.Handler.Once.{IsFresh}
use daichod.Rpc.Mutation.{Request, is_uuid, matches_pattern, is_xdigit}
use daichod.Rpc.Plan.{plan_transaction, plan_splits, plan_split}
use daichod.Rpc.Plan.Types.{TransactionPlan, SplitPlan}
use daichod.Rpc.Transactions.{
  perform_all, apply_splits, apply_plan, lookups_of, splits_of, post_transaction,
  update_transaction,
}
use daichod.Rpc.Transactions.Staged.{stage_plan, stage_post, stage_update}
use daichod.Rpc.Handler.Evidence.{recovery_engine}
use daichod.Rpc.Transactions.Once.{post_exactly_once, update_exactly_once}
use daichod.Tests.Toy.{toy_outcomes, toy_sha, uuid}
use daichod.Tests.Messages.{toy_codecs}
use daichod.Tests.Objects.{next_chance, below_root, Book, toy, toy_perform, amount_of, some_day}

abbrev pub book_backend : Backend Book
book_backend = record { commit = λ saved live. live; commit_saves = λ saved live. refl }

abbrev pub start : Book
start = record {
  transactions = 1;
  entered = pos 5;
  description = [];
  parents = below_root;
  names = λ x. if ltb x 3 then some (b'a' ∷ []) else none;
  prices = λ x. false;
}

abbrev pub opened : Session
opened = record {
  book_uri = str "sqlite3://b";
  read_only = false;
  session = true;
  open_flag = true;
  live_sessions = 1;
  holds_lock = true;
}

abbrev half : ℕ → SplitSpec
half n = record {
  guid = [];
  account_guid = 1 ∷ [];
  value = amount_of n;
  quantity = amount_of n;
  memo = [];
  action = [];
  reconcile_state = state_unspecified;
}

abbrev pub lunch : Bytes → TransactionSpec
lunch guid = record {
  guid = guid;
  currency = some (record { space = str "CURRENCY"; mnemonic = str "EUR" });
  post_date = some (record { year = pos 2026; month = pos 11; day = pos 25 });
  enter_time_utc = pos 0;
  num = [];
  description = b'x' ∷ [];
  splits = half 0 ∷ half 1 ∷ [];
}

abbrev planned : ℕ → SplitPlan ℕ ℕ
planned n = record {
  existing = none;
  account = 1;
  value = amount_of n;
  quantity = amount_of n;
  memo = [];
  action = [];
  reconcile = b'n';
}

abbrev lunch_plan : TransactionPlan ℕ ℕ ℕ
lunch_plan = record {
  currency = 0;
  post_date = some_day;
  enter_time = pos 77;
  num = [];
  description = b'x' ∷ [];
  splits = planned 0 ∷ planned 1 ∷ [];
  doomed = [];
}

new_lunch-plan : plan_transaction {S = ℕ} (lookups_of toy start) none (lunch []) ≡ ok lunch_plan
unfolding plan_transaction plan_splits plan_split numeric_from_proto date_from_proto empty bytes_eq
    ◌+ℤ◌ find_commodity find_account string_to_guid
new_lunch-plan = refl

-- The retry reads a later clock.
abbrev toy_again : Objects Book ℕ ℕ ℕ ℕ ℕ ℕ
toy_again = drawn next_chance toy

abbrev later_plan : TransactionPlan ℕ ℕ ℕ
later_plan = record lunch_plan { enter_time = pos 88 }

new_later-plan :
    plan_transaction {S = ℕ} (lookups_of toy_again start) none (lunch []) ≡ ok later_plan
unfolding plan_transaction plan_splits plan_split numeric_from_proto date_from_proto empty bytes_eq
    ◌+ℤ◌ find_commodity find_account string_to_guid
new_later-plan = refl

old_later-plan :
    plan_transaction {S = ℕ}
      (lookups_of toy_again start)
      (some (splits_of toy start 0))
      (lunch (0 ∷ []))
    ≡ ok later_plan
unfolding plan_transaction plan_splits plan_split numeric_from_proto date_from_proto empty bytes_eq
    ◌+ℤ◌ find_commodity find_account string_to_guid
old_later-plan = refl

old_lunch-plan :
    plan_transaction {S = ℕ} (lookups_of toy start) (some (splits_of toy start 0)) (lunch (0 ∷ []))
    ≡ ok lunch_plan
unfolding plan_transaction plan_splits plan_split numeric_from_proto date_from_proto empty bytes_eq
    ◌+ℤ◌ find_commodity find_account string_to_guid
old_lunch-plan = refl

toy-GuidsParse : GuidsParse toy
toy-GuidsParse g = refl

quiet-entered :
    (c : Call ℕ ℕ ℕ ℕ ℕ) (b : Book) → may_enter c ≡ false → (toy_perform c b).entered ≡ b.entered
quiet-entered (trans_set_date_entered t x) b h = ground arith
quiet-entered _ b h = refl

toy-EntryLaws : (t : ℕ) → EntryLaws toy t
toy-EntryLaws t = record {
  entered_set = λ b x. refl;
  entered_frame = λ b c h. quiet-entered c b h;
  entered_malloc = λ b. refl;
}

toy-CommitLaws : (t : ℕ) (b : Book) → CommitLaws toy t b
toy-CommitLaws t b = record {
  currency_kept = refl;
  date_kept = refl;
  entered_kept = λ h. refl;
  num_kept = refl;
  description_kept = refl;
  splits_left = refl;
  destroying_kept = λ s h. refl;
  account_kept = λ s h. refl;
  value_kept = λ s h. refl;
  amount_kept = λ s h. refl;
  memo_kept = λ s h. refl;
  action_kept = λ s h. refl;
  reconcile_kept = λ s h. refl;
}

abbrev pub no_rows : Tables
no_rows = record { intents = []; applied = [] }

abbrev pub sent_with : Bytes → Bytes → Request
sent_with payload rpc = record {
  mutation_id = uuid;
  payload = payload;
  rpc_name = rpc;
  now = 5;
  crash_at = some after_apply;
}

abbrev pub sent : Bytes → Request
sent rpc = sent_with [] rpc

pub sent-IsFresh : (payload rpc : Bytes) → IsFresh (sent_with payload rpc) no_rows
unfolding is_uuid matches_pattern is_xdigit str
sent-IsFresh payload rpc = record {
  is_valid = refl;
  keys = record { intents_unique = tt; applied_unique = tt; references = tt };
  unresolved = refl;
  same_request = refl;
}

-- The process dies behind its pending record, before it commits.
abbrev pub sent_early : Bytes → Request
sent_early rpc = record (sent rpc) { crash_at = some after_pending }

pub sent_early-IsFresh : (rpc : Bytes) → IsFresh (sent_early rpc) no_rows
sent_early-IsFresh rpc =
    let f = sent-IsFresh [] rpc in
    record {
      is_valid = f.is_valid;
      keys = f.keys;
      unresolved = f.unresolved;
      same_request = f.same_request;
    }

abbrev post_rpc : Bytes
post_rpc = str "daicho.shim.v1.TransactionService/PostTransaction"

abbrev update_rpc : Bytes
update_rpc = str "daicho.shim.v1.TransactionService/UpdateTransaction"

post_rpc-kind : kind_of post_rpc ≡ some posting_kind
unfolding kind_of str bytes_eq drop
post_rpc-kind = refl

update_rpc-kind : kind_of update_rpc ≡ some updating_kind
unfolding kind_of str bytes_eq drop
update_rpc-kind = refl

abbrev after_lunch : ℕ → Book → Book
after_lunch t b = (stage_plan toy opened t lunch_plan b).final

lunch-differs :
    transaction_to_proto toy start 0 ≢ (stage_plan toy opened 0 lunch_plan start).response
unfolding transaction_to_proto apply_plan apply_splits perform_all
lunch-differs h = ground (arith, ap (λ (m : TransactionSpec). m.enter_time_utc) h)

found_lem : find_transaction toy start (0 ∷ []) (str "transaction.guid") ≡ ok 0
unfolding find_transaction string_to_guid
found_lem = refl

posted_lem : toy.trans_lookup (after_lunch 1 (toy.malloc_transaction start).1) 1 ≡ some 1
unfolding apply_plan apply_splits perform_all
posted_lem = refl

updated_lem : toy.trans_lookup (after_lunch 0 start) 0 ≡ some 0
unfolding apply_plan apply_splits perform_all
updated_lem = refl

post_exactly_once_example :
    let s = stage_plan toy opened 1 lunch_plan (toy.malloc_transaction start).1 in
    HappensAnew toy_sha toy_outcomes toy_codecs.transactions book_backend
      (recovery_engine toy toy_codecs)
      (λ e. 9)
      (post_transaction toy book_backend opened (lunch []))
      (post_transaction toy_again book_backend opened (lunch []))
      (sent post_rpc)
      6
      no_rows
      start
      (stage_post toy opened (lunch []))
      (stage_post toy_again opened (lunch []))
      s
      (stage_plan toy_again opened 7 later_plan (toy.malloc_transaction start).1)
unfolding empty book
post_exactly_once_example =
    post_exactly_once toy toy_codecs toy_sha toy_outcomes book_backend opened (λ e. 9)
      (sent post_rpc) 6 no_rows start (lunch []) next_chance lunch_plan later_plan toy-GuidsParse
      (sent-IsFresh [] post_rpc) post_rpc-kind refl refl new_lunch-plan new_later-plan refl
      posted_lem

update_exactly_once_example :
    let s = stage_plan toy opened 0 lunch_plan start in
    HappensAnew toy_sha toy_outcomes toy_codecs.transactions book_backend
      (recovery_engine toy toy_codecs)
      (λ e. 9)
      (update_transaction toy book_backend opened (lunch (0 ∷ [])))
      (update_transaction toy_again book_backend opened (lunch (0 ∷ [])))
      (sent_early update_rpc)
      6
      no_rows
      start
      (stage_update toy opened (lunch (0 ∷ [])))
      (stage_update toy_again opened (lunch (0 ∷ [])))
      s
      (stage_plan toy_again opened 0 later_plan start)
unfolding empty book
update_exactly_once_example =
    update_exactly_once toy toy_codecs toy_sha toy_outcomes book_backend opened (λ e. 9)
      (sent_early update_rpc) 6 no_rows start (lunch (0 ∷ [])) next_chance 0 lunch_plan later_plan
      toy-GuidsParse (toy-EntryLaws 0) (λ h. ground (arith, h)) (sent_early-IsFresh update_rpc)
      update_rpc-kind refl refl found_lem old_lunch-plan old_later-plan
      (toy-CommitLaws 0 (stage_plan toy opened 0 lunch_plan start).edited) refl updated_lem
      lunch-differs
