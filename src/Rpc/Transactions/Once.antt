-- ===== src/Rpc/Transactions/Once.antt =====
-- The crash story of the handlers of transactions, over their handlers and the book's own lookups.
use daichod.Base.{refl, ℕ, ◌≡◌, ◌≢◌, sym, ap, ◌∙◌, true, false, none, some, arith}
use daichod.Base.Int.{pos}
use daichod.Base.Text.{Bytes, str, empty}
use daichod.Base.Codec.{Codec}
use daichod.Exec.{ok}
use daichod.World.{Backend}
use daichod.Journal.{Outcome, Tables, PendingEntry}
use daichod.Journal.Recovery.Verdict.{
  on_some, kind_of, post_transaction as posting, update_transaction as updating,
  delete_transaction as deleting,
}
use daichod.Engine.Objects.{Chance, drawn, Objects, trans_begin_edit}
use daichod.Engine.Laws.{GuidsParse, CommitLaws, EntryLaws}
use daichod.Engine.Convert.{string_to_guid, find_transaction, transaction_to_proto, option_map}
use daichod.Engine.Session.{Session, book}
use daichod.Proto.{TransactionSpec}
use daichod.Rpc.Mutation.{Request}
use daichod.Rpc.Plan.{plan_transaction}
use daichod.Rpc.Plan.Types.{TransactionPlan}
use daichod.Rpc.Handler.Evidence.{
  find_transaction-found, Codecs, recovery_engine, serialize_injective,
}
use daichod.Rpc.Handler.Anew.{HappensAnew, handler_anew}
use daichod.Rpc.Handler.Once.{IsFresh, HappensOnce, handler_exactly_once}
use daichod.Rpc.Transactions.{
  delete_transaction, lookups_of, splits_of, post_transaction, update_transaction,
}
use daichod.Rpc.Transactions.Entered.{apply_plan-entered, plan_transaction-entered}
use daichod.Rpc.Transactions.Response.{transaction_to_proto-commit}
use daichod.Rpc.Transactions.Staged.{
  deleted, stage_delete, delete_transaction-staged, stage_plan, stage_post, stage_update,
  post_transaction-staged, update_transaction-staged,
}

module _ {B G C A T S P : Type 0} (e : Objects B G C A T S P) (codecs : Codecs) where
  -- Chance does not move what a book is searched for.
  find_transaction-drawn :
      (chance : Chance B A T S P) (b : B) (guid context : Bytes)
      → find_transaction (drawn chance e) b guid context ≡ find_transaction e b guid context
  unfolding find_transaction string_to_guid
  find_transaction-drawn chance b guid context = refl

  module _ (sha256 : Bytes → Bytes) (outcomes : Codec Outcome) (backend : Backend B)
      (session : Session) (now : PendingEntry → ℕ) (q : Request) (later : ℕ) (t : Tables)
      (before : B) (spec : TransactionSpec) where
    -- PostTransaction, wherever the process dies, if it does, and whatever the retry draws: after a restart, the
    -- reconciliation and one retry, what lasts is the run's own edit and response if it died behind its commit or not at
    -- all, and the retry's, with the clock and GUIDs that the retry draws, if it died before: the client has that
    -- response, the book holds that one edit and the id is resolved; on a disk that fails no statement, for an
    -- unresolved id, if the plan can be made on the book at both times, the first run's new GUID is one that the book
    -- had no transaction under, and its commit has entered the transaction under it.
    pub post_exactly_once :
        (chance : Chance B A T S P) (plan plan_again : TransactionPlan C A S)
        → GuidsParse e
        → IsFresh q t
        → kind_of q.rpc_name ≡ some posting
        → empty spec.guid ≡ true
        → book session ≡ none
        → plan_transaction (lookups_of e before) none spec ≡ ok plan
        → plan_transaction (lookups_of (drawn chance e) before) none spec ≡ ok plan_again
        → let made = e.malloc_transaction before in
          let s = stage_plan e session made.0 plan made.1 in
          let made_again = chance.draws_transaction before in
          let s' = stage_plan (drawn chance e) session made_again.0 plan_again made_again.1 in
          e.trans_lookup before (e.trans_guid made.0) ≡ none
          → e.trans_lookup s.final (e.trans_guid made.0) ≡ some made.0
          → HappensAnew sha256 outcomes codecs.transactions backend
              (recovery_engine e codecs)
              now
              (post_transaction e backend session spec)
              (post_transaction (drawn chance e) backend session spec)
              q
              later
              t
              before
              (stage_post e session spec)
              (stage_post (drawn chance e) session spec)
              s
              s'
    unfolding stage_post transaction_to_proto
    post_exactly_once chance plan plan_again guids fresh kind new_one opened planned planned_again
          absent present =
        let made = e.malloc_transaction before in
        let s = stage_plan e session made.0 plan made.1 in
        let made_again = chance.draws_transaction before in
        let s' = stage_plan (drawn chance e) session made_again.0 plan_again made_again.1 in
        handler_anew sha256 outcomes codecs.transactions backend (recovery_engine e codecs) now
          (post_transaction e backend session spec)
          (post_transaction (drawn chance e) backend session spec) q later t before
          (stage_post e session spec) (stage_post (drawn chance e) session spec) s s' posting
          (post_transaction-staged e session backend spec)
          (post_transaction-staged (drawn chance e) session backend spec) fresh
          (ground (arith, new_one, opened, planned))
          (ground (arith, new_one, opened, planned_again)) kind
          (record {
            guid = e.guid_to_string (e.trans_guid made.0);
            it = (s.final, made.0);
            parses =
                ap (option_map (λ (m : TransactionSpec). m.guid))
                  (codecs.transactions.parse-serialize s.response);
            absent = ground (arith, guids (e.trans_guid made.0), absent);
            present = ground (arith, guids (e.trans_guid made.0), present);
          })

    -- UpdateTransaction, wherever the process dies, if it does, and whatever the retry draws: after a restart, the
    -- reconciliation and one retry, what lasts is the run's own edit and response if it died behind its commit or not at
    -- all, and the retry's, with the clock and GUIDs that the retry draws, if it died before: the client has that
    -- response, the book holds that one edit and the id is resolved; on a disk that fails no statement, for an
    -- unresolved id and an update whose plan can be made at both times and that changes how its transaction reads, where
    -- the engine's commit of the first run's edit and its time of entry are as documented, the transaction is found
    -- under its GUID, and the first run's clock is not at the epoch's first second.
    pub update_exactly_once :
        (chance : Chance B A T S P) (t' : T) (plan plan_again : TransactionPlan C A S)
        → GuidsParse e
        → EntryLaws e t'
        → e.now ≢ pos 0
        → IsFresh q t
        → kind_of q.rpc_name ≡ some updating
        → empty spec.guid ≡ false
        → book session ≡ none
        → find_transaction e before spec.guid (str "transaction.guid") ≡ ok t'
        → plan_transaction (lookups_of e before) (some (splits_of e before t')) spec ≡ ok plan
        → plan_transaction (lookups_of (drawn chance e) before) (some (splits_of e before t')) spec
          ≡ ok plan_again
        → let s = stage_plan e session t' plan before in
          CommitLaws e t' s.edited
          → e.trans_lookup before (e.trans_guid t') ≡ some t'
          → e.trans_lookup s.final (e.trans_guid t') ≡ some t'
          → transaction_to_proto e before t' ≢ s.response
          → HappensAnew sha256 outcomes codecs.transactions backend
              (recovery_engine e codecs)
              now
              (update_transaction e backend session spec)
              (update_transaction (drawn chance e) backend session spec)
              q
              later
              t
              before
              (stage_update e session spec)
              (stage_update (drawn chance e) session spec)
              s
              (stage_plan (drawn chance e) session t' plan_again before)
    unfolding stage_update transaction_to_proto
    update_exactly_once chance t' plan plan_again guids entry clock fresh kind named opened found
          planned planned_again laws was is_now differs =
        let s = stage_plan e session t' plan before in
        handler_anew sha256 outcomes codecs.transactions backend (recovery_engine e codecs) now
          (update_transaction e backend session spec)
          (update_transaction (drawn chance e) backend session spec) q later t before
          (stage_update e session spec) (stage_update (drawn chance e) session spec) s
          (stage_plan (drawn chance e) session t' plan_again before) updating
          (update_transaction-staged e session backend spec)
          (update_transaction-staged (drawn chance e) session backend spec) fresh
          (ground (arith, named, opened, found, planned))
          (ground (
            arith,
            named,
            opened,
            find_transaction-drawn chance before spec.guid (str "transaction.guid") ∙ found,
            planned_again,
          ))
          kind
          (record {
            guid = e.guid_to_string (e.trans_guid t');
            old = (before, t');
            new = (s.final, t');
            parses =
                ap (option_map (λ (m : TransactionSpec). m.guid))
                  (codecs.transactions.parse-serialize s.response);
            was = ground (arith, guids (e.trans_guid t'), was);
            is_now = ground (arith, guids (e.trans_guid t'), is_now);
            differed = λ same. differs (serialize_injective codecs.transactions _ _ same);
            agrees = ap codecs.transactions.serialize (
                transaction_to_proto-commit e t' s.edited laws (λ zero.
                  plan_transaction-entered (lookups_of e before) (some (splits_of e before t')) spec
                    plan planned clock
                    (sym (
                        apply_plan-entered e t' entry plan (e.perform (trans_begin_edit t') before))
                      ∙ zero)));
          })

  module _ (sha256 : Bytes → Bytes) (outcomes : Codec Outcome) (backend : Backend B)
      (session : Session) (now : PendingEntry → ℕ) (q : Request) (later : ℕ) (t : Tables)
      (before : B) where
    -- DeleteTransaction: at whichever crash point the process dies, if it does, after a restart, the reconciliation and
    -- one retry the client has its empty response, the transaction is gone and the id is resolved; on a disk that fails
    -- no statement, for an unresolved id, a request that reads as the GUID under which the book has the transaction,
    -- and a commit after which it has none there.
    pub delete_exactly_once :
        (guid : Bytes) (t' : T)
        → IsFresh q t
        → kind_of q.rpc_name ≡ some deleting
        → codecs.delete_transactions.parse q.payload ≡ some guid
        → book session ≡ none
        → find_transaction e before guid (str "guid") ≡ ok t'
        → let s = deleted e session t' before in
          on_some (e.string_to_guid guid) (e.trans_lookup s.final) ≡ none
          → HappensOnce sha256 outcomes codecs.empties backend
              (recovery_engine e codecs)
              now
              (delete_transaction e backend session guid)
              q
              later
              t
              before
              (stage_delete e session guid)
              s
    unfolding stage_delete
    delete_exactly_once guid t' fresh kind parses opened found gone =
        let s = deleted e session t' before in
        handler_exactly_once sha256 outcomes codecs.empties backend (recovery_engine e codecs) now
          (delete_transaction e backend session guid) q later t before (stage_delete e session guid)
          s deleting (delete_transaction-staged e session backend guid) fresh
          (ground (arith, opened, found)) kind
          (record {
            guid = guid;
            it = (before, t');
            parses = parses;
            absent = ground (arith, gone);
            present =
                ground (arith, find_transaction-found e codecs before guid (str "guid") t' found);
          })
