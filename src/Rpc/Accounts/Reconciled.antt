-- ===== src/Rpc/Accounts/Reconciled.antt =====
-- The crash story of SetReconcileInfo, over its handler and the book's own lookups.
use daichod.Base.{ℕ, ◌≡◌, ◌≢◌, ap, none, some, Option, arith}
use daichod.Base.Text.{Bytes, str}
use daichod.Base.Codec.{Codec}
use daichod.Exec.{ok}
use daichod.World.{Backend}
use daichod.Journal.{Outcome, Tables, PendingEntry}
use daichod.Journal.Recovery.Verdict.{kind_of, set_reconcile_info as reconciling}
use daichod.Engine.Map.{GDate}
use daichod.Engine.Objects.{Objects}
use daichod.Engine.Laws.{GuidsParse, AccountCommitLaws}
use daichod.Engine.Convert.{find_account, reconcile_info_to_proto, option_map}
use daichod.Engine.Session.{Session, book}
use daichod.Proto.{ReconcileInfo, Date}
use daichod.Rpc.Mutation.{Request}
use daichod.Rpc.Handler.Evidence.{Codecs, recovery_engine, serialize_injective}
use daichod.Rpc.Handler.Once.{IsFresh, HappensOnce, handler_exactly_once}
use daichod.Rpc.Accounts.Response.{reconcile_info_to_proto-commit}
use daichod.Rpc.Accounts.{required_last_date, set_reconcile_info}
use daichod.Rpc.Accounts.Staged.{
  stage_account, dated, stage_set_reconcile_info, set_reconcile_info-staged,
}

module _ {B G C A T S P : Type 0} (e : Objects B G C A T S P) where
  module _ (codecs : Codecs) (sha256 : Bytes → Bytes) (outcomes : Codec Outcome)
      (backend : Backend B) (session : Session) (now : PendingEntry → ℕ) (q : Request) (later : ℕ)
      (t : Tables) (before : B) where
    -- SetReconcileInfo: at whichever crash point the process dies, if it does, after a restart, the reconciliation and
    -- one retry the client has the response, the book holds the date once and the id is resolved; on a disk that fails
    -- no statement, for an unresolved id, a request that passes its checks and changes how its account's information
    -- reads, an engine whose commit of this edit is as documented, and an account that is found under its GUID.
    pub set_reconcile_info_exactly_once :
        (guid : Bytes) (last_date : Option Date) (a : A) (date : GDate)
        → GuidsParse e
        → IsFresh q t
        → kind_of q.rpc_name ≡ some reconciling
        → book session ≡ none
        → find_account e before guid (str "account_guid") ≡ ok a
        → required_last_date e last_date ≡ ok date
        → let s =
            stage_account e session (reconcile_info_to_proto e) a (dated e session a date before) in
          AccountCommitLaws e a s.edited
          → e.account_lookup before (e.account_guid a) ≡ some a
          → e.account_lookup s.final (e.account_guid a) ≡ some a
          → reconcile_info_to_proto e before a ≢ s.response
          → HappensOnce sha256 outcomes codecs.reconcile_infos backend
              (recovery_engine e codecs)
              now
              (set_reconcile_info e backend session guid last_date)
              q
              later
              t
              before
              (stage_set_reconcile_info e session guid last_date)
              s
    unfolding stage_set_reconcile_info reconcile_info_to_proto
    set_reconcile_info_exactly_once guid last_date a date guids fresh kind opened found planned laws
          was is_now differs =
        let s =
          stage_account e session (reconcile_info_to_proto e) a (dated e session a date before) in
        handler_exactly_once sha256 outcomes codecs.reconcile_infos backend
          (recovery_engine e codecs) now (set_reconcile_info e backend session guid last_date) q
          later t before (stage_set_reconcile_info e session guid last_date) s reconciling
          (set_reconcile_info-staged e session backend guid last_date) fresh
          (ground (arith, opened, found, planned)) kind
          (record {
            guid = e.guid_to_string (e.account_guid a);
            old = (before, a);
            new = (s.final, a);
            parses =
                ap (option_map (λ (m : ReconcileInfo). m.account_guid))
                  (codecs.reconcile_infos.parse-serialize s.response);
            was = ground (arith, guids (e.account_guid a), was);
            is_now = ground (arith, guids (e.account_guid a), is_now);
            differed = λ same. differs (serialize_injective codecs.reconcile_infos _ _ same);
            agrees =
                ap codecs.reconcile_infos.serialize
                  (reconcile_info_to_proto-commit e a s.edited laws);
          })
