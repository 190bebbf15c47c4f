-- ===== src/Rpc/Accounts/Once.antt =====
-- The crash story of the handlers of accounts, over the handlers and the book's own lookups.
use daichod.Base.{refl, ◌∙◌, ◌∙◌, ℕ, ◌≡◌, ◌≢◌, ap, true, false, none, some, arith}
use daichod.Base.Text.{Bytes, str, empty}
use daichod.Base.Codec.{Codec}
use daichod.Exec.{ok}
use daichod.World.{Backend}
use daichod.Journal.{Outcome, Tables, PendingEntry}
use daichod.Journal.Recovery.Verdict.{
  kind_of, on_some, create_account as creating, update_account as updating,
  delete_account as deleting,
}
use daichod.Engine.Objects.{Chance, drawn, Objects, account_begin_edit}
use daichod.Engine.Laws.{GuidsParse, AccountCommitLaws}
use daichod.Engine.Convert.{
  string_to_guid, find_commodity, find_account, account_to_proto, option_map,
}
use daichod.Engine.Session.{Session, book}
use daichod.Proto.{AccountSpec}
use daichod.Rpc.Mutation.{Request}
use daichod.Rpc.Handler.Evidence.{Codecs, recovery_engine, serialize_injective, find_account-found}
use daichod.Rpc.Handler.Anew.{HappensAnew, handler_anew}
use daichod.Rpc.Handler.Once.{IsFresh, HappensOnce, handler_exactly_once}
use daichod.Rpc.Accounts.Response.{account_to_proto-commit}
use daichod.Rpc.Accounts.{
  AccountPlan, plan_create, plan_update, apply_update, check_deletable, create_account,
  update_account, delete_account,
}
use daichod.Rpc.Accounts.Staged.{
  stage_account, created, destroyed, stage_create, stage_update, stage_delete,
  create_account-staged, update_account-staged, delete_account-staged,
}

module _ {B G C A T S P : Type 0} (e : Objects B G C A T S P) where
  -- Chance does not move what CreateAccount looks up.
  plan_create-drawn :
      (chance : Chance B A T S P) (b : B) (spec : AccountSpec)
      → plan_create (drawn chance e) b spec ≡ plan_create e b spec
  unfolding find_account find_commodity string_to_guid
  plan_create-drawn chance b spec = refl

  module _ (codecs : Codecs) (sha256 : Bytes → Bytes) (outcomes : Codec Outcome)
      (backend : Backend B) (session : Session) (now : PendingEntry → ℕ) (q : Request) (later : ℕ)
      (t : Tables) (before : B) where
    -- CreateAccount, wherever the process dies, if it does, and whatever the retry draws: after a restart, the
    -- reconciliation and one retry, what lasts is the run's own edit and response if it died behind its commit or not at
    -- all, and the retry's, with the GUID that it draws, if it died before: the client has that response, the book holds
    -- that one edit and the id is resolved; on a disk that fails no statement, for an unresolved id, a request that
    -- passes its checks, a GUID of the first run under which the book had no account, and a commit of it that has
    -- entered the account under it.
    pub create_account_exactly_once :
        (chance : Chance B A T S P) (spec : AccountSpec) (plan : AccountPlan C A)
        → GuidsParse e
        → IsFresh q t
        → kind_of q.rpc_name ≡ some creating
        → empty spec.guid ≡ true
        → empty spec.name ≡ false
        → empty spec.parent_guid ≡ false
        → book session ≡ none
        → plan_create e before spec ≡ ok plan
        → let made = e.malloc_account before in
          let s =
            stage_account e session
              (account_to_proto e)
              made.0
              (created e session spec plan before) in
          let e' = drawn chance e in
          let s' =
            stage_account e' session
              (account_to_proto e')
              (chance.draws_account before).0
              (created e' session spec plan before) in
          e.account_lookup before (e.account_guid made.0) ≡ none
          → e.account_lookup s.final (e.account_guid made.0) ≡ some made.0
          → HappensAnew sha256 outcomes codecs.accounts backend
              (recovery_engine e codecs)
              now
              (create_account e backend session spec)
              (create_account e' backend session spec)
              q
              later
              t
              before
              (stage_create e session spec)
              (stage_create e' session spec)
              s
              s'
    unfolding stage_create account_to_proto
    create_account_exactly_once chance spec plan guids fresh kind new_one named below opened planned
          absent present =
        let made = e.malloc_account before in
        let s =
          stage_account e session (account_to_proto e) made.0
            (created e session spec plan before) in
        let e' = drawn chance e in
        let s' =
          stage_account e' session (account_to_proto e') (chance.draws_account before).0
            (created e' session spec plan before) in
        handler_anew sha256 outcomes codecs.accounts backend (recovery_engine e codecs) now
          (create_account e backend session spec) (create_account e' backend session spec) q later t
          before (stage_create e session spec) (stage_create e' session spec) s s' creating
          (create_account-staged e session backend spec)
          (create_account-staged e' session backend spec) fresh
          (ground (arith, new_one, named, below, opened, planned))
          (ground
            (arith, new_one, named, below, opened, plan_create-drawn chance before spec ∙ planned))
          kind
          (record {
            guid = e.guid_to_string (e.account_guid made.0);
            it = (s.final, made.0);
            parses =
                ap (option_map (λ (m : AccountSpec). m.guid))
                  (codecs.accounts.parse-serialize s.response);
            absent = ground (arith, guids (e.account_guid made.0), absent);
            present = ground (arith, guids (e.account_guid made.0), present);
          })

    -- UpdateAccount: at whichever crash point the process dies, if it does, after a restart, the reconciliation and one
    -- retry the client has the response, the book holds the update once and the id is resolved; on a disk that fails no
    -- statement, for an unresolved id, a request that passes its checks and changes how its account reads, an engine
    -- whose commit of this edit is as documented, and an account that is found under its GUID.
    pub update_account_exactly_once :
        (fuel : ℕ) (spec : AccountSpec) (a : A) (plan : AccountPlan C A)
        → GuidsParse e
        → IsFresh q t
        → kind_of q.rpc_name ≡ some updating
        → empty spec.guid ≡ false
        → empty spec.name ≡ false
        → book session ≡ none
        → find_account e before spec.guid (str "account.guid") ≡ ok a
        → plan_update e fuel before a spec ≡ ok plan
        → let s =
            stage_account e session
              (account_to_proto e)
              a
              (apply_update e a spec plan (e.perform (account_begin_edit a) before)) in
          AccountCommitLaws e a s.edited
          → e.account_lookup before (e.account_guid a) ≡ some a
          → e.account_lookup s.final (e.account_guid a) ≡ some a
          → account_to_proto e before a ≢ s.response
          → HappensOnce sha256 outcomes codecs.accounts backend
              (recovery_engine e codecs)
              now
              (update_account e backend session fuel spec)
              q
              later
              t
              before
              (stage_update e session fuel spec)
              s
    unfolding stage_update account_to_proto
    update_account_exactly_once fuel spec a plan guids fresh kind had_guid named opened found
          planned laws was is_now differs =
        let s =
          stage_account e session (account_to_proto e) a
            (apply_update e a spec plan (e.perform (account_begin_edit a) before)) in
        handler_exactly_once sha256 outcomes codecs.accounts backend (recovery_engine e codecs) now
          (update_account e backend session fuel spec) q later t before
          (stage_update e session fuel spec) s updating
          (update_account-staged e session backend fuel spec) fresh
          (ground (arith, had_guid, named, opened, found, planned)) kind
          (record {
            guid = e.guid_to_string (e.account_guid a);
            old = (before, a);
            new = (s.final, a);
            parses =
                ap (option_map (λ (m : AccountSpec). m.guid))
                  (codecs.accounts.parse-serialize s.response);
            was = ground (arith, guids (e.account_guid a), was);
            is_now = ground (arith, guids (e.account_guid a), is_now);
            differed = λ same. differs (serialize_injective codecs.accounts _ _ same);
            agrees = ap codecs.accounts.serialize (account_to_proto-commit e a s.edited laws);
          })

    -- DeleteAccount: at whichever crash point the process dies, if it does, after a restart, the reconciliation and one
    -- retry the client has its empty response, the account is gone and the id is resolved; on a disk that fails no
    -- statement, for an unresolved id, a request that passes its checks and reads as the GUID under which the book has
    -- the account, and a commit after which it has none there.
    pub delete_account_exactly_once :
        (guid : Bytes) (a : A)
        → IsFresh q t
        → kind_of q.rpc_name ≡ some deleting
        → codecs.delete_accounts.parse q.payload ≡ some guid
        → book session ≡ none
        → find_account e before guid (str "guid") ≡ ok a
        → check_deletable e before a guid ≡ ok tt
        → let s = destroyed e session a before in
          on_some (e.string_to_guid guid) (e.account_lookup s.final) ≡ none
          → HappensOnce sha256 outcomes codecs.empties backend
              (recovery_engine e codecs)
              now
              (delete_account e backend session guid)
              q
              later
              t
              before
              (stage_delete e session guid)
              s
    unfolding stage_delete
    delete_account_exactly_once guid a fresh kind parses opened found deletable gone =
        let s = destroyed e session a before in
        handler_exactly_once sha256 outcomes codecs.empties backend (recovery_engine e codecs) now
          (delete_account e backend session guid) q later t before (stage_delete e session guid) s
          deleting (delete_account-staged e session backend guid) fresh
          (ground (arith, opened, found, deletable)) kind
          (record {
            guid = guid;
            it = (before, a);
            parses = parses;
            absent = ground (arith, gone);
            present = ground (arith, find_account-found e codecs before guid (str "guid") a found);
          })
