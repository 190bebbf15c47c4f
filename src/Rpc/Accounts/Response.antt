-- ===== src/Rpc/Accounts/Response.antt =====
-- The responses of the handlers of accounts, written inside an open edit, and the accounts that the commit leaves.
use daichod.Base.{◌≡◌}
use daichod.Engine.Objects.{Objects, account_commit_edit}
use daichod.Engine.Laws.{AccountCommitLaws}
use daichod.Engine.Convert.{account_to_proto, reconcile_info_to_proto}

module _ {B G C A T S P : Type 0} (e : Objects B G C A T S P) where
  -- The response that is written inside an open edit is what the committed account reads as.
  pub account_to_proto-commit :
      (a : A) (b : B)
      → AccountCommitLaws e a b
      → account_to_proto e (e.perform (account_commit_edit a) b) a ≡ account_to_proto e b a
  unfolding account_to_proto
  account_to_proto-commit a b laws = simp (
    laws.parent_kept, laws.name_kept, laws.type_kept, laws.commodity_kept, laws.code_kept,
    laws.description_kept, laws.placeholder_kept, laws.hidden_kept,
  )

  pub reconcile_info_to_proto-commit :
      (a : A) (b : B)
      → AccountCommitLaws e a b
      → reconcile_info_to_proto e (e.perform (account_commit_edit a) b) a
        ≡ reconcile_info_to_proto e b a
  unfolding reconcile_info_to_proto
  reconcile_info_to_proto-commit a b laws = simp (laws.last_date_kept, laws.balance_kept)
