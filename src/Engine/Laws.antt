-- ===== src/Engine/Laws.antt =====
-- What libgnucash documents of its objects, as far as the crash story rests on it.
use daichod.Base.{◌≡◌, ◌≢◌, Bool, true, false, not, some, keep}
use daichod.Base.Int.{ℤ, pos}
use daichod.Engine.Objects.{
  Objects, Call, account_commit_edit, trans_commit_edit, trans_destroy, trans_set_date_entered,
}

-- A GUID's text parses to it.
abbrev pub GuidsParse : {B G C A T S P : Type 0} → Objects B G C A T S P → Type 0
GuidsParse {G = G} e = (g : G) → e.string_to_guid (e.guid_to_string g) ≡ some g

-- The calls that may change the time at which a transaction was entered: its setter, and what ends its life or edit.
abbrev pub may_enter : {C A T S P : Type 0} → Call C A T S P → Bool
may_enter (trans_set_date_entered t x) = true
may_enter (trans_commit_edit t) = true
may_enter (trans_destroy t) = true
may_enter _ = false

module _ {B G C A T S P : Type 0} (e : Objects B G C A T S P) where
  -- xaccTransCommitEdit of an open edit `b`: it fills in a time of entry that is missing, takes the splits that are queued for destruction off
  -- the transaction's list, and leaves what remains as it is.
  pub record CommitLaws (t : T) (b : B) : Type 0 where
    pub currency_kept :
        e.trans_currency (e.perform (trans_commit_edit t) b) t ≡ e.trans_currency b t
    pub date_kept :
        e.trans_date_posted (e.perform (trans_commit_edit t) b) t ≡ e.trans_date_posted b t
    pub entered_kept :
        e.trans_date_entered b t ≢ pos 0
        → e.trans_date_entered (e.perform (trans_commit_edit t) b) t ≡ e.trans_date_entered b t
    pub num_kept : e.trans_num (e.perform (trans_commit_edit t) b) t ≡ e.trans_num b t
    pub description_kept :
        e.trans_description (e.perform (trans_commit_edit t) b) t ≡ e.trans_description b t
    pub splits_left :
        e.trans_splits (e.perform (trans_commit_edit t) b) t
        ≡ keep (λ s. not (e.split_destroying b s)) (e.trans_splits b t)
    pub destroying_kept :
        (s : S)
        → e.split_destroying b s ≡ false
        → e.split_destroying (e.perform (trans_commit_edit t) b) s ≡ false
    pub account_kept :
        (s : S)
        → e.split_destroying b s ≡ false
        → e.split_account (e.perform (trans_commit_edit t) b) s ≡ e.split_account b s
    pub value_kept :
        (s : S)
        → e.split_destroying b s ≡ false
        → e.split_value (e.perform (trans_commit_edit t) b) s ≡ e.split_value b s
    pub amount_kept :
        (s : S)
        → e.split_destroying b s ≡ false
        → e.split_amount (e.perform (trans_commit_edit t) b) s ≡ e.split_amount b s
    pub memo_kept :
        (s : S)
        → e.split_destroying b s ≡ false
        → e.split_memo (e.perform (trans_commit_edit t) b) s ≡ e.split_memo b s
    pub action_kept :
        (s : S)
        → e.split_destroying b s ≡ false
        → e.split_action (e.perform (trans_commit_edit t) b) s ≡ e.split_action b s
    pub reconcile_kept :
        (s : S)
        → e.split_destroying b s ≡ false
        → e.split_reconcile (e.perform (trans_commit_edit t) b) s ≡ e.split_reconcile b s

  -- Within an edit the time of entry changes by its setter alone, which sets it.
  pub record EntryLaws (t : T) : Type 0 where
    pub entered_set :
        (b : B) (x : ℤ) → e.trans_date_entered (e.perform (trans_set_date_entered t x) b) t ≡ x
    pub entered_frame :
        (b : B) (c : Call C A T S P)
        → may_enter c ≡ false
        → e.trans_date_entered (e.perform c b) t ≡ e.trans_date_entered b t
    pub entered_malloc :
        (b : B) → e.trans_date_entered (e.malloc_split b).1 t ≡ e.trans_date_entered b t

  -- xaccAccountCommitEdit of an open edit `b` leaves what the edit has set.
  pub record AccountCommitLaws (a : A) (b : B) : Type 0 where
    pub parent_kept :
        e.account_parent (e.perform (account_commit_edit a) b) a ≡ e.account_parent b a
    pub name_kept : e.account_name (e.perform (account_commit_edit a) b) a ≡ e.account_name b a
    pub type_kept : e.account_type (e.perform (account_commit_edit a) b) a ≡ e.account_type b a
    pub commodity_kept :
        e.account_commodity (e.perform (account_commit_edit a) b) a ≡ e.account_commodity b a
    pub code_kept : e.account_code (e.perform (account_commit_edit a) b) a ≡ e.account_code b a
    pub description_kept :
        e.account_description (e.perform (account_commit_edit a) b) a ≡ e.account_description b a
    pub placeholder_kept :
        e.account_placeholder (e.perform (account_commit_edit a) b) a ≡ e.account_placeholder b a
    pub hidden_kept :
        e.account_hidden (e.perform (account_commit_edit a) b) a ≡ e.account_hidden b a
    pub last_date_kept :
        e.reconcile_last_date (e.perform (account_commit_edit a) b) a ≡ e.reconcile_last_date b a
    pub balance_kept :
        e.reconciled_balance (e.perform (account_commit_edit a) b) a ≡ e.reconciled_balance b a
