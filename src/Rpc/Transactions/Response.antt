-- ===== src/Rpc/Transactions/Response.antt =====
-- The response that is written inside the edit, and the transaction that the commit leaves.
use daichod.Base.{
  ◌≡◌, ◌≢◌, refl, ap, false, not, List, [], ◌∷◌, map, keep, arith, Bool-cases, inl, inr,
}
use daichod.Base.Int.{pos}
use daichod.Engine.Objects.{Objects, trans_commit_edit}
use daichod.Engine.Laws.{CommitLaws}
use daichod.Engine.Convert.{split_to_proto, transaction_to_proto}

module _ {B G C A T S P : Type 0} (e : Objects B G C A T S P) (t : T) where
  module _ (b : B) (laws : CommitLaws e t b) where
    split_to_proto-commit :
        (s : S)
        → e.split_destroying b s ≡ false
        → split_to_proto e (e.perform (trans_commit_edit t) b) s ≡ split_to_proto e b s
    unfolding split_to_proto
    split_to_proto-commit s h = ground (
      arith,
      laws.account_kept s h,
      laws.value_kept s h,
      laws.amount_kept s h,
      laws.memo_kept s h,
      laws.action_kept s h,
      laws.reconcile_kept s h,
      λ (q : e.split_account (e.perform (trans_commit_edit t) b) s ≡ e.split_account b s).
          ap (λ a. e.guid_to_string (e.account_guid a)) q,
    )

    splits_survive :
        (ss : List S)
        → let b' = e.perform (trans_commit_edit t) b in
          map (split_to_proto e b') (
            keep (λ s. not (e.split_destroying b' s)) (keep (λ s. not (e.split_destroying b s)) ss))
          ≡ map (split_to_proto e b) (keep (λ s. not (e.split_destroying b s)) ss)
    splits_survive [] = refl
    splits_survive (s ∷ ss) = elim (Bool-cases (e.split_destroying b s)) [
      | inl gone ↦ ground (arith, gone, splits_survive ss)
      | inr kept ↦ ground (
        arith,
        kept,
        splits_survive ss,
        laws.destroying_kept s kept,
        split_to_proto-commit s kept,
      )
    ]

    -- The response that is written inside an open edit is what the committed transaction reads as, if a time of entry is set.
    pub transaction_to_proto-commit :
        e.trans_date_entered b t ≢ pos 0
        → transaction_to_proto e (e.perform (trans_commit_edit t) b) t ≡ transaction_to_proto e b t
    unfolding transaction_to_proto
    transaction_to_proto-commit h = ground (
      arith,
      laws.currency_kept,
      laws.date_kept,
      laws.entered_kept h,
      laws.num_kept,
      laws.description_kept,
      ap
          (λ ss.
            map (split_to_proto e (e.perform (trans_commit_edit t) b))
              (keep (λ s. not (e.split_destroying (e.perform (trans_commit_edit t) b) s)) ss))
          (laws.splits_left),
      splits_survive (e.trans_splits b t),
    )
