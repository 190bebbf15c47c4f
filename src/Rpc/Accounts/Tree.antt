-- ===== src/Rpc/Accounts/Tree.antt =====
-- The tree of the accounts, CheckNoCycle's way up in it, and an account that is moved.
use daichod.Base.{
  ℕ, zero, suc, ◌<◌, ◌≡◌, refl, sym, ◌∙◌, subst, Bool, true, false, Bool-cases, inl, inr, Option,
  none, some, List, [], ◌∷◌, All, any, length, if◌then◌else◌, arith,
}
use daichod.Base.Text.{Bytes, str}
use daichod.Exec.{ok}
use daichod.Engine.Map.{refuse}
use daichod.Engine.Objects.{Objects, Call, account_destroy, account_append_child}
use daichod.Proto.{AccountSpec}
use daichod.Rpc.Transactions.{perform_all}
use daichod.Rpc.Accounts.{AccountPlan, climb, fill_account, apply_update, is_parent}

-- The calls that may move an account in the tree. xaccAccountDestroy commits its own edit.
abbrev pub may_move : {C A T S P : Type 0} → Call C A T S P → Bool
may_move (account_append_child p a) = true
may_move (account_destroy a) = true
may_move _ = false

module _ {B G C A T S P : Type 0} (e : Objects B G C A T S P) where
  -- What gnc_account_append_child and the pointers are documented to do.
  pub record TreeLaws : Type 0 where
    pub same_refl : (a : A) → e.same_account a a ≡ true
    pub same_eq : (x y : A) → e.same_account x y ≡ true → x ≡ y
    pub appended :
        (b : B) (p a x : A)
        → e.account_parent (e.perform (account_append_child p a) b) x
          ≡ (if e.same_account x a then some p else e.account_parent b x)
    pub parent_frame :
        (b : B) (c : Call C A T S P) (x : A)
        → may_move c ≡ false
        → e.account_parent (e.perform c b) x ≡ e.account_parent b x

  -- The accounts from a cursor up to the root.
  pub data Lineage (b : B) : Option A → List A → Type 0 where
    top : Lineage b none []
    up :
        (a : A) (line : List A)
        → Lineage b (e.account_parent b a) line
        → Lineage b (some a) (a ∷ line)

  abbrev pub IsForest : B → Type 0
  IsForest b = (a : A) → (line : List A) × Lineage b (some a) line

  -- With more rounds than there are ancestors the loop ends, and it throws iff it meets the account.
  pub climb-Lineage :
      (b : B) (account : A) (context : Bytes) (cursor : Option A) (line : List A) (fuel : ℕ)
      → Lineage b cursor line
      → length line < fuel
      → climb e fuel b account context cursor ≡ (
          if any (λ a. e.same_account a account) line
          then refuse (str "parent_guid would create a cycle") context
          else ok tt)
  unfolding climb
  climb-Lineage b account context _ _ zero l h = ground arith
  climb-Lineage b account context _ _ (suc fuel) top h = refl
  climb-Lineage b account context _ _ (suc fuel) (up a line l) h =
      ground
        (arith, climb-Lineage b account context (e.account_parent b a) line fuel l (ground arith))

  pub climb-ok :
      (b : B) (account : A) (context : Bytes) (cursor : Option A) (line : List A) (fuel : ℕ)
      → Lineage b cursor line
      → climb e fuel b account context cursor ≡ ok tt
      → any (λ a. e.same_account a account) line ≡ false
  unfolding climb
  climb-ok b account context _ _ zero l h = ground arith
  climb-ok b account context _ _ (suc fuel) top h = refl
  climb-ok b account context _ _ (suc fuel) (up a line l) h =
      elim (Bool-cases (e.same_account a account)) [
        | inl same ↦ ground (arith, same, h)
        | inr other ↦ ground (
          arith,
          other,
          climb-ok b account context (e.account_parent b a) line fuel l (ground (arith, other, h)),
        )
      ]

  module _ (laws : TreeLaws) where
    perform_all-parent :
        (cs : List (Call C A T S P)) (b : B) (x : A)
        → All (λ c. may_move c ≡ false) cs
        → e.account_parent (perform_all e cs b) x ≡ e.account_parent b x
    unfolding perform_all
    perform_all-parent [] b x q = refl
    perform_all-parent (c ∷ cs) b x q =
        perform_all-parent cs (e.perform c b) x q.1 ∙ laws.parent_frame b c x q.0

    -- A book whose accounts have the parents of another.
    pub Lineage-frame :
        (b b' : B)
        → ((x : A) → e.account_parent b' x ≡ e.account_parent b x)
        → (cursor : Option A) (line : List A) → Lineage b cursor line
        → Lineage b' cursor line
    Lineage-frame b b' same _ _ top = top
    Lineage-frame b b' same _ _ (up a line l) = up a line (
        subst (λ o. Lineage b' o line) (sym (same a))
          (Lineage-frame b b' same (e.account_parent b a) line l))

    module _ (b : B) (parent account : A) where
      moved : B
      moved = e.perform (account_append_child parent account) b

      stays :
          (x : A)
          → e.same_account x account ≡ false
          → e.account_parent moved x ≡ e.account_parent b x
      unfolding moved
      stays x other = ground (arith, laws.appended b parent account x, other)

      -- The ancestors of the new parent are not touched.
      above :
          (cursor : Option A) (line : List A)
          → Lineage b cursor line
          → any (λ a. e.same_account a account) line ≡ false
          → Lineage moved cursor line
      above _ _ top free = top
      above _ _ (up a line l) free = up a line (
          subst (λ o. Lineage moved o line) (sym (stays a (ground (arith, free))))
            (above (e.account_parent b a) line l (ground (arith, free))))

      -- Whoever has the account above it gets the new parent's ancestors.
      below :
          (ps : List A)
          → Lineage b (some parent) ps
          → any (λ a. e.same_account a account) ps ≡ false
          → (cursor : Option A) (line : List A) → Lineage b cursor line
          → (found : List A) × Lineage moved cursor found
      unfolding moved
      below ps l free _ _ top = ([], top)
      below ps l free _ _ (up a line rest) = elim (Bool-cases (e.same_account a account)) [
        | inl same ↦ (
          a ∷ ps,
          up a ps (
              subst (λ o. Lineage moved o ps)
                (ground (arith, laws.appended b parent account a, same))
                (above (some parent) ps l free)),
        )
        | inr other ↦
            let (found, f) = below ps l free (e.account_parent b a) line rest in
            (a ∷ found, up a found (subst (λ o. Lineage moved o found) (sym (stays a other)) f))
      ]

    pub same-IsForest :
        (b b' : B)
        → ((x : A) → e.account_parent b' x ≡ e.account_parent b x)
        → IsForest b
        → IsForest b'
    same-IsForest b b' same forest x =
        let (line, l) = forest x in (line, Lineage-frame b b' same (some x) line l)

    fill_account-parent :
        (a : A) (spec : AccountSpec) (plan : AccountPlan C A) (b : B) (x : A)
        → e.account_parent (perform_all e (fill_account e a spec plan.type_of plan.commodity) b) x
          ≡ e.account_parent b x
    fill_account-parent a spec plan b x =
        perform_all-parent (fill_account e a spec plan.type_of plan.commodity) b x
          (refl, (refl, (refl, (refl, (refl, (refl, (refl, tt)))))))

    pub apply_update-IsForest :
        (b : B) (a : A) (spec : AccountSpec) (plan : AccountPlan C A) (line : List A)
        → Lineage b (some plan.parent) line
        → any (λ c. e.same_account c a) line ≡ false
        → IsForest b
        → IsForest (apply_update e a spec plan b)
    unfolding apply_update moved
    apply_update-IsForest b a spec plan line l free forest x =
        let filled = perform_all e (fill_account e a spec plan.type_of plan.commodity) b in
        let same = fill_account-parent a spec plan b in
        let grown = same-IsForest b filled same forest x in
        elim (is_parent e filled plan.parent a)
          as (λ c.
            (found : List A) × Lineage
              (if c then filled else e.perform (account_append_child plan.parent a) filled) (some x)
              found) [
                | true ↦ grown
                | false ↦
                    below filled plan.parent a line
                      (Lineage-frame b filled same (some plan.parent) line l) free (some x) grown.0
                      grown.1
              ]
