-- ===== src/Rpc/Commodities/Staged.antt =====
-- AddPrice as a staging.
use daichod.Base.{◌≡◌, refl, sym, ap, ap₂, ◌∙◌, if◌then◌else◌}
use daichod.Base.Text.{str, empty}
use daichod.Exec.{Result, ok, err, aborted, continue}
use daichod.World.{World, Backend}
use daichod.Engine.Map.{refuse}
use daichod.Engine.Objects.{
  Objects, price_begin_edit, price_commit_edit, pricedb_add_price, price_unref,
}
use daichod.Engine.Convert.{price_to_proto}
use daichod.Engine.Session.{Session}
use daichod.Proto.{PriceSpec}
use daichod.Rpc.Handler.{require_book, KeepsBook}
use daichod.Rpc.Handler.Steps.{check_then}
use daichod.Rpc.Mutation.{Recorder}
use daichod.Rpc.Mutation.Staged.{Staging, staged}
use daichod.Rpc.Plan.Types.{and_then}
use daichod.Rpc.Transactions.{perform_all}
use daichod.Rpc.Commodities.{PricePlan, plan_price, fill_price, add_price}

module _ {B G C A T S P : Type 0} (e : Objects B G C A T S P) (session : Session) where
  abbrev pub priced : PriceSpec → PricePlan C → B → B
  priced spec plan b =
      let made = e.price_create b in
      perform_all e (fill_price e made.0 spec plan) (e.perform (price_begin_edit made.0) made.1)

  abbrev pub stage_priced : P → B → Staging B PriceSpec
  stage_priced p edited = record {
    response = price_to_proto e edited p;
    edited = edited;
    final = e.perform (pricedb_add_price p) (e.perform (price_commit_edit p) edited);
  }

  unfoldable pub stage_add_price : PriceSpec → B → Result (Staging B PriceSpec)
  stage_add_price spec b =
      and_then
        (if empty spec.guid
          then ok tt
          else refuse (str "guid must be empty on create; the engine assigns") (str "price.guid"))
        (λ _. and_then (require_book session b) (λ _.
          and_then (plan_price e b spec)
            (λ plan. ok (stage_priced (e.price_create b).0 (priced spec plan b)))))

  module _ (backend : Backend B)
      (unref_keeps : (p : P) (b : B) → e.perform (price_unref p) b ≡ b) where
    -- The two commits leave the backend with the book in memory, as one does.
    two_commits :
        (p : P) (out : PriceSpec) (edited : B) (r : Result (Unit {0}) × World B)
        → r.1.live ≡ edited
        → let committed = λ (b : B). e.perform (price_commit_edit p) b in
          let added = λ (b : B). e.perform (pricedb_add_price p) (committed b) in
          continue r (λ _ v. (
            ok out,
            record v {
              live = e.perform (price_unref p) (added v.live);
              saved = backend.commit (backend.commit v.saved (committed v.live)) (added v.live);
            },
          ))
          ≡ continue r (λ _ v. (
            ok out,
            record v { live = added edited; saved = backend.commit v.saved (added edited) },
          ))
    two_commits p out edited (ok u, w) h =
        let added =
          λ (b : B). e.perform (pricedb_add_price p) (e.perform (price_commit_edit p) b) in
        ap₂ (λ (l s : B). (ok out, record w { live = l; saved = s }))
          (unref_keeps p (added w.live) ∙ ap added h)
          (backend.commit_saves _ (added w.live)
            ∙ ap added h
            ∙ sym (backend.commit_saves w.saved (added edited)))
    two_commits p out edited (err x, w) h = refl
    two_commits p out edited (aborted, w) h = refl

    pub add_price-staged :
        (spec : PriceSpec) (record_pending : Recorder B PriceSpec)
        → KeepsBook record_pending
        → (w : World B)
        → add_price e backend session spec record_pending w
          ≡ staged backend (stage_add_price spec) record_pending w
    unfolding add_price stage_add_price
    add_price-staged spec record_pending keeps w =
        check_then backend record_pending
          (if empty spec.guid
            then ok tt
            else refuse (str "guid must be empty on create; the engine assigns") (str "price.guid"))
          w _ _
          (λ _. check_then backend record_pending (require_book session w.live) w _ _ (λ _.
            check_then backend record_pending (plan_price e w.live spec) w _ _ (λ plan.
              let p = (e.price_create w.live).0 in
              let edited = priced spec plan w.live in
              two_commits p (price_to_proto e edited p) edited
                (record_pending (price_to_proto e edited p) (record w { live = edited }))
                (keeps (price_to_proto e edited p) (record w { live = edited })))))
