-- ===== src/Rpc/Commodities/Once.antt =====
-- The crash story of AddPrice, over its handler and the book's own lookups.
use daichod.Base.{refl, ◌∙◌, ◌∙◌, ℕ, ◌≡◌, ap, true, none, some, arith}
use daichod.Base.Text.{Bytes, empty}
use daichod.Base.Codec.{Codec}
use daichod.Exec.{ok}
use daichod.World.{Backend}
use daichod.Journal.{Outcome, Tables, PendingEntry}
use daichod.Journal.Recovery.Verdict.{kind_of, add_price as pricing}
use daichod.Engine.Objects.{Chance, drawn, Objects, price_unref}
use daichod.Engine.Laws.{GuidsParse}
use daichod.Engine.Convert.{find_commodity, price_to_proto, option_map}
use daichod.Engine.Session.{Session, book}
use daichod.Proto.{PriceSpec}
use daichod.Rpc.Mutation.{Request}
use daichod.Rpc.Handler.Evidence.{Codecs, recovery_engine}
use daichod.Rpc.Handler.Anew.{HappensAnew, handler_anew}
use daichod.Rpc.Handler.Once.{IsFresh}
use daichod.Rpc.Commodities.{PricePlan, plan_price, add_price}
use daichod.Rpc.Commodities.Staged.{priced, stage_priced, stage_add_price, add_price-staged}

module _ {B G C A T S P : Type 0} (e : Objects B G C A T S P) (codecs : Codecs)
    (sha256 : Bytes → Bytes) (outcomes : Codec Outcome) (backend : Backend B) (session : Session)
    (now : PendingEntry → ℕ) (q : Request) (later : ℕ) (t : Tables) (before : B) where
  -- Chance does not move what AddPrice looks up.
  plan_price-drawn :
      (chance : Chance B A T S P) (b : B) (spec : PriceSpec)
      → plan_price (drawn chance e) b spec ≡ plan_price e b spec
  unfolding find_commodity
  plan_price-drawn chance b spec = refl

  -- AddPrice, wherever the process dies, if it does, and whatever the retry draws: after a restart, the reconciliation
  -- and one retry, what lasts is the run's own edit and response if it died behind its commit or not at all, and the
  -- retry's, with the GUID that it draws, if it died before: the client has that response, the book holds that one edit
  -- and the id is resolved; on a disk that fails no statement, for an unresolved id, a request that passes its checks, a
  -- GUID of the first run under which the book had no price, two commits of it that have entered the price under it, and
  -- a reference that is let go of with the price left in the book.
  pub add_price_exactly_once :
      (chance : Chance B A T S P) (spec : PriceSpec) (plan : PricePlan C)
      → GuidsParse e
      → ((p : P) (b : B) → e.perform (price_unref p) b ≡ b)
      → IsFresh q t
      → kind_of q.rpc_name ≡ some pricing
      → empty spec.guid ≡ true
      → book session ≡ none
      → plan_price e before spec ≡ ok plan
      → let made = e.price_create before in
        let s = stage_priced e session made.0 (priced e session spec plan before) in
        let e' = drawn chance e in
        let s' =
          stage_priced e' session
            (chance.draws_price before).0
            (priced e' session spec plan before) in
        e.price_lookup before (e.price_guid made.0) ≡ none
        → e.price_lookup s.final (e.price_guid made.0) ≡ some made.0
        → HappensAnew sha256 outcomes codecs.prices backend
            (recovery_engine e codecs)
            now
            (add_price e backend session spec)
            (add_price e' backend session spec)
            q
            later
            t
            before
            (stage_add_price e session spec)
            (stage_add_price e' session spec)
            s
            s'
  unfolding stage_add_price price_to_proto
  add_price_exactly_once chance spec plan guids unref fresh kind new_one opened planned absent
        present =
      let made = e.price_create before in
      let s = stage_priced e session made.0 (priced e session spec plan before) in
      let e' = drawn chance e in
      let s' =
        stage_priced e' session (chance.draws_price before).0
          (priced e' session spec plan before) in
      handler_anew sha256 outcomes codecs.prices backend (recovery_engine e codecs) now
        (add_price e backend session spec) (add_price e' backend session spec) q later t before
        (stage_add_price e session spec) (stage_add_price e' session spec) s s' pricing
        (add_price-staged e session backend unref spec)
        (add_price-staged e' session backend unref spec) fresh
        (ground (arith, new_one, opened, planned))
        (ground (arith, new_one, opened, plan_price-drawn chance before spec ∙ planned)) kind
        (record {
          guid = e.guid_to_string (e.price_guid made.0);
          it = true;
          parses =
              ap (option_map (λ (m : PriceSpec). m.guid))
                (codecs.prices.parse-serialize s.response);
          absent = ground (arith, guids (e.price_guid made.0), absent);
          present = ground (arith, guids (e.price_guid made.0), present);
        })
