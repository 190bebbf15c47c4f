-- ===== src/Journal/Phase/Calm.antt =====
-- The methods on a calm disk, as equations that leave the tables named and shut.
use daichod.Base.{◌≡◌, refl, ℕ, Bool, true, false, some, none, arith}
use daichod.Base.Text.{Bytes}
use daichod.Base.Codec.{Codec}
use daichod.Exec.{ok}
use daichod.Journal.{
  Outcome, Tables, record_intent, record_pending, clear_pending, record_outcome, get_outcome,
  list_pending_unresolved, pending_list,
}
use daichod.Journal.Phase.{Phase, phase, calm, is_open, resolved, absent, intended, pending}

pub intent-calm :
    (sha256 : Bytes → Bytes) (id rpc payload : Bytes) (now : ℕ) (t : Tables)
    → record_intent sha256 id rpc payload now (calm t)
      ≡ (ok tt, calm (record_intent sha256 id rpc payload now (calm t)).1.tables)
unfolding record_intent
intent-calm sha256 id rpc payload now t = refl

pub pending-calm :
    (id b : Bytes) (t : Tables)
    → record_pending id b (calm t) ≡ (ok tt, calm (record_pending id b (calm t)).1.tables)
unfolding record_pending
pending-calm id b t = refl

pub clear-calm :
    (id : Bytes) (t : Tables)
    → clear_pending id (calm t) ≡ (ok tt, calm (clear_pending id (calm t)).1.tables)
unfolding clear_pending
clear-calm id t = refl

pub pending_list-calm :
    (t : Tables) → list_pending_unresolved (calm t) ≡ (ok (pending_list t), calm t)
unfolding list_pending_unresolved
pending_list-calm t = refl

abbrev pub is_resolved : Phase → Bool
is_resolved (resolved o) = true
is_resolved absent = false
is_resolved (intended rpc payload) = false
is_resolved (pending rpc payload b) = false

module _ (codec : Codec Outcome) (id : Bytes) (t : Tables) where
  pub outcome-calm :
      (o : Outcome) (now : ℕ)
      → is_open (phase t id) ≡ true
      → record_outcome codec id o now (calm t)
        ≡ (ok tt, calm (record_outcome codec id o now (calm t)).1.tables)
  unfolding record_outcome
  outcome-calm o now h = ground arith

  pub get_outcome-resolved :
      (o : Outcome)
      → phase t id ≡ resolved (codec.serialize o)
      → get_outcome codec id (calm t) ≡ (ok (some o), calm t)
  unfolding get_outcome
  get_outcome-resolved o h = ground (arith, codec.parse-serialize o)

  pub get_outcome-unresolved :
      is_resolved (phase t id) ≡ false → get_outcome codec id (calm t) ≡ (ok none, calm t)
  unfolding get_outcome
  get_outcome-unresolved h = ground arith
