-- ===== src/Engine/Map/RoundTrip.antt =====
-- Sending a value, and reading what was accepted.
use daichod.Proto.{AccountType, Date}
use daichod.Proto.{ReconcileState}
use daichod.Base.{ℕ, ◌≡◌, ◌≢◌, ap, sym, ◌∙◌, ◌||◌, Bool, true, false, arith}
use daichod.Base.Int.{ℤ, pos, negsuc, ltb_ℤ}
use daichod.Base.Text.{Bytes}
use daichod.Exec.{ok}
use daichod.Engine.Map.{
  GncAccountType, account_type_from_proto, account_type_to_proto, ReconcileFlags,
  reconcile_state_from_proto, reconcile_state_to_proto, GDate, date_from_proto, date_to_proto,
  is_out_of_range, narrowed, cast_to,
}

-- An account type that is accepted reads again as it was sent.
pub account_type-round_trip :
    (t : AccountType) (context : Bytes) (g : GncAccountType)
    → account_type_from_proto t context ≡ ok g
    → account_type_to_proto g ≡ t
unfolding account_type_from_proto account_type_to_proto
account_type-round_trip t context g h = ground arith

-- The engine's five flags are different.
pub record AreDistinct (f : ReconcileFlags) : Type 0 where
  pub nc : f.nrec ≢ f.crec
  pub ny : f.nrec ≢ f.yrec
  pub nf : f.nrec ≢ f.frec
  pub nv : f.nrec ≢ f.vrec
  pub cy : f.crec ≢ f.yrec
  pub cf : f.crec ≢ f.frec
  pub cv : f.crec ≢ f.vrec
  pub yf : f.yrec ≢ f.frec
  pub yv : f.yrec ≢ f.vrec
  pub fv : f.frec ≢ f.vrec

-- A reconcile state that is accepted reads again as it was sent, if the engine's flags are different.
pub reconcile_state-round_trip :
    (f : ReconcileFlags)
    → AreDistinct f
    → (s : ReconcileState) (context : Bytes) (flag : ℕ)
    → reconcile_state_from_proto f s context ≡ ok flag
    → reconcile_state_to_proto f flag ≡ s
unfolding reconcile_state_from_proto reconcile_state_to_proto
reconcile_state-round_trip f d s context flag h = ground (arith, d)

year-kept :
    (y : ℤ) → ltb_ℤ y (pos 1) ≡ false → ltb_ℤ (pos 65535) y ≡ false → pos (cast_to 65536 y) ≡ y
year-kept (pos n) h k = ap pos (ground arith)
year-kept (negsuc n) h k = ground arith

month-kept :
    (m : ℤ) → ltb_ℤ m (pos 1) ≡ false → ltb_ℤ (pos 12) m ≡ false → pos (cast_to 4294967296 m) ≡ m
month-kept (pos n) h k = ap pos (ground arith)
month-kept (negsuc n) h k = ground arith

day-kept : (d : ℤ) → ltb_ℤ d (pos 1) ≡ false → ltb_ℤ (pos 31) d ≡ false → pos (cast_to 256 d) ≡ d
day-kept (pos n) h k = ap pos (ground arith)
day-kept (negsuc n) h k = ground arith

any_of_six :
    (a b c d e f : Bool)
    → (a || b || c || d || e || f) ≡ false
    → (a ≡ false) × (b ≡ false) × (c ≡ false) × (d ≡ false) × (e ≡ false) × (f ≡ false)
any_of_six a b c d e f h = ground arith

date_to_proto-narrowed : (d : Date) → is_out_of_range d ≡ false → date_to_proto (narrowed d) ≡ d
unfolding date_to_proto
date_to_proto-narrowed d h =
    let (a, b, c, e, f, g) = any_of_six _ _ _ _ _ _ h in
    λ i. record {
      year = year-kept d.year a b i;
      month = month-kept d.month c e i;
      day = day-kept d.day f g i;
    }

accepted :
    (is_valid_dmy : GDate → Bool) (show_date : Date → Bytes) (d : Date) (context : Bytes)
    (g : GDate)
    → date_from_proto is_valid_dmy show_date d context ≡ ok g
    → (is_out_of_range d ≡ false) × (narrowed d ≡ g) × (is_valid_dmy (narrowed d) ≡ true)
unfolding date_from_proto
accepted is_valid_dmy show_date d context g h = ground arith

-- A date that is accepted reads again as it was sent: the narrowing to the calendar's types loses nothing, and the
-- calendar has found the very date valid.
pub date-round_trip :
    (is_valid_dmy : GDate → Bool) (show_date : Date → Bytes) (d : Date) (context : Bytes)
    (g : GDate)
    → date_from_proto is_valid_dmy show_date d context ≡ ok g
    → (date_to_proto g ≡ d) × (is_valid_dmy g ≡ true)
unfolding date_from_proto date_to_proto
date-round_trip is_valid_dmy show_date d context g h =
    let (in_range, same, valid) = accepted is_valid_dmy show_date d context g h in
    (
      sym (ap date_to_proto same) ∙ date_to_proto-narrowed d in_range,
      sym (ap is_valid_dmy same) ∙ valid,
    )
