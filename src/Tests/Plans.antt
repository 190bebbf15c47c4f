-- ===== src/Tests/Plans.antt =====
-- Planning an update that reuses one split, adds one and dooms one; and the mapping of dates, types and states.
use daichod.Rpc.Plan.Types.{Lookups, SplitPlan, TransactionPlan, Keyed}
use daichod.Proto.{SplitSpec, TransactionSpec}
use daichod.Proto.{Date, Numeric}
use daichod.Proto.{state_unspecified}
use daichod.Base.{◌==◌, ℕ, Bool, true, false, ◌≡◌, refl, Option, none, some, List, [], ◌∷◌}
use daichod.Base.Int.{ℤ, pos, negsuc, ◌+ℤ◌}
use daichod.Base.Text.{Bytes, empty, bytes_eq}
use daichod.Exec.{ok}
use daichod.Engine.Map.{ReconcileFlags, date_from_proto, date_to_proto, numeric_from_proto}
use daichod.Engine.Map.RoundTrip.{date-round_trip}
use daichod.Rpc.Plan.{plan_split, plan_splits, plan_transaction}
use daichod.Rpc.Plan.Reuse.{IsSound, plan_transaction-IsSound}

abbrev letters : ReconcileFlags
letters = record { nrec = b'n'; crec = b'c'; yrec = b'y'; frec = b'f'; vrec = b'v' }

abbrev is_zero : ℤ → Bool
is_zero (pos n) = n == 0
is_zero (negsuc n) = false

abbrev toy_lookups : Lookups ℕ ℕ
toy_lookups = record {
  find_commodity = λ id c. ok 1;
  is_currency = λ c. true;
  find_account = λ guid c. ok 2;
  is_valid_dmy = λ d. true;
  show_date = λ d. [];
  show_index = λ i. [];
  flags = letters;
  numeric_add = λ a b. record { num = a.num +ℤ b.num; denom = pos 1 };
  numeric_is_ok = λ n. true;
  numeric_is_zero = λ n. is_zero n.num;
  numeric_text = λ n. [];
  now = pos 77;
}

abbrev units : ℤ → Numeric
units n = record { num = n; denom = pos 1 }

abbrev today : Date
today = record { year = pos 2026; month = pos 11; day = pos 25 }

abbrev split_of : Bytes → ℤ → SplitSpec
split_of guid n = record {
  guid = guid;
  account_guid = [];
  value = units n;
  quantity = units n;
  memo = [];
  action = [];
  reconcile_state = state_unspecified;
}

abbrev moved : TransactionSpec
moved = record {
  guid = [];
  currency = some (record { space = []; mnemonic = [] });
  post_date = some today;
  enter_time_utc = pos 0;
  num = [];
  description = [];
  splits = split_of (b'a' ∷ []) (pos 5) ∷ split_of [] (negsuc 4) ∷ [];
}

abbrev known : List (Keyed ℕ)
known = record { key = b'a' ∷ []; split = 10 } ∷ record { key = b'b' ∷ []; split = 11 } ∷ []

abbrev planned : Option ℕ → ℤ → SplitPlan ℕ ℕ
planned o n = record {
  existing = o;
  account = 2;
  value = units n;
  quantity = units n;
  memo = [];
  action = [];
  reconcile = b'n';
}

abbrev move_plan : TransactionPlan ℕ ℕ ℕ
move_plan = record {
  currency = 1;
  post_date = record { g_year = 2026; g_month = 11; g_day = 25 };
  enter_time = pos 77;
  num = [];
  description = [];
  splits = planned (some 10) (pos 5) ∷ planned none (negsuc 4) ∷ [];
  doomed = 11 ∷ [];
}

move_plan_lem : plan_transaction toy_lookups (some known) moved ≡ ok move_plan
unfolding plan_transaction plan_splits plan_split numeric_from_proto date_from_proto empty bytes_eq
    ◌+ℤ◌
move_plan_lem = refl

plan_transaction-IsSound_example : IsSound toy_lookups (some known) moved move_plan
plan_transaction-IsSound_example =
    plan_transaction-IsSound toy_lookups (some known) moved move_plan move_plan_lem

today_lem :
    date_from_proto (λ d. true) (λ d. []) today []
    ≡ ok (record { g_year = 2026; g_month = 11; g_day = 25 })
unfolding date_from_proto
today_lem = refl

date-round_trip_example :
    (date_to_proto (record { g_year = 2026; g_month = 11; g_day = 25 }) ≡ today) × (true ≡ true)
date-round_trip_example =
    date-round_trip (λ d. true) (λ d. []) today []
      (record { g_year = 2026; g_month = 11; g_day = 25 }) today_lem
