-- ===== src/Engine/Worker/Draining.antt =====
-- The engine thread, once the worker is told to stop.
use mathlib.Core.List.{append-nil}
use daichod.Base.{
  sym, ap₂, ◌-◌, ℕ, zero, suc, ◌+◌, ◌≤◌, ◌≡◌, ◌∙◌, refl, ap, Bool, true, false, Option, List, [],
  ◌++◌, length, arith,
}
use daichod.Engine.Worker.{
  Worker, enqueue, begin_drain, join, loop_step, Step, enqueues, drains, joins, loops, Reach,
}
use daichod.Engine.Worker.Order.{Inv, Reach-Inv, in_hand, loop_step-Inv}

abbrev pub unless : Bool → ℕ
unless true = 0
unless false = 1

-- The sections that the engine thread has left to run once it is told to stop.
abbrev pub work_left : {A : Type 0} → Worker A → ℕ
work_left w = length w.queue + length w.queue + length (in_hand w.running) + unless w.exited

-- The engine thread alone, for a number of sections.
pub run_sections : {A : Type 0} → ℕ → Worker A → Worker A
run_sections zero w = w
run_sections (suc n) w = run_sections n (loop_step w)

loop_step-stopping :
    {A : Type 0} (w : Worker A)
    → w.stopping ≡ true
    → ((loop_step w).stopping ≡ true) × ((loop_step w).accepted ≡ w.accepted)
unfolding loop_step
loop_step-stopping w h = ground arith

module _ {A : Type 0} {depth : ℕ} where
  -- Each section leaves less to do, until the thread has left its loop.
  loop_step-work_left :
      (w : Worker A) → Inv depth w → w.stopping ≡ true → work_left (loop_step w) ≤ work_left w - 1
  unfolding loop_step
  loop_step-work_left w v h = ground (arith, v.idle_exit)

  run_sections-exits :
      (n : ℕ) (w : Worker A)
      → Inv depth w
      → w.stopping ≡ true
      → work_left w ≤ n
      → ((run_sections n w).exited ≡ true)
        × ((run_sections n w).accepted ≡ w.accepted)
        × Inv depth (run_sections n w)
  unfolding run_sections
  run_sections-exits zero w v h k = (ground arith, refl, v)
  run_sections-exits (suc n) w v h k =
      let (stays, same) = loop_step-stopping w h in
      let (exits, kept, inv) =
        run_sections-exits n (loop_step w) (loop_step-Inv w v) stays
          (omega (arith, loop_step-work_left w v h)) in
      (exits, kept ∙ same, inv)

  -- From any reachable state in which the worker is told to stop, the engine thread alone leaves its
  -- loop within `work_left` sections, with every accepted task executed in the order of acceptance.
  pub drain_completes :
      {w : Worker A}
      → Reach depth w
      → w.stopping ≡ true
      → let end = run_sections (work_left w) w in
        (end.exited ≡ true) × (end.queue ≡ []) × (end.executed ≡ w.accepted)
  drain_completes {w} r h =
      let (exits, kept, inv) = run_sections-exits (work_left w) w (Reach-Inv r) h (omega arith) in
      let (no_queue, none_running, _) = inv.idle_exit exits in
      (
        exits,
        no_queue,
        sym (append-nil _)
            ∙ ap (λ (q : List A). (run_sections (work_left w) w).executed ++ q)
                (sym (ap₂ (λ (o : Option A) (q : List A). in_hand o ++ q) none_running no_queue))
            ∙ inv.order
            ∙ kept,
      )

-- Once the worker is told to stop it stays so, and no thread gets a further task accepted.
pub stopping_accepts_nothing :
    {A : Type 0} {w v : Worker A}
    → Step w v
    → w.stopping ≡ true
    → (v.stopping ≡ true) × (v.accepted ≡ w.accepted)
unfolding enqueue begin_drain join loop_step
stopping_accepts_nothing (enqueues task) h = ground arith
stopping_accepts_nothing drains h = ground arith
stopping_accepts_nothing joins h = ground arith
stopping_accepts_nothing loops h = ground arith
