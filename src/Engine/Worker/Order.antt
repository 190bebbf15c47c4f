-- ===== src/Engine/Worker/Order.antt =====
-- The order of the tasks, and the bound of the queue.
use mathlib.Core.List.{append_assoc}
use daichod.Base.{
  ℕ, ◌≡◌, ◌≤◌, refl, true, Option, none, some, List, [], ◌∷◌, ◌++◌, length, length-append, arith,
}
use daichod.Engine.Worker.{
  Worker, start, enqueue, begin_drain, join, loop_step, Step, enqueues, drains, joins, loops, Reach,
  started, later,
}

abbrev pub in_hand : {A : Type 0} → Option A → List A
in_hand none = []
in_hand (some task) = task ∷ []

pub record Inv {A : Type 0} (depth : ℕ) (w : Worker A) : Type 0 where
  pub order : w.executed ++ (in_hand w.running ++ w.queue) ≡ w.accepted
  pub bounded : length w.queue ≤ depth
  pub depth_kept : w.max_depth ≡ depth
  -- The thread leaves its loop only when told to stop, with nothing left to do.
  pub idle_exit : w.exited ≡ true → (w.queue ≡ []) × (w.running ≡ none) × (w.stopping ≡ true)

regroup :
    {A : Type 0} (xs ys zs : List A) (a : A)
    → xs ++ (ys ++ (zs ++ a ∷ [])) ≡ (xs ++ (ys ++ zs)) ++ a ∷ []
regroup xs ys zs a = simp append_assoc

module _ {A : Type 0} {depth : ℕ} where
  start-Inv : Inv {A = A} depth (start depth)
  unfolding start
  start-Inv = record {
    order = refl;
    bounded = omega arith;
    depth_kept = refl;
    idle_exit = λ h. ground arith;
  }

  enqueue-Inv : (task : A) (w : Worker A) → Inv depth w → Inv depth (enqueue task w).1
  unfolding enqueue
  enqueue-Inv task w v = record {
    order = ground (arith, regroup w.executed (in_hand w.running) w.queue task, v.order);
    bounded = ground (arith, length-append w.queue (task ∷ []), v);
    depth_kept = ground arith;
    idle_exit = λ h. ground (arith, v.idle_exit);
  }

  begin_drain-Inv : (w : Worker A) → Inv depth w → Inv depth (begin_drain w)
  unfolding begin_drain
  begin_drain-Inv w v = ground arith

  join-Inv : (w : Worker A) → Inv depth w → Inv depth (join w)
  unfolding join
  join-Inv w v = ground arith

  pub loop_step-Inv : (w : Worker A) → Inv depth w → Inv depth (loop_step w)
  unfolding loop_step
  loop_step-Inv w v = record {
    order = by_running w.running w.queue refl refl;
    bounded = ground arith;
    depth_kept = ground arith;
    idle_exit = λ h. ground (arith, v.idle_exit);
  }
    where
      by_running :
          (r : Option A) (q : List A)
          → w.running ≡ r
          → w.queue ≡ q
          → (loop_step w).executed ++ (in_hand (loop_step w).running ++ (loop_step w).queue)
            ≡ (loop_step w).accepted
      by_running none [] er eq = ground (arith, v.order)
      by_running none (t ∷ q) er eq = ground (arith, v.order)
      by_running (some t) q er eq = ground (arith, v.order, append_assoc w.executed (t ∷ []) q)

  Step-Inv : {w u : Worker A} → Step w u → Inv depth w → Inv depth u
  Step-Inv {w} (enqueues task) v = enqueue-Inv task w v
  Step-Inv {w} drains v = begin_drain-Inv w v
  Step-Inv {w} joins v = join-Inv w v
  Step-Inv {w} loops v = loop_step-Inv w v

  -- In every state that the threads can bring about: what has been executed, what is running and what
  -- is queued are, in this order, the tasks accepted; the queue is within its bound; and the thread has
  -- left its loop only when told to stop, with nothing queued or running.
  pub Reach-Inv : {w : Worker A} → Reach depth w → Inv depth w
  Reach-Inv started = start-Inv
  Reach-Inv (later r s) = Step-Inv s (Reach-Inv r)
