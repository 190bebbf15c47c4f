-- ===== src/Engine/Worker.antt =====
-- src/engine/worker.h and src/engine/worker.cpp: the bounded queue and the one thread that empties it.
-- Each method's critical section is one step; the callers' threads and the engine's interleave at will.
pub mod Order
pub mod Draining
use daichod.Base.{
  ℕ, Bool, true, false, not, ◌&&◌, ◌||◌, ◌≡◌, Option, none, some, List, [], ◌∷◌, ◌++◌, length, leb,
  is_some, if◌then◌else◌,
}
use daichod.Rpc.Error.{Exception, queue_full, worker_stopped}

-- The members of EngineWorker, with the task that the thread runs, whether the thread has left its
-- loop and was joined, and what has been accepted and executed so far, in order.
pub record Worker (A : Type 0) : Type 0 where
  pub queue : List A
  pub max_depth : ℕ
  pub stopping : Bool
  pub running : Option A
  pub exited : Bool
  pub joined : Bool
  pub accepted : List A
  pub executed : List A

abbrev pub is_empty : {A : Type 0} → List A → Bool
is_empty [] = true
is_empty (x ∷ xs) = false

module _ {A : Type 0} where
  -- EngineWorker::EngineWorker
  unfoldable pub start : ℕ → Worker A
  start max_queue_depth = record {
    queue = [];
    max_depth = max_queue_depth;
    stopping = false;
    running = none;
    exited = false;
    joined = false;
    accepted = [];
    executed = [];
  }

  -- EngineWorker::Enqueue: the exception that it throws, if any.
  unfoldable pub enqueue : A → Worker A → Option Exception × Worker A
  enqueue task w =
      if w.stopping
      then (some worker_stopped, w)
      else if leb w.max_depth (length w.queue)
      then (some queue_full, w)
      else (none, record w { queue = w.queue ++ task ∷ []; accepted = w.accepted ++ task ∷ [] })

  -- EngineWorker::queue_depth
  unfoldable pub queue_depth : Worker A → ℕ
  queue_depth w = length w.queue

  -- The first section of EngineWorker::Drain.
  unfoldable pub begin_drain : Worker A → Worker A
  begin_drain w = if w.stopping && w.joined then w else record w { stopping = true }

  -- The join of EngineWorker::Drain, which waits for the thread to leave its loop.
  unfoldable pub join : Worker A → Worker A
  join w = if w.exited then record w { joined = true } else w

  -- The predicate of the wait in EngineWorker::Loop.
  abbrev pub may_wake : Worker A → Bool
  may_wake w = w.stopping || not (is_empty w.queue)

  -- The locked part of a round of EngineWorker::Loop, once the wait is over.
  abbrev pub take_task : List A → Worker A → Worker A
  take_task [] w = record w { exited = true }
  take_task (task ∷ rest) w = record w { queue = rest; running = some task }

  -- The next section of the engine thread: it finishes its task, or wakes, or goes on waiting.
  abbrev pub next_section : Option A → Worker A → Worker A
  next_section (some task) w = record w { running = none; executed = w.executed ++ task ∷ [] }
  next_section none w = if w.exited then w else if may_wake w then take_task w.queue w else w

  -- EngineWorker::Loop
  unfoldable pub loop_step : Worker A → Worker A
  loop_step w = next_section w.running w

  -- What one thread may do next.
  pub data Step (w : Worker A) : Worker A → Type 0 where
    enqueues : (task : A) → Step w (enqueue task w).1
    drains : Step w (begin_drain w)
    joins : Step w (join w)
    loops : Step w (loop_step w)

  pub data Reach (depth : ℕ) : Worker A → Type 0 where
    started : Reach depth (start depth)
    later : {w v : Worker A} → Reach depth w → Step w v → Reach depth v
