-- ===== src/Net/Workers.antt =====
-- src/net/worker_pool.h and worker_pool.cpp. A wait on a condition variable is a result that is not there
-- yet (`none`): the step is taken once its predicate holds. `J` is the type of jobs, and a job of
-- WorkerPool is a PacketJob that the handler is called with.

pub mod Order
pub mod Shutdown
pub mod Tests
use gameserver_hide.Base.{
  ℕ, ◌+◌, ◌%◌, ◌^◌, Bool, true, false, not, ◌&&◌, Option, none, some, List, [], ◌∷◌, ◌++◌, length,
  leb, ltb, ◌==◌, ◌≡◌, if◌then◌else◌,
}

pub data OverflowPolicy : Type 0 where
  block drop_newest drop_oldest : OverflowPolicy

pub record Config : Type 0 where
  pub capacity : ℕ
  pub overflow_policy : OverflowPolicy

pub record PacketQueue (J : Type 0) : Type 0 where
  pub queue : List J
  pub stopped : Bool
  pub config : Config
  pub dropped : ℕ

module _ {J : Type 0} where
  -- isFullLocked
  unfoldable pub is_full : PacketQueue J → Bool
  is_full q = if q.config.capacity == 0 then false else leb q.config.capacity (length q.queue)

  abbrev pushed : J → PacketQueue J → Option (PacketQueue J × Bool)
  pushed job q = some (record q { queue = q.queue ++ job ∷ [] }, true)

  -- queue_.pop()
  abbrev pub tail : List J → List J
  tail [] = []
  tail (job ∷ queue) = queue

  unfoldable pub push : J → PacketQueue J → Option (PacketQueue J × Bool)
  unfolding is_full
  push job q =
      if not (ltb 0 q.config.capacity) then pushed job q else elim q.config.overflow_policy [
        | block ↦ if q.stopped then some (q, false) else if is_full q then none else pushed job q
        | drop_newest ↦
            if is_full q
            then some (record q { dropped = (q.dropped + 1) % 2 ^ 64 }, false)
            else pushed job q
        | drop_oldest ↦
            if is_full q
            then pushed job (record q { queue = tail q.queue; dropped = (q.dropped + 1) % 2 ^ 64 })
            else pushed job q
      ]

  -- The job that is popped, or that there will be none.
  unfoldable pub pop : PacketQueue J → Option (PacketQueue J × Option J)
  pop q = elim q.queue [
    | [] ↦ if q.stopped then some (q, none) else none
    | job ∷ queue ↦ some (record q { queue = queue }, some job)
  ]

  abbrev pub stop_queue : PacketQueue J → PacketQueue J
  stop_queue q = record q { stopped = true }

-- PacketDispatcher with its queue and its pool, started: the thread of dispatchLoop, and the threads of
-- workerLoop that have not returned. `accepted` records the jobs that push took, `begun` those that a
-- worker took, each in order.
pub record Dispatcher (J : Type 0) : Type 0 where
  pub queue : PacketQueue J
  pub has_handler : Bool
  pub dispatching : Bool
  pub jobs : List J
  pub stop_requested : Bool
  pub threads : ℕ
  pub accepted : List J
  pub begun : List J

-- PacketDispatcher::start on a new dispatcher.
abbrev pub started : {J : Type 0} → ℕ → Bool → Config → Dispatcher J
started threads has_handler config = record {
  queue = record { queue = []; stopped = false; config = config; dropped = 0 };
  has_handler = has_handler;
  dispatching = true;
  jobs = [];
  stop_requested = false;
  threads = threads;
  accepted = [];
  begun = [];
}

-- The steps of the threads themselves.
pub data Works {J : Type 0} : Dispatcher J → Dispatcher J → Type 0 where
  -- A round of dispatchLoop.
  dispatched :
      (d : Dispatcher J) (job : J) (q : PacketQueue J)
      → d.dispatching ≡ true
      → pop d.queue ≡ some (q, some job)
      → Works d
          (record d { queue = q; jobs = if d.has_handler then d.jobs ++ job ∷ [] else d.jobs })
  -- The end of dispatchLoop.
  dispatch_ended :
      (d : Dispatcher J) (q : PacketQueue J)
      → d.dispatching ≡ true
      → pop d.queue ≡ some (q, none)
      → Works d (record d { queue = q; dispatching = false })
  -- What PacketDispatcher::stop does when it has joined the dispatcher's thread.
  pool_stopped :
      (d : Dispatcher J)
      → d.queue.stopped ≡ true
      → d.dispatching ≡ false
      → d.stop_requested ≡ false
      → Works d (record d { stop_requested = true })
  -- A round of workerLoop.
  ran :
      (d : Dispatcher J) (job : J) (jobs : List J) (others : ℕ)
      → d.threads ≡ others + 1
      → d.jobs ≡ job ∷ jobs
      → Works d (record d { jobs = jobs; begun = d.begun ++ job ∷ [] })
  -- The end of workerLoop.
  worker_ended :
      (d : Dispatcher J) (others : ℕ)
      → d.threads ≡ others + 1
      → d.stop_requested ≡ true
      → d.jobs ≡ []
      → Works d (record d { threads = others })

-- The steps, with the calls that come from outside.
pub data Step {J : Type 0} : Dispatcher J → Dispatcher J → Type 0 where
  enqueued :
      (d : Dispatcher J) (job : J) (q : PacketQueue J) (ok : Bool)
      → push job d.queue ≡ some (q, ok)
      → Step d
          (record d { queue = q; accepted = if ok then d.accepted ++ job ∷ [] else d.accepted })
  stopping : (d : Dispatcher J) → Step d (record d { queue = stop_queue d.queue })
  worked : (d d' : Dispatcher J) → Works d d' → Step d d'

pub data Reaches {J : Type 0} (d : Dispatcher J) : Dispatcher J → Type 0 where
  here : Reaches d d
  next : (d' d'' : Dispatcher J) → Reaches d d' → Step d' d'' → Reaches d d''
