-- ===== src/Net/Workers/Order.antt =====
-- The jobs of a PacketDispatcher of src/net/worker_pool.cpp, in every reachable state.
use native.Mathlib.Omega.{arith}
use mathlib.Core.List.{append_assoc}
use gameserver_hide.Base.{
  ℕ, zero, suc, ◌+◌, ◌⊎◌, inl, inr, ◌<◌, ◌≤◌, Bool, true, false, Option, none, some, [], ◌∷◌, ◌++◌,
  length, ◌≡◌, refl, sym, subst, ap, ◌∙◌, if◌then◌else◌, length-append,
}
use gameserver_hide.Net.Workers.{
  drop_oldest, Config, PacketQueue, is_full, push, pop, Dispatcher, started, Works, dispatched,
  dispatch_ended, pool_stopped, ran, worker_ended, Step, enqueued, stopping, worked, Reaches, here,
  next,
}

pub count-cases : (n : ℕ) → (n ≡ 0) ⊎ ((m : ℕ) × (n ≡ m + 1))
count-cases zero = inl refl
count-cases (suc n) = inr (n, omega arith)

-- The queue is within its capacity, where it has one.
unfoldable pub IsBounded : {J : Type 0} → PacketQueue J → Type 0
IsBounded q = 0 < q.config.capacity → length q.queue ≤ q.config.capacity

pub push-IsBounded :
    {J : Type 0} (job : J) (q q' : PacketQueue J) (ok : Bool)
    → push job q ≡ some (q', ok)
    → IsBounded q
    → IsBounded q'
unfolding push is_full IsBounded
push-IsBounded job q q' ok e bounded positive = grind (arith, length-append)

pub pop-IsBounded :
    {J : Type 0} (q q' : PacketQueue J) (job : Option J)
    → pop q ≡ some (q', job)
    → IsBounded q
    → IsBounded q'
unfolding pop IsBounded
pop-IsBounded q q' job e bounded positive = ground arith

-- What push does to the jobs in the queue, unless the oldest is dropped.
pub push-queue :
    {J : Type 0} (job : J) (q q' : PacketQueue J) (ok : Bool)
    → ¬ (q.config.overflow_policy ≡ drop_oldest)
    → push job q ≡ some (q', ok)
    → q'.queue ≡ (if ok then q.queue ++ job ∷ [] else q.queue)
unfolding push is_full
push-queue job q q' ok keeps e = ground arith

pub push-config :
    {J : Type 0} (job : J) (q q' : PacketQueue J) (ok : Bool)
    → push job q ≡ some (q', ok)
    → (q'.config ≡ q.config) × (q'.stopped ≡ q.stopped)
unfolding push is_full
push-config job q q' ok e = ground arith

pub pop-queue :
    {J : Type 0} (q q' : PacketQueue J) (job : J)
    → pop q ≡ some (q', some job)
    → (q.queue ≡ job ∷ q'.queue) × ((q'.config ≡ q.config) × (q'.stopped ≡ q.stopped))
unfolding pop
pop-queue q q' job e = ground arith

pub pop-end :
    {J : Type 0} (q q' : PacketQueue J)
    → pop q ≡ some (q', none)
    → (q.queue ≡ []) × ((q' ≡ q) × (q.stopped ≡ true))
unfolding pop
pop-end q q' e = ground arith

-- The state of a dispatcher that was started with `n` threads.
pub record IsOrderly {J : Type 0} (n : ℕ) (config : Config) (d : Dispatcher J) : Type 0 where
  pub configured : d.queue.config ≡ config
  pub bounded : IsBounded d.queue
  pub handled : d.has_handler ≡ true
  pub ordered :
      ¬ (d.queue.config.overflow_policy ≡ drop_oldest)
      → d.accepted ≡ d.begun ++ (d.jobs ++ d.queue.queue)
  pub closed : d.dispatching ≡ false → d.queue.stopped ≡ true
  pub joined : d.stop_requested ≡ true → d.dispatching ≡ false
  pub crew : d.threads ≤ n
  pub finished : d.threads < n → (d.stop_requested ≡ true) × (d.jobs ≡ [])

started-IsOrderly :
    {J : Type 0} (n : ℕ) (config : Config) → IsOrderly n config (started {J = J} n true config)
unfolding IsBounded
started-IsOrderly n config = record {
  configured = refl;
  bounded = λ p. omega arith;
  handled = refl;
  ordered = λ p. refl;
  closed = λ p. ground arith;
  joined = λ p. ground arith;
  crew = omega arith;
  finished = λ p. absurd (omega arith);
}

pub Works-IsOrderly :
    {J : Type 0} (n : ℕ) (config : Config) (d d' : Dispatcher J)
    → Works d d'
    → IsOrderly n config d
    → IsOrderly n config d'
Works-IsOrderly n config _ _ (dispatched d job q on e) o =
    let popped = pop-queue d.queue q job e in
    record {
      configured = popped.1.0 ∙ o.configured;
      bounded = pop-IsBounded d.queue q (some job) e o.bounded;
      handled = o.handled;
      ordered = λ keeps. grind (arith, popped, o.handled, o.ordered, append_assoc);
      closed = λ p. ground (arith, on, p);
      joined = λ p. ground (arith, o.joined p);
      crew = o.crew;
      finished = λ p. ground (arith, o.finished p, o.joined, on);
    }
Works-IsOrderly n config _ _ (dispatch_ended d q on e) o =
    let ended = pop-end d.queue q e in
    record {
      configured = ap (λ q. q.config) ended.1.0 ∙ o.configured;
      bounded = pop-IsBounded d.queue q none e o.bounded;
      handled = o.handled;
      ordered = λ keeps. ground (arith, ended, o.ordered);
      closed = λ p. ground (arith, ended);
      joined = λ p. refl;
      crew = o.crew;
      finished = o.finished;
    }
Works-IsOrderly n config _ _ (pool_stopped d stopped off going) o = record {
  configured = o.configured;
  bounded = o.bounded;
  handled = o.handled;
  ordered = o.ordered;
  closed = o.closed;
  joined = λ p. off;
  crew = o.crew;
  finished = λ p. (refl, (o.finished p).1);
}
Works-IsOrderly n config _ _ (ran d job jobs others some_thread e) o = record {
  configured = o.configured;
  bounded = o.bounded;
  handled = o.handled;
  ordered = λ keeps. grind (arith, e, o.ordered keeps, append_assoc);
  closed = o.closed;
  joined = o.joined;
  crew = o.crew;
  finished = λ p. ground (arith, o.finished p, e);
}
Works-IsOrderly n config _ _ (worker_ended d others some_thread stop e) o = record {
  configured = o.configured;
  bounded = o.bounded;
  handled = o.handled;
  ordered = o.ordered;
  closed = o.closed;
  joined = o.joined;
  crew = omega (arith, o.crew, some_thread);
  finished = λ p. (stop, e);
}

Step-IsOrderly :
    {J : Type 0} (n : ℕ) (config : Config) (d d' : Dispatcher J)
    → Step d d'
    → IsOrderly n config d
    → IsOrderly n config d'
unfolding IsBounded
Step-IsOrderly n config _ _ (enqueued d job q ok e) o =
    let same = push-config job d.queue q ok e in
    record {
      configured = same.0 ∙ o.configured;
      bounded = push-IsBounded job d.queue q ok e o.bounded;
      handled = o.handled;
      ordered =
          λ keeps. grind (arith, push-queue job d.queue q ok, e, same, o.ordered, append_assoc);
      closed = λ p. same.1 ∙ o.closed p;
      joined = o.joined;
      crew = o.crew;
      finished = o.finished;
    }
Step-IsOrderly n config _ _ (stopping d) o = record {
  configured = o.configured;
  bounded = o.bounded;
  handled = o.handled;
  ordered = o.ordered;
  closed = λ p. refl;
  joined = o.joined;
  crew = o.crew;
  finished = o.finished;
}
Step-IsOrderly n config _ _ (worked d d' w) o = Works-IsOrderly n config d d' w o

pub Reaches-IsOrderly :
    {J : Type 0} (n : ℕ) (config : Config) (d : Dispatcher J)
    → Reaches (started n true config) d
    → IsOrderly n config d
Reaches-IsOrderly n config _ here = started-IsOrderly n config
Reaches-IsOrderly n config _ (next d d' reached step) =
    Step-IsOrderly n config d d' step (Reaches-IsOrderly n config d reached)

-- From its start on, a dispatcher with a handler whose queue does not drop the oldest job has every job
-- that push accepted: those that a worker took, then those of the pool, then those of the queue, in the
-- order of the calls. Unless its capacity is 0, the queue is never longer than that.
pub Reaches-accepted :
    {J : Type 0} (n : ℕ) (config : Config) (d : Dispatcher J)
    → ¬ (config.overflow_policy ≡ drop_oldest)
    → Reaches (started n true config) d
    → (d.accepted ≡ d.begun ++ (d.jobs ++ d.queue.queue))
      × ((config.capacity ≡ 0) ⊎ (length d.queue.queue ≤ config.capacity))
unfolding IsBounded
Reaches-accepted n config d keeps reached =
    let o = Reaches-IsOrderly n config d reached in
    let within =
      subst (λ c. 0 < c.capacity → length d.queue.queue ≤ c.capacity) o.configured o.bounded in
    (
      o.ordered (λ p. keeps (ap (λ c. c.overflow_policy) (sym o.configured) ∙ p)),
      elim (count-cases config.capacity) [
        | inl e ↦ inl e
        | inr (m, e) ↦ inr (within (omega (arith, e)))
      ],
    )
