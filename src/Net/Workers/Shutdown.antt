-- ===== src/Net/Workers/Shutdown.antt =====
-- The shutdown of a PacketDispatcher of src/net/worker_pool.cpp: PacketDispatcher::stop joins the threads.
use native.Mathlib.Omega.{arith}
use mathlib.Core.List.{append-nil}
use gameserver_hide.Base.{
  ℕ, suc, ◌+◌, ◌<◌, ◌≤◌, true, false, Bool-cases, none, some, List, [], ◌∷◌, length, ◌≡◌, refl, sym,
  ap, ◌∙◌, if◌then◌else◌, length-append, ◌⊎◌, inl, inr,
}
use gameserver_hide.Net.Workers.{
  drop_oldest, Config, PacketQueue, pop, Dispatcher, started, Works, dispatched, dispatch_ended,
  pool_stopped, ran, worker_ended, Reaches,
}
use gameserver_hide.Net.Workers.Order.{
  count-cases, IsOrderly, Works-IsOrderly, Reaches-IsOrderly, pop-queue, pop-end,
}

-- The threads' steps that a state has left, at most.
unfoldable pub steps_left : {J : Type 0} → Dispatcher J → ℕ
steps_left d =
    length d.queue.queue
    + length d.queue.queue
    + length d.jobs
    + (if d.dispatching then 1 else 0)
    + (if d.stop_requested then 0 else 1)
    + d.threads

Works-steps_left : {J : Type 0} (d d' : Dispatcher J) → Works d d' → steps_left d' < steps_left d
unfolding steps_left
Works-steps_left _ _ (dispatched d job q on e) =
    grind (arith, pop-queue d.queue q job e, length-append)
Works-steps_left _ _ (dispatch_ended d q on e) = ground (arith, pop-end d.queue q e, on)
Works-steps_left _ _ (pool_stopped d stopped off going) = ground (arith, going)
Works-steps_left _ _ (ran d job jobs others some_thread e) = ground (arith, e)
Works-steps_left _ _ (worker_ended d others some_thread stop e) = ground (arith, some_thread)

-- A chain of steps of the threads, with its length.
pub data Chain {J : Type 0} (d : Dispatcher J) : ℕ → Dispatcher J → Type 0 where
  empty : Chain d 0 d
  longer : (n : ℕ) (d' d'' : Dispatcher J) → Chain d n d' → Works d' d'' → Chain d (suc n) d''

Chain-steps_left :
    {J : Type 0} (d : Dispatcher J) (n : ℕ) (d' : Dispatcher J)
    → Chain d n d'
    → n + steps_left d' ≤ steps_left d
Chain-steps_left d _ _ empty = omega arith
Chain-steps_left d _ _ (longer n d' d'' chain w) =
    omega (arith, Chain-steps_left d n d' chain, Works-steps_left d' d'' w)

List-cases : {A : Type 0} (xs : List A) → (xs ≡ []) ⊎ ((x : A) × ((ys : List A) × (xs ≡ x ∷ ys)))
List-cases [] = inl refl
List-cases (x ∷ xs) = inr (x, (xs, refl))

-- The pop of a stopped queue does not wait.
pop-stopped :
    {J : Type 0} (q : PacketQueue J)
    → q.stopped ≡ true
    → ((q' : PacketQueue J) × (pop q ≡ some (q', none)))
      ⊎ ((job : J) × ((q' : PacketQueue J) × (pop q ≡ some (q', some job))))
unfolding pop
pop-stopped q stopped = elim (List-cases q.queue) [
  | inl e ↦ inl (q, ground (arith, e, stopped))
  | inr (job, (jobs, e)) ↦ inr (job, (record q { queue = jobs }, ground (arith, e)))
]

-- While the queue is stopped, a thread that has not returned keeps some thread from being stuck.
progress :
    {J : Type 0} (d : Dispatcher J)
    → d.queue.stopped ≡ true
    → ((d' : Dispatcher J) × Works d d') ⊎ (d.threads ≡ 0)
progress d stopped = elim (count-cases d.threads) [
  | inl e ↦ inr e
  | inr (others, some_thread) ↦ inl (elim (Bool-cases d.dispatching) [
    | inl on ↦ elim (pop-stopped d.queue stopped) [
      | inl (q, e) ↦ (_, dispatch_ended d q on e)
      | inr (job, (q, e)) ↦ (_, dispatched d job q on e)
    ]
    | inr off ↦ elim (Bool-cases d.stop_requested) [
      | inr going ↦ (_, pool_stopped d stopped off going)
      | inl stop ↦ elim (List-cases d.jobs) [
        | inl e ↦ (_, worker_ended d others some_thread stop e)
        | inr (job, (jobs, e)) ↦ (_, ran d job jobs others some_thread e)
      ]
    ]
  ])
]

-- The queue is stopped, and empty once the dispatcher's thread has returned.
record IsEnding {J : Type 0} (d : Dispatcher J) : Type 0 where
  stopped : d.queue.stopped ≡ true
  emptied : d.dispatching ≡ false → d.queue.queue ≡ []

Works-IsEnding : {J : Type 0} (d d' : Dispatcher J) → Works d d' → IsEnding d → IsEnding d'
Works-IsEnding _ _ (dispatched d job q on e) x =
    let popped = pop-queue d.queue q job e in
    record { stopped = popped.1.1 ∙ x.stopped; emptied = λ p. ground (arith, on, p) }
Works-IsEnding _ _ (dispatch_ended d q on e) x =
    let ended = pop-end d.queue q e in
    record { stopped = ground (arith, ended); emptied = λ p. ground (arith, ended) }
Works-IsEnding _ _ (pool_stopped d stopped off going) x = record {
  stopped = x.stopped;
  emptied = x.emptied;
}
Works-IsEnding _ _ (ran d job jobs others some_thread e) x = record {
  stopped = x.stopped;
  emptied = x.emptied;
}
Works-IsEnding _ _ (worker_ended d others some_thread stop e) x = record {
  stopped = x.stopped;
  emptied = x.emptied;
}

Chain-IsEnding :
    {J : Type 0} (d : Dispatcher J) (n : ℕ) (d' : Dispatcher J)
    → Chain d n d'
    → IsEnding d
    → IsEnding d'
Chain-IsEnding d _ _ empty x = x
Chain-IsEnding d _ _ (longer n d' d'' chain w) x =
    Works-IsEnding d' d'' w (Chain-IsEnding d n d' chain x)

Chain-IsOrderly :
    {J : Type 0} (k : ℕ) (config : Config) (d : Dispatcher J) (n : ℕ) (d' : Dispatcher J)
    → Chain d n d'
    → IsOrderly k config d
    → IsOrderly k config d'
Chain-IsOrderly k config d _ _ empty o = o
Chain-IsOrderly k config d _ _ (longer n d' d'' chain w) o =
    Works-IsOrderly k config d' d'' w (Chain-IsOrderly k config d n d' chain o)

Works-accepted : {J : Type 0} (d d' : Dispatcher J) → Works d d' → d'.accepted ≡ d.accepted
Works-accepted _ _ (dispatched d job q on e) = refl
Works-accepted _ _ (dispatch_ended d q on e) = refl
Works-accepted _ _ (pool_stopped d stopped off going) = refl
Works-accepted _ _ (ran d job jobs others some_thread e) = refl
Works-accepted _ _ (worker_ended d others some_thread stop e) = refl

Chain-accepted :
    {J : Type 0} (d : Dispatcher J) (n : ℕ) (d' : Dispatcher J)
    → Chain d n d'
    → d'.accepted ≡ d.accepted
Chain-accepted d _ _ empty = refl
Chain-accepted d _ _ (longer n d' d'' chain w) =
    Works-accepted d' d'' w ∙ Chain-accepted d n d' chain

-- Every thread has returned, and the workers have taken all jobs that were accepted, in order.
abbrev pub IsWoundUp : {J : Type 0} → Dispatcher J → Type 0
IsWoundUp d = (d.threads ≡ 0) × (d.dispatching ≡ false) × (d.begun ≡ d.accepted)

-- From a reachable state of a dispatcher with a handler, at least one thread and a queue that does not drop
-- the oldest job, when the queue is stopped and the thread of dispatchLoop still runs, and nothing more
-- is enqueued: a chain of steps of the threads has at most `steps_left` steps, and where it ends, either
-- some thread has a further step, or all have returned and each accepted job has been taken by a
-- worker, in order. So a stop comes to its end.
pub Chain-drained :
    {J : Type 0} (k : ℕ) (config : Config) (d d' : Dispatcher J) (n : ℕ)
    → ¬ (config.overflow_policy ≡ drop_oldest)
    → Reaches (started (k + 1) true config) d
    → d.queue.stopped ≡ true
    → d.dispatching ≡ true
    → Chain d n d'
    → (n ≤ steps_left d)
      × (((d'' : Dispatcher J) × Works d' d'') ⊎ ((d'.accepted ≡ d.accepted) × IsWoundUp d'))
Chain-drained k config d d' n keeps reached stopped on chain =
    let o =
      Chain-IsOrderly (k + 1) config d n d' chain (Reaches-IsOrderly (k + 1) config d reached) in
    let start : IsEnding d = record { stopped = stopped; emptied = λ p. ground (arith, on, p) } in
    let ending = Chain-IsEnding d n d' chain start in
    (
      omega (arith, Chain-steps_left d n d' chain),
      elim (progress d' ending.stopped) [
        | inl further ↦ inl further
        | inr none_left ↦
            let (stop, no_jobs) = o.finished (omega (arith, none_left)) in
            let off = o.joined stop in
            let order =
              o.ordered (λ p. keeps (ap (λ c. c.overflow_policy) (sym o.configured) ∙ p)) in
            inr (
              Chain-accepted d n d' chain,
              (none_left, off, grind (arith, order, no_jobs, ending.emptied off, append-nil)),
            )
      ],
    )
