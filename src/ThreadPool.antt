-- ===== src/ThreadPool.antt =====
-- egg3/src/uti/eggThreadPool.c: the pool of worker threads, as its operations change it while they hold
-- `queue_lock`. An operation gives what its thread does next, and which waiting threads it wakes.
pub mod System
pub mod Invariant
pub mod Closing
pub mod Ends
pub mod Fifo
mod Runs
use egg.Base.{
  ℕ, ◌+◌, ◌-◌, Bool, true, false, not, ◌&&◌, ◌||◌, List, [], ◌∷◌, ◌++◌, ◌==◌, if◌then◌else◌,
}

-- `struct tpool_work`, less its link: the queue is the list from `queue_head` to `queue_tail`.
pub record Work : Type 0 where
  pub routine : ℕ
  pub arg : ℕ

-- `struct tpool`, less the threads' handles, the lock and the conditions. The counts are not negative.
pub record Pool : Type 0 where
  pub num_threads : ℕ
  pub max_queue_size : ℕ
  pub do_not_block_when_full : Bool
  pub cur_queue_size : ℕ
  pub queue : List Work
  pub queue_closed : Bool
  pub shutdown : Bool

-- `eggThreadPool_init`
abbrev pub new : ℕ → ℕ → Bool → Pool
new threads most no_block = record {
  num_threads = threads;
  max_queue_size = most;
  do_not_block_when_full = no_block;
  cur_queue_size = 0;
  queue = [];
  queue_closed = false;
  shutdown = false;
}

-- Of `eggThreadPool_add_work`: the return of -1, a wait for `queue_not_full`, or the return of 1 with
-- whether `queue_not_empty` is broadcast.
pub data Added : Type 0 where
  refused : Added
  waits : Added
  queued : Pool → Bool → Added

-- From the test of the loop on, which is where a thread that has waited goes on.
abbrev pub add_loop : Pool → Work → Added
add_loop p w =
    if (p.cur_queue_size == p.max_queue_size) && not (p.shutdown || p.queue_closed)
    then waits
    else if p.shutdown || p.queue_closed
    then refused
    else queued (record p { queue = p.queue ++ (w ∷ []); cur_queue_size = p.cur_queue_size + 1 })
        (p.cur_queue_size == 0)

abbrev pub add_work : Pool → Work → Added
add_work p w =
    if (p.cur_queue_size == p.max_queue_size) && p.do_not_block_when_full
    then refused
    else add_loop p w

-- Of one round of `tpool_thread`: a wait for `queue_not_empty`, the exit, or an item to work on, with
-- whether `queue_not_full` is broadcast and `queue_empty` is signalled. `crashes` is the read of the head
-- of an empty queue.
pub data Round : Type 0 where
  sleeps : Round
  exits : Round
  takes : Work → Pool → Bool → Bool → Round
  crashes : Round

abbrev dequeue : Pool → List Work → Round
dequeue p [] = crashes
dequeue p (my_work ∷ next) =
    let size = p.cur_queue_size - 1 in
    takes my_work (record p { cur_queue_size = size; queue = if size == 0 then [] else next })
      (not p.do_not_block_when_full && (size + 1 == p.max_queue_size)) (size == 0)

abbrev pub worker_round : Pool → Round
worker_round p =
    if (p.cur_queue_size == 0) && not p.shutdown
    then sleeps
    else if p.shutdown
    then exits
    else dequeue p p.queue

-- Of `eggThreadPool_destroy`, with whether `finish` is 1: the return of 0, a wait for `queue_empty`, or the release of the lock
-- before the two broadcasts.
pub data Destroyed : Type 0 where
  already : Destroyed
  drains : Pool → Destroyed
  goes_down : Pool → Destroyed

-- From the test of the loop on.
abbrev pub drain_loop : Pool → Destroyed
drain_loop p = if p.cur_queue_size == 0 then goes_down (record p { shutdown = true }) else drains p

abbrev pub destroy : Pool → Bool → Destroyed
destroy p finish =
    let closed = record p { queue_closed = true } in
    if p.queue_closed || p.shutdown
    then already
    else if finish
    then drain_loop closed
    else goes_down (record closed { shutdown = true })
