-- ===== src/ThreadPool/System.antt =====
-- The threads around a pool: the workers, the callers of `eggThreadPool_add_work` that wait, and the
-- one of `eggThreadPool_destroy`. A step is what a thread does while it holds the lock, or between.
use egg.Base.{ℕ, ◌+◌, ◌-◌, ◌<◌, ◌≡◌, ◌≢◌, Bool, true, false, List, [], ◌∷◌, ◌++◌, if◌then◌else◌}
use egg.ThreadPool.{
  Work, Pool, new, Added, refused, waits, queued, add_loop, add_work, Round, sleeps, exits, takes,
  crashes, worker_round, Destroyed, already, drains, goes_down, drain_loop, destroy,
}

-- How far `eggThreadPool_destroy` is: not called, waiting for `queue_empty`, awake from that, before the
-- broadcasts, before the joins, and past the release of the pool.
pub data Stage : Type 0 where
  absent draining checking announcing joining freed : Stage

-- `looking` and `asleep` count the workers before a round and in `queue_not_empty`; `blocked` and `woken`
-- are what the callers in `queue_not_full` and those awake from it bring. `accepted` and `taken` are the
-- items so far, `finish` is the argument of the call that closed the pool.
pub record System : Type 0 where
  pub pool : Pool
  pub looking : ℕ
  pub asleep : ℕ
  pub busy : List Work
  pub exited : ℕ
  pub blocked : List Work
  pub woken : List Work
  pub stage : Stage
  pub finish : Bool
  pub crashed : Bool
  pub accepted : List Work
  pub taken : List Work

abbrev pub init : ℕ → ℕ → Bool → System
init threads most no_block = record {
  pool = new threads most no_block;
  looking = threads;
  asleep = 0;
  busy = [];
  exited = 0;
  blocked = [];
  woken = [];
  stage = absent;
  finish = false;
  crashed = false;
  accepted = [];
  taken = [];
}

-- `pthread_cond_broadcast` of `queue_not_empty` and of `queue_not_full`.
abbrev pub wake_workers : System → System
wake_workers s = record s { looking = s.looking + s.asleep; asleep = 0 }

abbrev pub wake_adders : System → System
wake_adders s = record s { woken = s.blocked ++ s.woken; blocked = [] }

-- `pthread_cond_signal` of `queue_empty`.
abbrev pub wake_destroyer : Stage → Stage
wake_destroyer draining = checking
wake_destroyer g = g

abbrev pub after_add : System → Work → Added → System
after_add s w refused = s
after_add s w waits = record s { blocked = w ∷ s.blocked }
after_add s w (queued p wake) =
    let t = record s { pool = p; accepted = s.accepted ++ (w ∷ []) } in
    if wake then wake_workers t else t

abbrev pub after_round : System → Round → System
after_round s sleeps = record s { looking = s.looking - 1; asleep = s.asleep + 1 }
after_round s exits = record s { looking = s.looking - 1; exited = s.exited + 1 }
after_round s (takes w p not_full empty) =
    let t = record s {
      pool = p;
      looking = s.looking - 1;
      busy = w ∷ s.busy;
      taken = s.taken ++ (w ∷ []);
      stage = if empty then wake_destroyer s.stage else s.stage;
    } in
    if not_full then wake_adders t else t
after_round s crashes = record s { crashed = true }

abbrev pub after_destroy : System → Destroyed → System
after_destroy s already = s
after_destroy s (drains p) = record s { pool = p; stage = draining }
after_destroy s (goes_down p) = record s { pool = p; stage = announcing }

abbrev pub after_call : System → Bool → Destroyed → System
after_call s finish already = s
after_call s finish d = after_destroy (record s { finish = finish }) d

-- Nothing but a worker's own work and the join touches a pool that is released.
pub data Step : System → System → Type 0 where
  call : (s : System) (w : Work) → s.stage ≢ freed → Step s (after_add s w (add_work s.pool w))
  retry :
      (s : System) (front : List Work) (w : Work) (back : List Work)
      → s.stage ≢ freed
      → s.woken ≡ front ++ (w ∷ back)
      → Step s (after_add (record s { woken = front ++ back }) w (add_loop s.pool w))
  round : (s : System) → 0 < s.looking → Step s (after_round s (worker_round s.pool))
  done :
      (s : System) (front : List Work) (w : Work) (back : List Work)
      → s.busy ≡ front ++ (w ∷ back)
      → Step s (record s { busy = front ++ back; looking = s.looking + 1 })
  call_destroy :
      (s : System) (finish : Bool)
      → s.stage ≢ freed
      → Step s (after_call s finish (destroy s.pool finish))
  recheck : (s : System) → s.stage ≡ checking → Step s (after_destroy s (drain_loop s.pool))
  announce :
      (s : System)
      → s.stage ≡ announcing
      → Step s (record (wake_adders (wake_workers s)) { stage = joining })
  join :
      (s : System)
      → s.stage ≡ joining
      → s.exited ≡ s.pool.num_threads
      → Step s (record s { stage = freed })
  -- `pthread_cond_wait` may return with no cause.
  worker_wakes :
      (s : System)
      → 0 < s.asleep
      → Step s (record s { asleep = s.asleep - 1; looking = s.looking + 1 })
  adder_wakes :
      (s : System) (front : List Work) (w : Work) (back : List Work)
      → s.blocked ≡ front ++ (w ∷ back)
      → Step s (record s { blocked = front ++ back; woken = w ∷ s.woken })
  destroyer_wakes : (s : System) → s.stage ≡ draining → Step s (record s { stage = checking })

pub data Reach (s : System) : System → Type 0 where
  here : Reach s s
  later : {t u : System} → Reach s t → Step t u → Reach s u
