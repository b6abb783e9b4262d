-- ===== src/ThreadPool/Closing.antt =====
-- What `eggThreadPool_destroy` promises of the items, and what holds of a pool all along.
use egg.Base.{ℕ, ◌≡◌, refl, sym, ◌∙◌, Bool, true, List, [], ◌∷◌, ◌++◌, append-nil, length, arith}
use egg.ThreadPool.{Work, worker_round}
use egg.ThreadPool.System.{
  System, init, after_round, Step, call, retry, round, done, call_destroy, recheck, announce, join,
  worker_wakes, adder_wakes, destroyer_wakes, Reach, here, later,
}
use egg.ThreadPool.Invariant.{Inv, init-Inv, Reach-Inv}

-- In every state that a new pool and its threads reach: the count of items is the length of the queue
-- and at most the limit; the items accepted are those taken, then those in the queue, in order; no
-- worker waits for items while there are some, no caller for room while there is some, and none of them
-- once the pool is announced to be down; the destroyer waits only for items that are there; every
-- worker is counted, exits only after the shutdown, and none reads the head of an empty queue.
pub pool_invariant :
    (threads most : ℕ) (no_block : Bool) (s : System) → Reach (init threads most no_block) s → Inv s
pool_invariant threads most no_block s r = Reach-Inv (init-Inv threads most no_block) r

nothing_left : (taken queue : List Work) → length queue ≡ 0 → taken ≡ taken ++ queue
nothing_left taken [] e = sym (append-nil taken)
nothing_left taken (w ∷ queue) e = absurd (omega arith)

-- Once `eggThreadPool_destroy` with `finish` has set `shutdown`, every accepted item has been taken by a
-- worker, in the order of acceptance.
pub finish_takes_all :
    (threads most : ℕ) (no_block : Bool) (s : System)
    → Reach (init threads most no_block) s
    → s.finish ≡ true
    → s.pool.shutdown ≡ true
    → s.taken ≡ s.accepted
finish_takes_all threads most no_block s r finish down =
    let h = pool_invariant threads most no_block s r in
    let none_left : length s.pool.queue ≡ 0 = ground (arith, h) in
    nothing_left s.taken s.pool.queue none_left ∙ sym h.history

round-closed :
    (s : System) (queue : List Work)
    → s.pool.queue ≡ queue
    → s.pool.queue_closed ≡ true
    → let t = after_round s (worker_round s.pool) in
      (t.pool.queue_closed ≡ true) × (t.accepted ≡ s.accepted)
round-closed s [] e c = ground arith
round-closed s (w ∷ next) e c = ground arith

Step-closed :
    {s t : System}
    → Step s t
    → s.pool.queue_closed ≡ true
    → (t.pool.queue_closed ≡ true) × (t.accepted ≡ s.accepted)
Step-closed (call s w live) c = ground arith
Step-closed (retry s front w back live e) c = ground arith
Step-closed (round s l) c = round-closed s s.pool.queue refl c
Step-closed (done s front w back e) c = (c, refl)
Step-closed (call_destroy s finish live) c = ground arith
Step-closed (recheck s e) c = ground arith
Step-closed (announce s e) c = (c, refl)
Step-closed (join s e all) c = (c, refl)
Step-closed (worker_wakes s a) c = (c, refl)
Step-closed (adder_wakes s front w back e) c = (c, refl)
Step-closed (destroyer_wakes s e) c = (c, refl)

-- From the moment that the pool is closed no item is accepted, whichever threads run.
pub closed_accepts_none :
    {s t : System}
    → s.pool.queue_closed ≡ true
    → Reach s t
    → (t.pool.queue_closed ≡ true) × (t.accepted ≡ s.accepted)
closed_accepts_none c here = (c, refl)
closed_accepts_none c (later r step) =
    let (c', same) = closed_accepts_none c r in
    let (c'', same') = Step-closed step c' in (c'', same' ∙ same)
