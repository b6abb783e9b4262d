-- ===== src/ThreadPool/Fifo.antt =====
-- A pool as what its users see of it: a bounded queue that is open or not, and served or not. The counts
-- and conditions, the waiting threads and the two phases of `eggThreadPool_destroy` are forgotten.
use egg.Base.{
  ℕ, ◌-◌, ◌<◌, ◌≡◌, refl, Bool, true, false, not, ◌&&◌, ◌||◌, ◌⊎◌, List, [], ◌∷◌, ◌++◌, length,
  arith, ◌==◌, Bool-cases, inl, inr,
}
use egg.ThreadPool.{Work, add_loop, add_work, worker_round, drain_loop, destroy}
use egg.ThreadPool.System.{
  checking, System, init, after_add, after_round, after_destroy, after_call, Step, call, retry,
  round, done, call_destroy, recheck, announce, join, worker_wakes, adder_wakes, destroyer_wakes,
  Reach,
}
use egg.ThreadPool.Invariant.{Inv, init-Inv, Reach-Inv, rest_of_queue, unwoken-Inv}

pub record Buffer : Type 0 where
  pub items : List Work
  pub is_open : Bool
  pub is_served : Bool

-- `most` is the limit.
pub data Move (most : ℕ) : Buffer → Buffer → Type 0 where
  put :
      (b : Buffer) (w : Work)
      → b.is_open ≡ true
      → length b.items < most
      → Move most b (record b { items = b.items ++ (w ∷ []) })
  get :
      (b : Buffer) (w : Work) (next : List Work)
      → b.is_served ≡ true
      → b.items ≡ w ∷ next
      → Move most b (record b { items = next })
  close : (b : Buffer) → b.is_open ≡ true → Move most b (record b { is_open = false })
  stop :
      (b : Buffer)
      → b.is_open ≡ false
      → b.is_served ≡ true
      → Move most b (record b { is_served = false })

-- At most one of them, or the last two at once.
pub data Moves (most : ℕ) (b : Buffer) : Buffer → Type 0 where
  still : Moves most b b
  one : {c : Buffer} → Move most b c → Moves most b c
  close_stop :
      b.is_open ≡ true
      → b.is_served ≡ true
      → Moves most b (record b { is_open = false; is_served = false })

abbrev pub view : System → Buffer
view s = record {
  items = s.pool.queue;
  is_open = not s.pool.queue_closed;
  is_served = not s.pool.shutdown;
}

Simulates : System → System → Type 0
Simulates s t = Moves s.pool.max_queue_size (view s) (view t)

-- A call either leaves what is seen or puts its item into a queue that is open and has room.
after_add-cases :
    (s : System) (w : Work)
    → Inv s
    → (view (after_add s w (add_loop s.pool w)) ≡ view s)
      ⊎ (((view s).is_open ≡ true)
          × (length s.pool.queue < s.pool.max_queue_size)
          × (view (after_add s w (add_loop s.pool w))
              ≡ record (view s) { items = s.pool.queue ++ (w ∷ []) }))
after_add-cases s w h = ground (arith, h.size, h.room)

add_loop-Simulates :
    (s : System) (w : Work) → Inv s → Simulates s (after_add s w (add_loop s.pool w))
unfolding Simulates
add_loop-Simulates s w h = elim (after_add-cases s w h) [
  | inl same ↦ rw same still
  | inr added ↦ rw (added.2) (one (put (view s) w (added.0) (added.1)))
]

add_work-Simulates :
    (s : System) (w : Work) → Inv s → Simulates s (after_add s w (add_work s.pool w))
unfolding Simulates
add_work-Simulates s w h =
    elim (Bool-cases
      ((s.pool.cur_queue_size == s.pool.max_queue_size) && s.pool.do_not_block_when_full)) [
        | inl full ↦ rw full still
        | inr free ↦ rw free (add_loop-Simulates s w h)
      ]

-- A round leaves what is seen or gets the first item of a queue that is served.
after_round-cases :
    (s : System) (queue : List Work)
    → s.pool.queue ≡ queue
    → Inv s
    → let t = after_round s (worker_round s.pool) in
      (view t ≡ view s)
      ⊎ ((w : Work) × (next : List Work) × (s.pool.queue ≡ w ∷ next)
          × ((view s).is_served ≡ true)
          × (view t ≡ record (view s) { items = next }))
after_round-cases s [] e h = inl (ground (arith, h.size))
after_round-cases s (w ∷ next) e h = elim (Bool-cases s.pool.shutdown) [
  | inl down ↦ inl (ground arith)
  | inr up ↦ inr (
    w,
    next,
    e,
    rw up refl,
    ground (arith, h.size, rest_of_queue (s.pool.cur_queue_size - 1) next),
  )
]

round-Simulates : (s : System) → Inv s → Simulates s (after_round s (worker_round s.pool))
unfolding Simulates
round-Simulates s h = elim (after_round-cases s s.pool.queue refl h) [
  | inl same ↦ rw same still
  | inr (w, next, e, up, taken) ↦ rw taken (one (get (view s) w next up e))
]

recheck-Simulates :
    (s : System) → s.stage ≡ checking → Inv s → Simulates s (after_destroy s (drain_loop s.pool))
unfolding Simulates
recheck-Simulates s e h = elim (Bool-cases (s.pool.cur_queue_size == 0)) [
  | inl empty ↦
      let is_closed : (view s).is_open ≡ false = ground (arith, h.closed, e) in
      let up : (view s).is_served ≡ true = ground (arith, h.down, e) in
      rw empty (one (stop (view s) is_closed up))
  | inr busy ↦ rw busy still
]

call_destroy-Simulates :
    (s : System) (finish : Bool) → Simulates s (after_call s finish (destroy s.pool finish))
unfolding Simulates
call_destroy-Simulates s finish = elim (Bool-cases (s.pool.queue_closed || s.pool.shutdown)) [
  | inl started ↦ rw started still
  | inr fresh ↦
      let up : s.pool.shutdown ≡ false = ground arith in
      let closed = one (close (view s) (ground arith)) in
      let stopped : Moves s.pool.max_queue_size (view s)
          (record (view s) { is_open = false; is_served = false }) =
        close_stop (ground arith) (rw up refl) in
      elim (Bool-cases finish) [
        | inl f ↦ elim (Bool-cases (s.pool.cur_queue_size == 0)) [
          | inl empty ↦ rw (fresh, f, empty) stopped
          | inr busy ↦ rw (fresh, f, busy) closed
        ]
        | inr f ↦ rw (fresh, f) stopped
      ]
]

Step-Simulates : {s t : System} → Step s t → Inv s → Simulates s t
unfolding Simulates
Step-Simulates (call s w live) h = add_work-Simulates s w h
Step-Simulates (retry s front w back live e) h =
    add_loop-Simulates (record s { woken = front ++ back }) w (unwoken-Inv s front w back e h)
Step-Simulates (round s l) h = round-Simulates s h
Step-Simulates (done s front w back e) h = still
Step-Simulates (call_destroy s finish live) h = call_destroy-Simulates s finish
Step-Simulates (recheck s e) h = recheck-Simulates s e h
Step-Simulates (announce s e) h = still
Step-Simulates (join s e all) h = still
Step-Simulates (worker_wakes s a) h = still
Step-Simulates (adder_wakes s front w back e) h = still
Step-Simulates (destroyer_wakes s e) h = still

-- A pool refines a bounded first-in-first-out queue: each step of the threads, from a state that a new
-- pool reaches, is nothing, an item put behind the others where the queue is open and has room, the
-- first item taken where it is served, its closing, the end of its service once it is closed, or the
-- last two at once; never more.
pub Step-refines :
    (threads most : ℕ) (no_block : Bool) (s t : System)
    → Reach (init threads most no_block) s
    → Step s t
    → Moves s.pool.max_queue_size (view s) (view t)
unfolding Simulates
Step-refines threads most no_block s t r step =
    Step-Simulates step (Reach-Inv (init-Inv threads most no_block) r)
