-- ===== src/ThreadPool/Ends.antt =====
-- How a pool ends: from the call of `eggThreadPool_destroy` on, its threads can always get to the end.
use egg.Base.{
  ℕ, zero, suc, ◌+◌, ◌*◌, ◌<◌, ◌≡◌, refl, sym, ◌∙◌, Bool, true, false, List, [], ◌∷◌, length, arith,
  ltb, Bool-cases, inl, inr,
}
use egg.ThreadPool.{Work, worker_round, drain_loop}
use egg.ThreadPool.System.{
  Stage, absent, draining, checking, announcing, joining, freed, System, init, after_round,
  after_destroy, Step, call, retry, round, done, call_destroy, recheck, announce, join,
  worker_wakes, adder_wakes, destroyer_wakes, Reach, wake_workers, wake_adders,
}
use egg.ThreadPool.Invariant.{Inv, is_closing, is_down, init-Inv, Step-Inv, Reach-Inv}

-- A waiting thread that wakes up without a signal or a broadcast.
abbrev spurious : {s t : System} → Step s t → Bool
spurious (call s w live) = false
spurious (retry s front w back live e) = false
spurious (round s l) = false
spurious (done s front w back e) = false
spurious (call_destroy s finish live) = false
spurious (recheck s e) = false
spurious (announce s e) = false
spurious (join s e all) = false
spurious (worker_wakes s a) = true
spurious (adder_wakes s front w back e) = true
spurious (destroyer_wakes s e) = true

-- Steps without such a wake-up: a thread that waits goes on when it is told to.
pub data Run (s : System) : System → Type 0 where
  start : Run s s
  more : {t u : System} → Run s t → (step : Step t u) → spurious step ≡ false → Run s u

Run-trans : {s t u : System} → Run s t → Run t u → Run s u
Run-trans r start = r
Run-trans r (more q step told) = more (Run-trans r q) step told

-- A closed pool, not yet down, with `n` items to go.
record Draining (n : ℕ) (s : System) : Type 0 where
  pub inv : Inv s
  pub closing : is_closing s.stage ≡ true
  pub up : is_down s.stage ≡ false
  pub left : s.pool.cur_queue_size ≡ n
  pub workers : 0 < s.pool.num_threads

-- A round of the next worker takes an item.
takes_on :
    (n : ℕ) (s : System) (queue : List Work)
    → s.pool.queue ≡ queue
    → 0 < s.looking
    → Draining (suc n) s
    → Draining n (after_round s (worker_round s.pool))
takes_on n s [] e l h = absurd (ground (arith, h.inv.size, h.left))
takes_on n s (w ∷ next) e l h =
    let inv' = Step-Inv (round s l) h.inv in
    record {
      inv = inv';
      closing = ground arith;
      up = ground arith;
      left = ground arith;
      workers = ground arith;
    }

-- One item more is taken, if need be by a worker that first ends its own.
takes_one :
    (n : ℕ) (s : System) (busy : List Work)
    → s.busy ≡ busy
    → Draining (suc n) s
    → (t : System) × Run s t × Draining n t
takes_one n s busy e h = elim (Bool-cases (ltb 0 s.looking)) [
  | inl some_look ↦
      let l : 0 < s.looking = ground arith in
      (
        after_round s (worker_round s.pool),
        more start (round s l) refl,
        takes_on n s s.pool.queue refl l h,
      )
  | inr none_look ↦ ends_one n s busy e (ground arith) h
]
  where
    ends_one :
        (n : ℕ) (s : System) (busy : List Work)
        → s.busy ≡ busy
        → s.looking ≡ 0
        → Draining (suc n) s
        → (t : System) × Run s t × Draining n t
    ends_one n s [] e no_look h = absurd (
        ground
          (arith, h.inv.threads, h.inv.asleep_idle, h.inv.exited_down, h.left, h.up, h.workers))
    ends_one n s (w ∷ back) e no_look h =
        let u : System = record s { busy = back; looking = s.looking + 1 } in
        let l : 0 < u.looking = omega arith in
        let step : Step s u = done s [] w back e in
        let h' : Draining (suc n) u = record {
          inv = Step-Inv step h.inv;
          closing = h.closing;
          up = h.up;
          left = h.left;
          workers = h.workers;
        } in
        (
          after_round u (worker_round u.pool),
          more (more start step refl) (round u l) refl,
          takes_on n u u.pool.queue refl l h',
        )

takes_all : (n : ℕ) (s : System) → Draining n s → (t : System) × Run s t × Draining 0 t
takes_all zero s h = (s, start, h)
takes_all (suc n) s h =
    let (t, r, h') = takes_one n s s.busy refl h in
    let (u, q, h'') = takes_all n t h' in (u, Run-trans r q, h'')

-- The pool is announced to be down, and its workers have `n` steps to go.
record Joining (n : ℕ) (s : System) : Type 0 where
  pub inv : Inv s
  pub stage : s.stage ≡ joining
  pub left : 2 * length s.busy + s.looking ≡ n

goes_on :
    (n : ℕ) (s : System) (busy : List Work)
    → s.busy ≡ busy
    → Joining (suc n) s
    → (t : System) × Run s t × Joining n t
goes_on n s [] e h =
    let l : 0 < s.looking = ground (arith, h.left, e) in
    let step : Step s (after_round s (worker_round s.pool)) = round s l in
    (
      after_round s (worker_round s.pool),
      more start step refl,
      record {
        inv = Step-Inv step h.inv;
        stage = ground (arith, h.inv.down, h.stage);
        left = ground (arith, h.inv.down, h.stage, h.left, e);
      },
    )
goes_on n s (w ∷ back) e h =
    let step : Step s (record s { busy = back; looking = s.looking + 1 }) = done s [] w back e in
    (
      record s { busy = back; looking = s.looking + 1 },
      more start step refl,
      record { inv = Step-Inv step h.inv; stage = h.stage; left = ground (arith, h.left, e) },
    )

all_exit : (n : ℕ) (s : System) → Joining n s → (t : System) × Run s t × Joining 0 t
all_exit zero s h = (s, start, h)
all_exit (suc n) s h =
    let (t, r, h') = goes_on n s s.busy refl h in
    let (u, q, h'') = all_exit n t h' in (u, Run-trans r q, h'')

-- Some steps from here, none of them a spurious wake-up, lead to the release of the pool, after the exit of all its workers.
abbrev pub CanEnd : System → Type 0
CanEnd s = (t : System) × Run s t × (t.stage ≡ freed) × (t.exited ≡ t.pool.num_threads)

CanEnd-before : {s t : System} → Run s t → CanEnd t → CanEnd s
CanEnd-before r (u, q, released, all) = (u, Run-trans r q, released, all)

ends_down : (s : System) → Inv s → s.stage ≡ joining → CanEnd s
ends_down s h e =
    let (t, r, g) =
      all_exit (2 * length s.busy + s.looking) s (record { inv = h; stage = e; left = refl }) in
    let all : t.exited ≡ t.pool.num_threads =
      ground (arith, g.inv.threads, g.inv.asleep_idle, g.left, g.stage) in
    (record t { stage = freed }, more r (join t g.stage all) refl, refl, all)

ends_announced : (s : System) → Inv s → s.stage ≡ announcing → CanEnd s
ends_announced s h e =
    let step = announce s e in
    CanEnd-before (more start step refl)
      (ends_down (record (wake_adders (wake_workers s)) { stage = joining }) (Step-Inv step h) refl)

ends_drained : (s : System) → Draining 0 s → CanEnd s
ends_drained s h =
    let ready : s.stage ≡ checking = ground (arith, h.inv.draining_busy, h.left, h.closing, h.up) in
    let step = recheck s ready in
    let down = after_destroy s (drain_loop s.pool) in
    CanEnd-before (more start step refl)
      (ends_announced down (Step-Inv step h.inv) (ground (arith, h.left)))

ends_up :
    (s : System)
    → is_closing s.stage ≡ true
    → is_down s.stage ≡ false
    → 0 < s.pool.num_threads
    → Inv s
    → CanEnd s
ends_up s c up w h =
    let (t, r, g) =
      takes_all s.pool.cur_queue_size s
        (record { inv = h; closing = c; up = up; left = refl; workers = w }) in
    CanEnd-before r (ends_drained t g)

ends_from :
    (s : System) (stage : Stage)
    → s.stage ≡ stage
    → is_closing stage ≡ true
    → 0 < s.pool.num_threads
    → Inv s
    → CanEnd s
ends_from s absent e c w h = absurd (ground arith)
ends_from s draining e c w h = ends_up s (rw e refl) (rw e refl) w h
ends_from s checking e c w h = ends_up s (rw e refl) (rw e refl) w h
ends_from s announcing e c w h = ends_announced s h e
ends_from s joining e c w h = ends_down s h e
ends_from s freed e c w h = (s, start, e, h.freed_exited e)

-- A pool with at least one worker never gets stuck in `eggThreadPool_destroy`: from every state that is
-- reached after it closed the pool, with whatever items are queued, in work or held by waiting callers,
-- steps of the threads lead to the exit of every worker and the release of the pool, and none of them is
-- the wake-up of a waiting thread without a signal or a broadcast.
pub destroy_ends :
    (threads most : ℕ) (no_block : Bool) (s : System)
    → Reach (init threads most no_block) s
    → 0 < s.pool.num_threads
    → s.pool.queue_closed ≡ true
    → CanEnd s
destroy_ends threads most no_block s r w c =
    let h = Reach-Inv (init-Inv threads most no_block) r in
    ends_from s s.stage refl (sym h.closed ∙ c) w h
