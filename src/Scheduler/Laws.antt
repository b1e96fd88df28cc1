-- ===== src/Scheduler/Laws.antt =====
-- The scheduler goes round: every ready thread gets its turn.
use chestnut.Base.{
  ℕ, zero, suc, ◌<◌, ◌≡◌, refl, ap, subst, ◌∙◌, false, some, List, [], ◌∷◌, ◌++◌, length,
  length-append, get_elem?, has, if◌then◌else◌, arith,
}
use chestnut.Links.{delete, is_empty}
use chestnut.Links.Ring.{IsRing, Disjoint}
use chestnut.Links.Insert.{insert_after-IsRing, insert_after-frame, insert_before-IsRing}
use chestnut.Links.Delete.{delete-IsRing, delete-frame}
use chestnut.Scheduler.{
  Scheduler, requeue, round_robin, stub, restore, switch_to_next, exit_node, resume,
  exit_current_thread, rounds,
}

-- A thread runs, and the others wait in the queue behind the head.
pub record IsRunning (s : Scheduler) (head node : ℕ) (queue : List ℕ) : Type 0 where
  pub ready : s.ready ≡ head
  pub running : s.cur_thread ≡ some node
  pub ring : IsRing s.links head queue
  pub apart : has node (head ∷ queue) ≡ false

-- The first of a queue that is not empty is taken.
taken :
    (s : Scheduler) (node : ℕ) (queue : List ℕ)
    → IsRing (requeue s).links (requeue s).ready (node ∷ queue)
    → round_robin s ≡ (
      some node,
      record (requeue s) { cur_thread = some node; links = delete node (requeue s).links },
    )
unfolding round_robin is_empty
taken s node queue ring =
    let some_node : is_empty (requeue s).ready (requeue s).links ≡ false =
      ground (arith, ring.chain, ring.distinct) in
    let first = ring.chain.0 in rw (round_robin, some_node, first) refl

requeue_ring :
    (s : Scheduler) (head node : ℕ) (queue : List ℕ)
    → IsRunning s head node queue
    → IsRing (requeue s).links head (queue ++ node ∷ [])
unfolding requeue
requeue_ring s head node queue ok =
    rw (requeue, ok.running, ok.ready)
      (insert_before-IsRing s.links head node queue ok.ring ok.apart)

requeue_ready :
    (s : Scheduler) (head node : ℕ) (queue : List ℕ)
    → IsRunning s head node queue
    → (requeue s).ready ≡ head
unfolding requeue
requeue_ready s head node queue ok = rw (requeue, ok.running) ok.ready

next-IsRunning :
    (s : Scheduler) (head node next : ℕ) (queue rest : List ℕ)
    → IsRunning s head node queue
    → queue ++ node ∷ [] ≡ next ∷ rest
    → ((round_robin s).0 ≡ some next) × IsRunning (round_robin s).1 head next rest
next-IsRunning s head node next queue rest ok e =
    let at_head = requeue_ready s head node queue ok in
    let ring : IsRing (requeue s).links head (next ∷ rest) =
      subst (λ (x : List ℕ). IsRing (requeue s).links head x) e
        (requeue_ring s head node queue ok) in
    let (off, _) = ring.distinct in
    let (no_more, _) = ring.distinct.1 in
    rw (taken s next rest (rw at_head ring)) (
      refl,
      record {
        ready = at_head;
        running = refl;
        ring = delete-IsRing (requeue s).links next head [] rest ring;
        apart = ground arith;
      },
    )

-- `RoundRobin` with threads that wait: the first of them runs next, and the one that ran waits as the last.
pub round_robin-IsRunning :
    (s : Scheduler) (head node next : ℕ) (queue : List ℕ)
    → IsRunning s head node (next ∷ queue)
    → ((round_robin s).0 ≡ some next) × IsRunning (round_robin s).1 head next (queue ++ node ∷ [])
round_robin-IsRunning s head node next queue ok =
    next-IsRunning s head node next (next ∷ queue) (queue ++ node ∷ []) ok refl

get_elem?-left : (xs ys : List ℕ) (i : ℕ) → i < length xs → get_elem? (xs ++ ys) i ≡ get_elem? xs i
get_elem?-left [] ys i h = elim h [ ]
get_elem?-left (x ∷ xs) ys zero h = refl
get_elem?-left (x ∷ xs) ys (suc i) h = get_elem?-left xs ys i (omega arith)

-- Every thread that waits gets its turn: the one at place `i` of the queue runs after `i + 1` calls of `RoundRobin`.
pub rounds_turn :
    (i : ℕ) (s : Scheduler) (head node : ℕ) (queue : List ℕ)
    → IsRunning s head node queue
    → i < length queue
    → (rounds (suc i) s).cur_thread ≡ get_elem? queue i
rounds_turn i s head node [] ok lt = elim lt [ ]
rounds_turn zero s head node (x ∷ queue) ok lt =
    (round_robin-IsRunning s head node x queue ok).1.running
rounds_turn (suc i) s head node (x ∷ queue) ok lt =
    rounds_turn i (round_robin s).1 head x (queue ++ node ∷ [])
      (round_robin-IsRunning s head node x queue ok).1
      (omega (arith, lt, length-append queue (node ∷ [])))
    ∙ get_elem?-left queue (node ∷ []) i (omega (arith, lt))

-- The state behind `ExitCurrentThread`.
pub record IsExited (s s' : Scheduler) (head node next : ℕ) (queue done : List ℕ) : Type 0 where
  pub running : IsRunning s' head next queue
  pub exited : IsRing s'.links s.exit (node ∷ done)

module _ (s : Scheduler) (head node next : ℕ) (queue done : List ℕ)
    (ok : IsRunning s head node (next ∷ queue)) (exits : IsRing s.links s.exit done)
    (apart : Disjoint (node ∷ s.exit ∷ done) (head ∷ next ∷ queue))
    (fresh : has node (s.exit ∷ done) ≡ false) where
  left : IsRing (exit_node node s).links head (next ∷ queue)
  unfolding exit_node
  left = insert_after-frame s.links s.exit node done head (next ∷ queue) exits apart ok.ring

  gone : IsRing (exit_node node s).links s.exit (node ∷ done)
  unfolding exit_node
  gone = insert_after-IsRing s.links s.exit node done exits fresh

  others : Disjoint (head ∷ next ∷ queue) (s.exit ∷ node ∷ done)
  others a h = ground (arith, apart a, h)

  picked : round_robin (exit_node node s) ≡ (
    some next,
    record (exit_node node s) {
      cur_thread = some next;
      links = delete next (exit_node node s).links;
    },
  )
  unfolding requeue exit_node
  picked = taken (exit_node node s) next queue (rw ok.ready left)

  after : Scheduler
  after = record (exit_node node s) {
    cur_thread = some next;
    links = delete next (exit_node node s).links;
  }

  after-IsRunning : IsRunning after head next queue
  unfolding after exit_node
  after-IsRunning =
      let off = left.distinct in
      record {
        ready = ok.ready;
        running = refl;
        ring = delete-IsRing (exit_node node s).links next head [] queue left;
        apart = ground arith;
      }

  after-IsRing : IsRing after.links s.exit (node ∷ done)
  unfolding after
  after-IsRing =
      delete-frame (exit_node node s).links next head [] queue s.exit (node ∷ done) left others gone

  -- `ExitCurrentThread` with threads that wait: the thread is the first of the list of exited threads, the first thread of the
  -- queue runs, and it is entered at its stub just when it has not run before.
  pub exit_current_thread-IsExited :
      (s' : Scheduler) × (exit_current_thread s
        ≡ some (if s.initialized (s.thr next) then restore (s.thr next) else stub (s.thr next), s'))
      × IsExited s s' head node next queue done
  unfolding exit_current_thread resume switch_to_next after exit_node
  exit_current_thread-IsExited = (
    after,
    rw (exit_current_thread, ok.running) (ap resume picked),
    record { running = after-IsRunning; exited = after-IsRing },
  )
