-- ===== src/Scheduler.antt =====
-- kern/scheduler.cc and kern/scheduler.h: the queue of ready threads and the thread that runs. The
-- `list_node` is the first field of a `ThreadNode`, so that a node and its list node have one address.
pub mod Laws
mod Examples
use chestnut.Base.{ℕ, zero, suc, Bool, true, false, Option, none, some, if◌then◌else◌, store}
use chestnut.Links.{Links, delete, insert_before, insert_after, init_head, is_empty}

-- `Scheduler`: the addresses of its list heads, the nodes, `thr` of every node, `is_initialized_` of every
-- thread, and `cur_thread`.
pub record Scheduler : Type 0 where
  pub ready : ℕ
  pub waiting : ℕ
  pub exit : ℕ
  pub links : Links
  pub thr : ℕ → ℕ
  pub initialized : ℕ → Bool
  pub cur_thread : Option ℕ

-- `InitThreadQUeue`.
unfoldable pub init_thread_queue : Scheduler → Scheduler
init_thread_queue s = record s {
  links = init_head s.exit (init_head s.waiting (init_head s.ready s.links));
}

-- `AddThread`, where `node` is what `Alloc` gives.
unfoldable pub add_thread : ℕ → ℕ → Scheduler → Scheduler
add_thread node thread s = record s {
  thr = store s.thr node thread;
  links = insert_before node s.ready s.links;
}

-- The first part of `RoundRobin`.
unfoldable pub requeue : Scheduler → Scheduler
requeue s = elim s.cur_thread [
  | none ↦ s
  | some node ↦ record s { links = insert_before node s.ready s.links }
]

-- `RoundRobin`: its result and the state.
unfoldable pub round_robin : Scheduler → Option ℕ × Scheduler
round_robin s =
    let s' = requeue s in
    let node = s'.links.next s'.ready in
    if is_empty s'.ready s'.links
    then (none, s')
    else (some node, record s' { cur_thread = some node; links = delete node s'.links })

-- How a thread is entered.
pub data Switch : Type 0 where
  stub : ℕ → Switch
  restore : ℕ → Switch

-- `SwitchToNext`. Without a current thread the code follows a null pointer: `none`.
unfoldable pub switch_to_next : Scheduler → Option Switch
switch_to_next s = elim s.cur_thread [
  | none ↦ none
  | some node ↦
      some (if s.initialized (s.thr node) then restore (s.thr node) else stub (s.thr node))
]

unfoldable pub exit_node : ℕ → Scheduler → Scheduler
exit_node node s = record s { links = insert_after node s.exit s.links; cur_thread = none }

-- `cur_thread = RoundRobin(); SwitchToNext();`.
unfoldable pub resume : Option ℕ × Scheduler → Option (Switch × Scheduler)
resume (next, s) =
    let s' : Scheduler = record s { cur_thread = next } in
    elim (switch_to_next s') [ none ↦ none | some switch ↦ some (switch, s') ]

-- `ExitCurrentThread`.
unfoldable pub exit_current_thread : Scheduler → Option (Switch × Scheduler)
exit_current_thread s = elim s.cur_thread [
  | none ↦ none
  | some node ↦ resume (round_robin (exit_node node s))
]

-- `RoundRobin`, again and again.
abbrev pub rounds : ℕ → Scheduler → Scheduler
rounds zero s = s
rounds (suc n) s = rounds n (round_robin s).1
