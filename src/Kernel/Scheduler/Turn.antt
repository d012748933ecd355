-- ===== src/Kernel/Scheduler/Turn.antt =====
-- The choice of the next process: round robin over the ring of the queue.
use basic_kernel_implementat.Prelude.{
  ℕ, zero, suc, ◌+◌, ◌≤◌, ◌<◌, ◌≡◌, ◌≢◌, refl, inl, inr, ◌∙◌, sym, ap, List, [], ◌∷◌, Option, none,
  some, arith, length, ◌==◌, if◌then◌else◌, ◌>>=◌, Bool-cases, >>=-through, Chain, Chain-frame, All,
}
use basic_kernel_implementat.Prelude.Int.{pos}
use basic_kernel_implementat.Kernel.{
  Kernel, SchedulerNode, ready, running, null, quantum, set_process_state,
}
use basic_kernel_implementat.Kernel.Lookup.{slot_next, same_state}
use basic_kernel_implementat.Kernel.Lookup.Find.{
  IsRing, search_order, search_order-Chain, length-search_order,
}
use basic_kernel_implementat.Kernel.Scheduler.{
  slot_state, current_process_node, ready_slot, demote_process, next_process, run_scheduler,
  thread_check,
}
use basic_kernel_implementat.Kernel.Scheduler.Dead.{IsAlive, remove_dead_process-alive}

-- The first slot of a list that holds a process in state READY.
abbrev pub first_ready : Kernel → List ℕ → Option ℕ
first_ready k [] = none
first_ready k (a ∷ xs) = if same_state (slot_state k a) ready then some a else first_ready k xs

ready_slot-first :
    (k : Kernel) (fuel current : ℕ) (xs : List ℕ) (stop r : ℕ)
    → Chain (slot_next k) (slot_next k current) xs stop
    → first_ready k xs ≡ some r
    → length xs ≤ fuel
    → (ready_slot fuel current k >>= λ b. some (slot_next k b)) ≡ some r
unfolding ready_slot
ready_slot-first k fuel current [] stop r c e h = absurd (ground arith)
ready_slot-first k zero current (a ∷ xs) stop r c e h = absurd (omega arith)
ready_slot-first k (suc fuel) current (a ∷ xs) stop r c e h =
    let here : same_state (slot_state k (slot_next k current)) ready
        ≡ same_state (slot_state k a) ready =
      rw c.0 in
    let there : Chain (slot_next k) (slot_next k (slot_next k current)) xs stop = rw c.0 (c.1) in
    elim (Bool-cases (same_state (slot_state k a) ready)) [
      | inl yes_ready ↦ rw (here, yes_ready) (ground arith)
      | inr not_ready ↦
          rw (here, not_ready)
            (ready_slot-first k fuel (slot_next k current) xs stop r there (rw not_ready at e)
              (omega arith))
    ]

-- The kernel when the search for the next process begins: no ticks, and the process that was
-- running is ready.
abbrev pub rested : Kernel → Kernel
rested k = demote_process (record k { number_of_ticks = 0 })

rested-slots : (k : Kernel) (a : ℕ) → (rested k).slots a ≡ k.slots a
rested-slots k a = ground arith

rested-current : (k : Kernel) → (rested k).current_process ≡ k.current_process
rested-current k = ground arith

-- `k'` is `k` after a turn that goes to slot `r`: of the kernel only the current slot, the ticks and
-- the processes are written, and of a process only its state.
pub record IsTurn (k : Kernel) (r : ℕ) (k' : Kernel) : Type 0 where
  pub current : k'.current_process ≡ r
  pub runs : slot_state k' r ≡ running
  pub ticks : k'.number_of_ticks ≡ 0
  pub slots : (a : ℕ) → k'.slots a ≡ k.slots a
  pub queue : (k'.process_queue ≡ k.process_queue) × (k'.queue_size ≡ k.queue_size)
  pub states :
      (p : ℕ) → p ≢ (k.slots r).process → (k'.processes p).state ≡ ((rested k).processes p).state
  pub fields : (p : ℕ) → k'.processes p ≡ record (k.processes p) { state = (k'.processes p).state }
  pub frame : k' ≡ record k { number_of_ticks = 0; current_process = r; processes = k'.processes }

abbrev given_turn : Kernel → ℕ → Kernel
given_turn k r =
    let k2 = rested k in
    set_process_state running (k2.slots r).process (record k2 { current_process = r })

given_turn-frame :
    (k : Kernel) (r : ℕ)
    → given_turn k r ≡ record k {
      number_of_ticks = 0;
      current_process = r;
      processes = (given_turn k r).processes;
    }
given_turn-frame k r = ground arith

given_turn-IsTurn : (k : Kernel) (r : ℕ) → IsTurn k r (given_turn k r)
given_turn-IsTurn k r = record {
  current = refl;
  runs = ground arith;
  ticks = ground arith;
  slots = λ a. ground arith;
  queue = (ground arith, ground arith);
  states = λ p other. ground arith;
  fields = λ p. ground arith;
  frame = given_turn-frame k r;
}

-- A queue in which nobody is dead, seen from its head and from the current slot.
pub record IsQueue (k : Kernel) (rest around : List ℕ) : Type 0 where
  pub from_head : IsRing (slot_next k) k.process_queue rest
  pub from_current : IsRing (slot_next k) k.current_process around
  pub alive : All (IsAlive k) (k.process_queue ∷ rest)
  pub size : k.queue_size ≡ pos (suc (length rest))
  pub started : k.current_process ≢ null

module _ (fuel : ℕ) (k : Kernel) (rest around : List ℕ) (q : IsQueue k rest around)
    (enough : length around < fuel) where
  next_process-given :
      (r : ℕ)
      → first_ready (rested k) (search_order k.current_process around) ≡ some r
      → next_process fuel k ≡ some (given_turn k r)
  unfolding next_process
  next_process-given r e =
      let c = k.current_process in
      let order = search_order c around in
      let links = search_order-Chain (slot_next k) c around q.from_current in
      let same_next = λ (a : ℕ). ap (λ (n : SchedulerNode). n.next) (rested-slots k a) in
      let links' =
        Chain-frame (slot_next k) (slot_next (rested k)) (slot_next k c) order (slot_next k c)
          (λ a _. same_next a) links in
      let start : Chain (slot_next (rested k)) (slot_next (rested k) c) order (slot_next k c) =
        rw (same_next c) links' in
      let found : (ready_slot fuel c (rested k) >>= λ b. some (slot_next (rested k) b)) ≡ some r =
        ready_slot-first (rested k) fuel c order (slot_next k c) r start e
          (omega (arith, length-search_order c around)) in
      rw (remove_dead_process-alive fuel k rest q.from_head q.alive q.size, rested-current k)
        (>>=-through (ready_slot fuel c (rested k)) (slot_next (rested k))
          (λ chosen.
            set_process_state running ((rested k).slots chosen).process
              (record (rested k) { current_process = chosen }))
          found)

  pub run_scheduler-IsTurn :
      (r : ℕ)
      → quantum ≤ k.number_of_ticks
      → first_ready (rested k) (search_order k.current_process around) ≡ some r
      → (k' : Kernel) × (run_scheduler fuel k ≡ some k') × IsTurn k r k'
  unfolding run_scheduler
  run_scheduler-IsTurn r used e =
      (given_turn k r, ground (arith, next_process-given r e, q.started), given_turn-IsTurn k r)

-- Nobody runs but the current process.
abbrev pub OneRuns : Kernel → Type 0
OneRuns k = (a : ℕ) → slot_state k a ≡ running → (k.slots a).process ≡ current_process_node k

rested-not_running :
    (k : Kernel) (p : ℕ)
    → (((k.processes p).state ≡ running) → p ≡ current_process_node k)
    → ((rested k).processes p).state ≢ running
rested-not_running k p one = ground arith

pub OneRuns-IsTurn : (k : Kernel) (r : ℕ) (k' : Kernel) → OneRuns k → IsTurn k r k' → OneRuns k'
OneRuns-IsTurn k r k' one turn a runs =
    elim (Bool-cases ((k.slots a).process == (k.slots r).process)) [
      | inl same ↦ ground (arith, turn.slots a, turn.slots r, turn.current)
      | inr other ↦
          let p = (k.slots a).process in
          let still : (k'.processes p).state ≡ running =
            rw (← ap (λ (n : SchedulerNode). n.process) (turn.slots a)) runs in
          absurd (rested-not_running k p (one a) (sym (turn.states p (ground arith)) ∙ still))
    ]

-- In a queue of live processes, with a current one and at least as much fuel as there are slots,
-- once the quantum is used up and if some process is ready: with nobody but the current process
-- running before the switch, that is so after it as well, and the current process runs.
pub run_scheduler-OneRuns :
    (fuel : ℕ) (k : Kernel) (rest around : List ℕ)
    → IsQueue k rest around
    → length around < fuel
    → (r : ℕ) → quantum ≤ k.number_of_ticks
    → first_ready (rested k) (search_order k.current_process around) ≡ some r
    → OneRuns k
    → (k' : Kernel) × (run_scheduler fuel k ≡ some k')
      × OneRuns k'
      × (slot_state k' k'.current_process ≡ running)
run_scheduler-OneRuns fuel k rest around q enough r used e one =
    let (k', done, turn) = run_scheduler-IsTurn fuel k rest around q enough r used e in
    (k', done, OneRuns-IsTurn k r k' one turn, rw turn.current turn.runs)

-- Until the quantum is used up a tick only counts, and gives the thread its own tick or the
-- process's next thread its turn.
pub run_scheduler-tick :
    (fuel : ℕ) (k : Kernel)
    → k.current_process ≢ null
    → k.number_of_ticks < quantum
    → run_scheduler fuel k
      ≡ thread_check fuel (record k { number_of_ticks = k.number_of_ticks + 1 })
unfolding run_scheduler
run_scheduler-tick fuel k started left = ground arith
