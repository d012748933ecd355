-- ===== src/Kernel/Scheduler/Queue.antt =====
-- A new process in the queue.
use mathlib.Core.Path.{subst, subst₂, sym}
use basic_kernel_implementat.Prelude.{
  ℕ, ◌≡◌, ◌≢◌, refl, ap, ◌∙◌, List, ◌∷◌, false, arith, ◌==◌, if◌then◌else◌, All, All-map, has,
  Chain-frame, not-has_of_All, update,
}
use basic_kernel_implementat.Prelude.Int.{pos}
use basic_kernel_implementat.Memory.{allocate, page_size}
use basic_kernel_implementat.Memory.Blocks.{IsArena, blocks_of}
use basic_kernel_implementat.Memory.Owned.{
  Owned, IsArena-allocate, Owned-allocate, Owned-allocate_self,
}
use basic_kernel_implementat.Kernel.{Kernel, null, increment, set_thread_tick}
use basic_kernel_implementat.Kernel.Lookup.{slot_next}
use basic_kernel_implementat.Kernel.Lookup.Find.{IsRing}
use basic_kernel_implementat.Kernel.Scheduler.{link_slot, add_process_to_queue}

module _ (k : Kernel) (node : ℕ) (rest : List ℕ) (started : k.current_process ≢ null)
    (new : has node (k.process_queue ∷ rest) ≡ false) where
  -- The links behind the head with the new slot put in.
  link_slot-next :
      (a : ℕ)
      → slot_next (link_slot node k) a ≡ (
          if k.process_queue == a
          then node
          else (if node == a then slot_next k k.process_queue else slot_next k a))
  unfolding link_slot
  link_slot-next a = ground arith

  link_slot-queue : (link_slot node k).process_queue ≡ k.process_queue
  unfolding link_slot
  link_slot-queue = ground arith

  -- The new slot goes behind the head, and every other slot keeps its place.
  pub link_slot-IsRing :
      IsRing (slot_next k) k.process_queue rest
      → IsRing (slot_next (link_slot node k)) k.process_queue (node ∷ rest)
  link_slot-IsRing ring =
      let at_node : slot_next (link_slot node k) node ≡ slot_next k k.process_queue =
        ground (arith, link_slot-next node) in
      let behind =
        Chain-frame (slot_next k) (slot_next (link_slot node k)) (slot_next k k.process_queue) rest
          k.process_queue (λ a h. ground (arith, link_slot-next a, ring.once)) ring.links in
      record {
        links = (ground (arith, link_slot-next k.process_queue), rw at_node behind);
        once = ground (arith, ring.once);
      }

  link_slot-process : (a : ℕ) → ((link_slot node k).slots a).process ≡ (k.slots a).process
  unfolding link_slot
  link_slot-process a = ground arith

  link_slot-kept :
      ((link_slot node k).alloc ≡ k.alloc)
      × ((link_slot node k).queue_size ≡ k.queue_size)
      × ((link_slot node k).current_process ≡ k.current_process)
  unfolding link_slot
  link_slot-kept = (ground arith, ground arith, ground arith)

-- The queue of a kernel: a ring of slots whose memory is in use.
pub record IsSlotRing (k : Kernel) (rest : List ℕ) : Type 0 where
  pub arena : IsArena k.alloc
  pub ring : IsRing (slot_next k) k.process_queue rest
  pub owned : All (Owned k.alloc) (k.process_queue ∷ rest)

-- The slot that addProcessToQueue allocates.
abbrev pub new_slot : Kernel → ℕ
new_slot k = (allocate k.alloc page_size).0

slot_pages : blocks_of page_size ≡ pos 1
slot_pages = refl

new_slot-fresh :
    (k : Kernel) (xs : List ℕ)
    → new_slot k ≢ null
    → IsArena k.alloc
    → All (Owned k.alloc) xs
    → has (new_slot k) xs ≡ false
new_slot-fresh k xs found arena owned = not-has_of_All xs (new_slot k) (
    All-map (Owned k.alloc) (λ x. x ≢ new_slot k) xs
      (λ x o. (Owned-allocate k.alloc page_size 0 arena slot_pages found x o).1) owned)

-- The kernel when the new slot is linked in.
abbrev prepared : (process : ℕ) → Kernel → Kernel
prepared process k =
    let node = new_slot k in
    set_thread_tick 0 process (record k {
      alloc = (allocate k.alloc page_size).1;
      slots = update k.slots node (record (k.slots node) { process = process });
    })

prepared-IsRing :
    (process : ℕ) (k : Kernel) (rest : List ℕ)
    → IsRing (slot_next k) k.process_queue rest
    → IsRing (slot_next (prepared process k)) k.process_queue rest
prepared-IsRing process k rest ring =
    let same : (a : ℕ) → slot_next (prepared process k) a ≡ slot_next k a = λ a. ground arith in
    record {
      links = rw (same k.process_queue) (
          Chain-frame (slot_next k) (slot_next (prepared process k)) (slot_next k k.process_queue)
            rest k.process_queue (λ a _. same a) ring.links);
      once = ring.once;
    }

-- On a ring of slots in use, with a current process and a page for the new slot: the new process
-- comes right behind the head of the queue; the other slots keep their processes and their order,
-- the queue is a ring of slots in use as before, and it counts one more.
pub add_process_to_queue-IsSlotRing :
    (process : ℕ) (k : Kernel) (rest : List ℕ)
    → k.current_process ≢ null
    → new_slot k ≢ null
    → IsSlotRing k rest
    → let k' = add_process_to_queue process k in
      IsSlotRing k' (new_slot k ∷ rest)
      × (k'.process_queue ≡ k.process_queue)
      × (k'.current_process ≡ k.current_process)
      × ((k'.slots (new_slot k)).process ≡ process)
      × ((a : ℕ) → a ≢ new_slot k → (k'.slots a).process ≡ (k.slots a).process)
      × (k'.queue_size ≡ increment k.queue_size)
unfolding add_process_to_queue
add_process_to_queue-IsSlotRing process k rest started found q =
    let node = new_slot k in
    let k3 = prepared process k in
    let new = new_slot-fresh k (k.process_queue ∷ rest) found q.arena q.owned in
    let (alloc, size, current) = link_slot-kept k3 node rest started new in
    let kept = λ (x : ℕ) (o : Owned k.alloc x).
      (Owned-allocate k.alloc page_size 0 q.arena slot_pages found x o).0 in
    let self = Owned-allocate_self k.alloc page_size 0 q.arena slot_pages found in
    let queue = link_slot-queue k3 node rest started new in
    let members : All (Owned (allocate k.alloc page_size).1) (k.process_queue ∷ node ∷ rest) = (
      kept k.process_queue q.owned.0,
      (self, All-map (Owned k.alloc) (Owned (allocate k.alloc page_size).1) rest kept q.owned.1),
    ) in
    (
      record {
        arena =
            subst IsArena (sym alloc)
              (IsArena-allocate k.alloc page_size 0 q.arena slot_pages found);
        ring =
            rw queue
              (link_slot-IsRing k3 node rest started new (prepared-IsRing process k rest q.ring));
        owned = subst₂ (λ h al. All (Owned al) (h ∷ node ∷ rest)) (sym queue) (sym alloc) members;
      },
      queue,
      current,
      link_slot-process k3 node rest started new node ∙ ground arith,
      λ a other. link_slot-process k3 node rest started new a ∙ ground arith,
      ap increment size,
    )
