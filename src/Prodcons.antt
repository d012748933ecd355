-- ===== src/Prodcons.antt =====
-- The producer and the consumer of Userland/SampleCodeModule/shell.c, with BUFFERSIZE of
-- include/prodcons.h, as steps of which one runs at a time. What they print is left out, and so is the
-- time that they sleep. A semaphore is the number that the kernel keeps, which is -1 while a thread
-- waits; one thread at most calls semaphoreDown on each. A return of mutexDown may come at any time: a
-- thread that waited for the mutex goes on without it.
pub mod Counts
pub mod Order
mod Tests
use basic_kernel_implementat.Prelude.{
  ℕ, zero, suc, ◌+◌, ◌-◌, ◌%◌, ◌^◌, Bool, true, false, List, [], ◌∷◌, ◌++◌, if◌then◌else◌, update,
}
use basic_kernel_implementat.Prelude.Int.{ℤ, pos, negsuc}

abbrev pub buffersize : ℕ
buffersize = 100

-- Where the producer stands: behind `cant++`, in semaphoreDown, behind it, behind mutexDown, behind
-- mutexUp; and the consumer in the same way.
pub data Producing : Type 0 where
  making with_item waits_for_place has_place placing placed : Producing

pub data Consuming : Type 0 where
  sleeping waits_for_item has_item taking taken : Consuming

-- The globals, where the threads stand, the `item` of each, and, for the theorems, the items that were
-- inserted and removed so far, the first one first.
pub record Shop : Type 0 where
  pub buffer : ℕ → ℕ
  pub r : ℕ
  pub w : ℕ
  pub aux : ℕ
  pub cant : ℕ
  pub empty_count : ℤ
  pub full_count : ℤ
  pub producing : Producing
  pub consuming : Consuming
  pub item : ℕ
  pub inserted : List ℕ
  pub removed : List ℕ

-- The globals as they are when the program starts.
abbrev pub globals : (buffer : ℕ → ℕ) → Shop
globals buffer = record {
  buffer = buffer;
  r = 0;
  w = 0;
  aux = 1;
  cant = 0;
  empty_count = pos 0;
  full_count = pos 0;
  producing = making;
  consuming = sleeping;
  item = 0;
  inserted = [];
  removed = [];
}

-- prodcons, before the threads run: new semaphores and threads. It leaves `r`, `w`, `aux`, `cant` and the
-- buffer as an earlier run left them.
unfoldable pub prodcons : Shop → Shop
prodcons s = record s {
  empty_count = pos buffersize;
  full_count = pos 0;
  producing = making;
  consuming = sleeping;
}

-- The count of a semaphore after semaphoreDown, with which a thread waits if it is negative, and after
-- semaphoreUp, which wakes the waiting thread if it is not.
abbrev pub down : ℤ → ℤ
down (pos zero) = negsuc 0
down (pos (suc n)) = pos n
down (negsuc n) = negsuc (suc n)

abbrev pub up : ℤ → ℤ
up (pos n) = pos (suc n)
up (negsuc zero) = pos 0
up (negsuc (suc n)) = negsuc n

abbrev pub is_negative : ℤ → Bool
is_negative (pos n) = false
is_negative (negsuc n) = true

unfoldable pub insert_item : (c : ℕ) → Shop → Shop
insert_item c s = record s {
  buffer = update s.buffer s.w (c % 256);
  w = (s.w + 1) % buffersize;
  inserted = s.inserted ++ (c % 256 ∷ []);
}

unfoldable pub remove_item : Shop → ℕ × Shop
remove_item s = (
  s.buffer s.r,
  record s { r = (s.r + 1) % buffersize; removed = s.removed ++ (s.buffer s.r ∷ []) },
)

-- A thread that waits is behind semaphoreDown once it is woken.
abbrev pub wake_producer : Producing → Producing
wake_producer making = making
wake_producer with_item = with_item
wake_producer waits_for_place = has_place
wake_producer has_place = has_place
wake_producer placing = placing
wake_producer placed = placed

abbrev pub wake_consumer : Consuming → Consuming
wake_consumer sleeping = sleeping
wake_consumer waits_for_item = has_item
wake_consumer has_item = has_item
wake_consumer taking = taking
wake_consumer taken = taken

-- What a thread does up to its next call of the kernel, from where it stands.
unfoldable pub produce : Producing → Shop → Shop
produce making s = record s {
  item = s.aux % 256;
  aux = (s.aux + 1) % 2 ^ 32;
  cant = (s.cant + 1) % 2 ^ 32;
  producing = with_item;
}
produce with_item s = record s {
  empty_count = down s.empty_count;
  producing = if is_negative (down s.empty_count) then waits_for_place else has_place;
}
produce waits_for_place s = s
produce has_place s = record s { producing = placing }
produce placing s = record (insert_item s.item s) { producing = placed }
produce placed s = record s {
  full_count = up s.full_count;
  consuming = if is_negative (up s.full_count) then s.consuming else wake_consumer s.consuming;
  producing = making;
}

unfoldable pub consume : Consuming → Shop → Shop
consume sleeping s = record s {
  full_count = down s.full_count;
  consuming = if is_negative (down s.full_count) then waits_for_item else has_item;
}
consume waits_for_item s = s
consume has_item s = record s { consuming = taking }
consume taking s = record (remove_item s).1 { consuming = taken }
consume taken s = record s {
  empty_count = up s.empty_count;
  producing = if is_negative (up s.empty_count) then s.producing else wake_producer s.producing;
  consuming = sleeping;
  cant = (s.cant + 2 ^ 32 - 1) % 2 ^ 32;
}

-- The states that the two threads reach in any order of their steps, in the first run of prodcons.
pub data Reach (buffer : ℕ → ℕ) : Shop → Type 0 where
  starts : Reach buffer (prodcons (globals buffer))
  produces : {s : Shop} → Reach buffer s → Reach buffer (produce s.producing s)
  consumes : {s : Shop} → Reach buffer s → Reach buffer (consume s.consuming s)
