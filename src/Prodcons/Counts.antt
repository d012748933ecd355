-- ===== src/Prodcons/Counts.antt =====
-- The semaphores of the producer and the consumer of Userland/SampleCodeModule/shell.c: what a thread
-- counts for by where it stands.
use basic_kernel_implementat.Prelude.{ℕ, zero, suc, ◌+◌, ◌≤◌, ◌≡◌, refl, arith, if◌then◌else◌}
use basic_kernel_implementat.Prelude.Int.{ℤ, pos, negsuc, pos_part, neg_part}
use basic_kernel_implementat.Prodcons.{
  making, with_item, waits_for_place, has_place, placing, placed, sleeping, waits_for_item,
  has_item, taking, taken, Producing, Consuming, down, up, is_negative, wake_producer,
  wake_consumer,
}

-- Whether the producer has a place that it has not filled, one that it has filled and not told of, and
-- whether it waits; and the consumer in the same way.
abbrev pub reserved : Producing → ℕ
reserved making = 0
reserved with_item = 0
reserved waits_for_place = 0
reserved has_place = 1
reserved placing = 1
reserved placed = 0

abbrev pub filled : Producing → ℕ
filled making = 0
filled with_item = 0
filled waits_for_place = 0
filled has_place = 0
filled placing = 0
filled placed = 1

abbrev pub producer_waits : Producing → ℕ
producer_waits making = 0
producer_waits with_item = 0
producer_waits waits_for_place = 1
producer_waits has_place = 0
producer_waits placing = 0
producer_waits placed = 0

abbrev pub claimed : Consuming → ℕ
claimed sleeping = 0
claimed waits_for_item = 0
claimed has_item = 1
claimed taking = 1
claimed taken = 0

abbrev pub freed : Consuming → ℕ
freed sleeping = 0
freed waits_for_item = 0
freed has_item = 0
freed taking = 0
freed taken = 1

abbrev pub consumer_waits : Consuming → ℕ
consumer_waits sleeping = 0
consumer_waits waits_for_item = 1
consumer_waits has_item = 0
consumer_waits taking = 0
consumer_waits taken = 0

pub pos_part-waiting : (e : ℤ) → neg_part e ≡ 1 → pos_part e ≡ 0
pos_part-waiting (pos n) h = absurd (omega arith)
pos_part-waiting (negsuc n) h = refl

producer_waits-le : (p : Producing) → producer_waits p ≤ 1
producer_waits-le making = omega arith
producer_waits-le with_item = omega arith
producer_waits-le waits_for_place = omega arith
producer_waits-le has_place = omega arith
producer_waits-le placing = omega arith
producer_waits-le placed = omega arith

consumer_waits-le : (c : Consuming) → consumer_waits c ≤ 1
consumer_waits-le sleeping = omega arith
consumer_waits-le waits_for_item = omega arith
consumer_waits-le has_item = omega arith
consumer_waits-le taking = omega arith
consumer_waits-le taken = omega arith

-- A place that semaphoreDown gives, or a thread that waits for it.
pub down-place :
    (e : ℤ)
    → neg_part e ≡ 0
    → let p = if is_negative (down e) then waits_for_place else has_place in
      (pos_part (down e) + reserved p ≡ pos_part e)
      × (neg_part (down e) ≡ producer_waits p)
      × (filled p ≡ 0)
down-place (pos zero) h = (omega arith, omega arith, omega arith)
down-place (pos (suc n)) h = (omega arith, omega arith, omega arith)
down-place (negsuc n) h = absurd (omega arith)

pub down-item :
    (e : ℤ)
    → neg_part e ≡ 0
    → let c = if is_negative (down e) then waits_for_item else has_item in
      (pos_part (down e) + claimed c ≡ pos_part e)
      × (neg_part (down e) ≡ consumer_waits c)
      × (freed c ≡ 0)
down-item (pos zero) h = (omega arith, omega arith, omega arith)
down-item (pos (suc n)) h = (omega arith, omega arith, omega arith)
down-item (negsuc n) h = absurd (omega arith)

-- A place that semaphoreUp gives back, to the count or to the thread that waits.
pub up-place :
    (e : ℤ) (p : Producing)
    → neg_part e ≡ producer_waits p
    → let p' = if is_negative (up e) then p else wake_producer p in
      (pos_part (up e) + reserved p' ≡ pos_part e + reserved p + 1)
      × (neg_part (up e) ≡ producer_waits p')
      × (filled p' ≡ filled p)
up-place (pos n) making h = (omega arith, omega arith, omega arith)
up-place (pos n) with_item h = (omega arith, omega arith, omega arith)
up-place (pos n) waits_for_place h = absurd (omega arith)
up-place (pos n) has_place h = (omega arith, omega arith, omega arith)
up-place (pos n) placing h = (omega arith, omega arith, omega arith)
up-place (pos n) placed h = (omega arith, omega arith, omega arith)
up-place (negsuc zero) making h = absurd (omega arith)
up-place (negsuc zero) with_item h = absurd (omega arith)
up-place (negsuc zero) waits_for_place h = (omega arith, omega arith, omega arith)
up-place (negsuc zero) has_place h = absurd (omega arith)
up-place (negsuc zero) placing h = absurd (omega arith)
up-place (negsuc zero) placed h = absurd (omega arith)
up-place (negsuc (suc n)) p h = absurd (omega (arith, producer_waits-le p))

pub up-item :
    (e : ℤ) (c : Consuming)
    → neg_part e ≡ consumer_waits c
    → let c' = if is_negative (up e) then c else wake_consumer c in
      (pos_part (up e) + claimed c' ≡ pos_part e + claimed c + 1)
      × (neg_part (up e) ≡ consumer_waits c')
      × (freed c' ≡ freed c)
up-item (pos n) sleeping h = (omega arith, omega arith, omega arith)
up-item (pos n) waits_for_item h = absurd (omega arith)
up-item (pos n) has_item h = (omega arith, omega arith, omega arith)
up-item (pos n) taking h = (omega arith, omega arith, omega arith)
up-item (pos n) taken h = (omega arith, omega arith, omega arith)
up-item (negsuc zero) sleeping h = absurd (omega arith)
up-item (negsuc zero) waits_for_item h = (omega arith, omega arith, omega arith)
up-item (negsuc zero) has_item h = absurd (omega arith)
up-item (negsuc zero) taking h = absurd (omega arith)
up-item (negsuc zero) taken h = absurd (omega arith)
up-item (negsuc (suc n)) c h = absurd (omega (arith, consumer_waits-le c))
