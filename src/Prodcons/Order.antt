-- ===== src/Prodcons/Order.antt =====
-- What the producer and the consumer of Userland/SampleCodeModule/shell.c keep: no item is lost, and
-- they do not wait for each other.
use basic_kernel_implementat.Prelude.{
  ℕ, ◌+◌, ◌%◌, ◌<◌, ◌≡◌, ap, List, [], ◌∷◌, ◌++◌, arith, length, get_or, length-append, suc, ◌≤◌,
  refl, sym, ◌∙◌, append_assoc,
}
use basic_kernel_implementat.Prelude.Int.{pos_part, neg_part}
use basic_kernel_implementat.Prodcons.Counts.{
  reserved, filled, producer_waits, claimed, freed, consumer_waits, pos_part-waiting, down-place,
  down-item, up-place, up-item,
}
use basic_kernel_implementat.Ring.{get_or-snoc, place}
use basic_kernel_implementat.Prodcons.{
  remove_item, consume, prodcons, starts, produces, consumes, Reach, making, with_item,
  waits_for_place, has_place, placing, placed, sleeping, waits_for_item, has_item, taking, taken,
  buffersize, Producing, Consuming, Shop, insert_item, produce,
}

-- The items `q` are in the buffer, the oldest first: those inserted that are not removed, and the
-- semaphores count the places and the items.
pub record HoldsItems (s : Shop) (q : List ℕ) : Type 0 where
  pub order : s.inserted ≡ s.removed ++ q
  pub read_in : s.r < buffersize
  pub write_at : s.w ≡ place buffersize s.r (length q)
  pub contents : (k : ℕ) → k < length q → s.buffer (place buffersize s.r k) ≡ get_or q k 0
  pub places :
      pos_part s.empty_count + reserved s.producing + length q + freed s.consuming ≡ buffersize
  pub items : pos_part s.full_count + filled s.producing + claimed s.consuming ≡ length q
  pub place_wait : neg_part s.empty_count ≡ producer_waits s.producing
  pub item_wait : neg_part s.full_count ≡ consumer_waits s.consuming

insert_item-contents :
    (s : Shop) (q : List ℕ) (c : ℕ)
    → HoldsItems s q
    → length q < buffersize
    → (k : ℕ) → k < length (q ++ (c % 256 ∷ []))
    → (insert_item c s).buffer (place buffersize s.r k) ≡ get_or (q ++ (c % 256 ∷ [])) k 0
unfolding insert_item
insert_item-contents s q c h room k lt = ground (
  arith,
  h.contents k,
  get_or-snoc q (c % 256) k,
  h.write_at,
  h.read_in,
  length-append q (c % 256 ∷ []),
)

produce-HoldsItems :
    (p : Producing) (s : Shop) (q : List ℕ)
    → s.producing ≡ p
    → HoldsItems s q
    → (q' : List ℕ) × HoldsItems (produce p s) q'
unfolding produce
produce-HoldsItems making s q e h = (
  q,
  record {
    order = h.order;
    read_in = h.read_in;
    write_at = h.write_at;
    contents = h.contents;
    places = omega (arith, h.places, ap reserved e);
    items = omega (arith, h.items, ap filled e);
    place_wait = omega (arith, h.place_wait, ap producer_waits e);
    item_wait = h.item_wait;
  },
)
produce-HoldsItems with_item s q e h =
    let (place_down, waits, none_filled) =
      down-place s.empty_count (h.place_wait ∙ ap producer_waits e) in
    (
      q,
      record {
        order = h.order;
        read_in = h.read_in;
        write_at = h.write_at;
        contents = h.contents;
        places = omega (arith, h.places, ap reserved e, place_down);
        items = omega (arith, h.items, ap filled e, none_filled);
        place_wait = waits;
        item_wait = h.item_wait;
      },
    )
produce-HoldsItems waits_for_place s q e h = (q, h)
produce-HoldsItems has_place s q e h = (
  q,
  record {
    order = h.order;
    read_in = h.read_in;
    write_at = h.write_at;
    contents = h.contents;
    places = omega (arith, h.places, ap reserved e);
    items = omega (arith, h.items, ap filled e);
    place_wait = omega (arith, h.place_wait, ap producer_waits e);
    item_wait = h.item_wait;
  },
)
produce-HoldsItems placing s q e h =
    let room : length q < buffersize = omega (arith, h.places, ap reserved e) in
    let more = length-append q (s.item % 256 ∷ []) in
    (
      q ++ (s.item % 256 ∷ []),
      unfold insert_item in
          record {
            order =
                ap (λ l. l ++ (s.item % 256 ∷ [])) h.order
                ∙ append_assoc s.removed q (s.item % 256 ∷ []);
            read_in = h.read_in;
            write_at = ground (arith, h.write_at, h.read_in, more);
            contents = insert_item-contents s q s.item h room;
            places = omega (arith, h.places, ap reserved e, more);
            items = omega (arith, h.items, ap filled e, more);
            place_wait = omega (arith, h.place_wait, ap producer_waits e);
            item_wait = h.item_wait;
          },
    )
produce-HoldsItems placed s q e h =
    let (item_up, waits, same) = up-item s.full_count s.consuming h.item_wait in
    (
      q,
      record {
        order = h.order;
        read_in = h.read_in;
        write_at = h.write_at;
        contents = h.contents;
        places = omega (arith, h.places, ap reserved e, same);
        items = omega (arith, h.items, ap filled e, item_up);
        place_wait = omega (arith, h.place_wait, ap producer_waits e);
        item_wait = waits;
      },
    )

remove_item-HoldsItems :
    (s : Shop) (q : List ℕ)
    → s.consuming ≡ taking
    → HoldsItems s q
    → (q' : List ℕ) × HoldsItems (consume taking s) q'
remove_item-HoldsItems s [] e h = absurd (omega (arith, h.items, ap claimed e))
remove_item-HoldsItems s (x ∷ q) e h =
    let oldest : s.buffer s.r ≡ x = ground (arith, h.contents 0, h.read_in) in
    (
      q,
      unfold consume remove_item in
          rw oldest (record {
            order = h.order ∙ sym (append_assoc s.removed (x ∷ []) q);
            read_in = omega arith;
            write_at = ground (arith, h.write_at, h.read_in, h.places);
            contents = λ k lt. ground (arith, h.contents (suc k), h.read_in, h.places);
            places = omega (arith, h.places, ap freed e);
            items = omega (arith, h.items, ap claimed e);
            place_wait = h.place_wait;
            item_wait = omega (arith, h.item_wait, ap consumer_waits e);
          }),
    )

consume-HoldsItems :
    (c : Consuming) (s : Shop) (q : List ℕ)
    → s.consuming ≡ c
    → HoldsItems s q
    → (q' : List ℕ) × HoldsItems (consume c s) q'
unfolding consume
consume-HoldsItems sleeping s q e h =
    let (item_down, waits, none_freed) =
      down-item s.full_count (h.item_wait ∙ ap consumer_waits e) in
    (
      q,
      record {
        order = h.order;
        read_in = h.read_in;
        write_at = h.write_at;
        contents = h.contents;
        places = omega (arith, h.places, ap freed e, none_freed);
        items = omega (arith, h.items, ap claimed e, item_down);
        place_wait = h.place_wait;
        item_wait = waits;
      },
    )
consume-HoldsItems waits_for_item s q e h = (q, h)
consume-HoldsItems has_item s q e h = (
  q,
  record {
    order = h.order;
    read_in = h.read_in;
    write_at = h.write_at;
    contents = h.contents;
    places = omega (arith, h.places, ap freed e);
    items = omega (arith, h.items, ap claimed e);
    place_wait = h.place_wait;
    item_wait = omega (arith, h.item_wait, ap consumer_waits e);
  },
)
consume-HoldsItems taking s q e h = remove_item-HoldsItems s q e h
consume-HoldsItems taken s q e h =
    let (place_up, waits, same) = up-place s.empty_count s.producing h.place_wait in
    (
      q,
      record {
        order = h.order;
        read_in = h.read_in;
        write_at = h.write_at;
        contents = h.contents;
        places = omega (arith, h.places, ap freed e, place_up);
        items = omega (arith, h.items, ap claimed e, same);
        place_wait = waits;
        item_wait = omega (arith, h.item_wait, ap consumer_waits e);
      },
    )

Reach-holds : (buffer : ℕ → ℕ) (s : Shop) → Reach buffer s → (q : List ℕ) × HoldsItems s q
Reach-holds buffer s starts = (
  [],
  unfold prodcons in
      record {
        order = refl;
        read_in = omega arith;
        write_at = refl;
        contents = λ k lt. absurd (omega arith);
        places = refl;
        items = refl;
        place_wait = refl;
        item_wait = refl;
      },
)
Reach-holds buffer s (produces {s = s1} before) =
    let (q, h) = Reach-holds buffer s1 before in produce-HoldsItems s1.producing s1 q refl h
Reach-holds buffer s (consumes {s = s1} before) =
    let (q, h) = Reach-holds buffer s1 before in consume-HoldsItems s1.consuming s1 q refl h

-- In the first run of prodcons, whatever the order of the steps of the two threads, the consumer has
-- removed the items that the producer has inserted, in their order, up to those that are in the buffer,
-- oldest first from the place that is read next; there are 100 at most, so that none is written over,
-- and the semaphores count the places and the items.
pub Reach-HoldsItems :
    (buffer : ℕ → ℕ) (s : Shop)
    → Reach buffer s
    → (q : List ℕ) × HoldsItems s q × (length q ≤ buffersize)
Reach-HoldsItems buffer s reached =
    let (q, h) = Reach-holds buffer s reached in (q, h, omega (arith, h.places))

-- In the first run of prodcons the producer and the consumer are never both waiting for one another.
pub Reach-never_stuck :
    (buffer : ℕ → ℕ) (s : Shop)
    → Reach buffer s
    → ¬ ((s.producing ≡ waits_for_place) × (s.consuming ≡ waits_for_item))
Reach-never_stuck buffer s reached (a, b) =
    let (q, h) = Reach-holds buffer s reached in
    omega (
      arith,
      h.places,
      h.items,
      h.place_wait,
      h.item_wait,
      ap reserved a,
      ap filled a,
      ap producer_waits a,
      ap claimed b,
      ap freed b,
      ap consumer_waits b,
      pos_part-waiting s.empty_count,
      pos_part-waiting s.full_count,
    )
