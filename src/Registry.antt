-- ===== src/Registry.antt =====
-- The singly linked lists that mutex.c, semaphores.c and pipefs.c keep in the same way: nodes in
-- memory, a pointer to the first, and recursive functions that add at the end and remove by number.
-- A cell that nobody has written holds any item and any link.
pub mod Shape
use mathlib.Core.Path.{fun_ext}
use basic_kernel_implementat.Prelude.{
  ◌≡◌, arith, ℕ, zero, suc, Bool, ◌||◌, Option, none, some, ◌==◌, if◌then◌else◌, ◌>>=◌, update,
}
use basic_kernel_implementat.Kernel.{null}

pub record Node (A : Type 0) : Type 0 where
  pub item : A
  pub next : ℕ

abbrev pub Cells : Type 0 → Type 0
Cells A = ℕ → Node A

module _ {A : Type 0} where
  abbrev pub set_next : (p n : ℕ) → Cells A → Cells A
  set_next p n cells = update cells p (record (cells p) { next = n })

  abbrev pub set_item : (p : ℕ) → A → Cells A → Cells A
  set_item p x cells = update cells p (record (cells p) { item = x })

  -- `add(current, node)`: the list that ends in the node.
  unfoldable pub add : ℕ → (current node : ℕ) → Cells A → Option (ℕ × Cells A)
  add zero current node cells = none
  add (suc fuel) current node cells =
      let rest = add fuel (cells current).next node cells in
      if current == null
      then some (node, cells)
      else rest >>= λ r. some (current, set_next current r.0 r.1)

  -- The loop that stops at NULL or at a node that passes the test.
  unfoldable pub find : (A → Bool) → ℕ → Cells A → (aux : ℕ) → Option ℕ
  find test zero cells aux = none
  find test (suc fuel) cells aux =
      let rest = find test fuel cells (cells aux).next in
      if (aux == null) || test (cells aux).item then some aux else rest

  -- `destroy(current, …)`: the list without its first node that passes the test, which `free` gives
  -- back to the allocator of the state `K`.
  unfoldable pub remove :
      {K : Type 0}
      → (ℕ → K → Option K)
      → (A → Bool)
      → ℕ
      → (current : ℕ) → Cells A
      → K
      → Option (ℕ × Cells A × K)
  remove free test zero current cells k = none
  remove free test (suc fuel) current cells k =
      let aux = (cells current).next in
      let rest = remove free test fuel aux cells k in
      if current == null
      then some (null, cells, k)
      else (if test (cells current).item
          then free current k >>= (λ k1. some (aux, cells, k1))
          else rest >>= λ r. some (current, set_next current r.0 r.1, r.2))

  -- Of two writes to an item the second counts.
  pub set_item-set_item :
      (p : ℕ) (x y : A) (cells : Cells A) → set_item p y (set_item p x cells) ≡ set_item p y cells
  set_item-set_item p x y cells = fun_ext λ q. ground arith
