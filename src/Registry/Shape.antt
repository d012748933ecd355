-- ===== src/Registry/Shape.antt =====
-- The lists as sequences of addresses: what adding, finding and removing make of them.
use basic_kernel_implementat.Prelude.{
  ℕ, zero, suc, ◌<◌, ◌≡◌, ◌≢◌, refl, inl, inr, List, [], ◌∷◌, ◌++◌, Bool, true, false, Option, none,
  some, arith, length, if◌then◌else◌, Bool-cases, Chain, Chain-frame, All, All-has, has, has-append,
  Distinct,
}
use basic_kernel_implementat.Kernel.{null}
use basic_kernel_implementat.Registry.{Cells, set_next, add, find, remove}

module _ {A : Type 0} where
  abbrev pub link : Cells A → ℕ → ℕ
  link cells a = (cells a).next

  -- A list of the nodes `xs`, each once, from `p` to NULL.
  pub record IsList (cells : Cells A) (p : ℕ) (xs : List ℕ) : Type 0 where
    pub links : Chain (link cells) p xs null
    pub proper : has null xs ≡ false
    pub distinct : Distinct xs

  -- What the functions leave alone: the items, and the links outside the list.
  pub record IsKept (xs : List ℕ) (cells cells' : Cells A) : Type 0 where
    pub items : (a : ℕ) → (cells' a).item ≡ (cells a).item
    pub outside : (a : ℕ) → has a xs ≡ false → link cells' a ≡ link cells a

  -- The list `xs` with the node behind it; it goes on to wherever the node's own link leads.
  pub record IsAdded (cells : Cells A) (xs : List ℕ) (node head : ℕ) (cells' : Cells A)
      : Type 0 where
    pub links : Chain (link cells') head (xs ++ (node ∷ [])) (link cells node)
    pub kept : IsKept xs cells cells'

  IsAdded-cons :
      (cells : Cells A) (a : ℕ) (xs : List ℕ) (node head : ℕ) (cells1 : Cells A)
      → has a xs ≡ false
      → has node (a ∷ xs) ≡ false
      → IsAdded cells xs node head cells1
      → IsAdded cells (a ∷ xs) node a (set_next a head cells1)
  IsAdded-cons cells a xs node head cells1 once new r = record {
    links = (
      refl,
      rw (link-self) (
          Chain-frame (link cells1) (link (set_next a head cells1)) head (xs ++ (node ∷ []))
            (link cells node) (λ b i. ground (arith, has-append b xs (node ∷ []))) r.links),
    );
    kept = record {
      items = λ b. ground (arith, r.kept.items b);
      outside = λ b o. ground (arith, r.kept.outside b);
    };
  }
    where
      link-self : link (set_next a head cells1) a ≡ head
      link-self = ground arith

  add-cons :
      (fuel p a node head : ℕ) (cells cells1 : Cells A)
      → p ≡ a
      → a ≢ null
      → add fuel (link cells a) node cells ≡ some (head, cells1)
      → add (suc fuel) p node cells ≡ some (a, set_next a head cells1)
  unfolding add
  add-cons fuel p a node head cells cells1 e proper done = rw (e, done) (ground arith)

  -- Adding ends, and puts the node at the end of the list.
  pub add-IsAdded :
      (fuel p node : ℕ) (xs : List ℕ) (cells : Cells A)
      → IsList cells p xs
      → has node xs ≡ false
      → length xs < fuel
      → (head : ℕ) × (cells' : Cells A) × (add fuel p node cells ≡ some (head, cells'))
        × IsAdded cells xs node head cells'
  add-IsAdded zero p node xs cells l new h = absurd (omega arith)
  add-IsAdded (suc fuel) p node [] cells l new h = (
    node,
    cells,
    unfold add in rw (l.links),
    record { links = (refl, refl); kept = record { items = λ a. refl; outside = λ a _. refl } },
  )
  add-IsAdded (suc fuel) p node (a ∷ xs) cells l new h =
      let tail : IsList cells (link cells a) xs = record {
        links = l.links.1;
        proper = ground (arith, l.proper);
        distinct = l.distinct.1;
      } in
      let (head, cells1, done, r) =
        add-IsAdded fuel (link cells a) node xs cells tail (ground arith) (omega arith) in
      (
        a,
        set_next a head cells1,
        add-cons fuel p a node head cells cells1 l.links.0 (ground (arith, l.proper)) done,
        IsAdded-cons cells a xs node head cells1 l.distinct.0 new r,
      )

  -- The first node that passes the test, or NULL.
  abbrev pub first : (A → Bool) → Cells A → List ℕ → ℕ
  first test cells [] = null
  first test cells (a ∷ xs) = if test (cells a).item then a else first test cells xs

  pub find-first :
      (test : A → Bool) (fuel p : ℕ) (xs : List ℕ) (cells : Cells A)
      → Chain (link cells) p xs null
      → has null xs ≡ false
      → length xs < fuel
      → find test fuel cells p ≡ some (first test cells xs)
  unfolding find
  find-first test zero p xs cells c proper h = absurd (omega arith)
  find-first test (suc fuel) p [] cells c proper h = rw c
  find-first test (suc fuel) p (a ∷ xs) cells c proper h =
      let rest = find-first test fuel (link cells a) xs cells c.1 (ground arith) (omega arith) in
      rw (c.0, rest) (ground arith)

  -- On links that never reach NULL the search for an item that is not there does not end.
  pub find-endless :
      (test : A → Bool) (fuel p : ℕ) (xs : List ℕ) (cells : Cells A)
      → has p xs ≡ true
      → All (λ a. has (link cells a) xs ≡ true) xs
      → has null xs ≡ false
      → All (λ a. test (cells a).item ≡ false) xs
      → find test fuel cells p ≡ none
  unfolding find
  find-endless test zero p xs cells inside closed proper absent = refl
  find-endless test (suc fuel) p xs cells inside closed proper absent =
      let more =
        find-endless test fuel (link cells p) xs cells
          (All-has (λ a. has (link cells a) xs ≡ true) xs p closed inside) closed proper absent in
      ground (arith, more, All-has (λ a. test (cells a).item ≡ false) xs p absent inside)

  -- The list less the first node that passes the test, and the state once that node is freed.
  abbrev pub without : (A → Bool) → Cells A → List ℕ → List ℕ
  without test cells [] = []
  without test cells (a ∷ xs) = if test (cells a).item then xs else a ∷ without test cells xs

  has-without :
      (test : A → Bool) (cells : Cells A) (xs : List ℕ) (b : ℕ)
      → has b (without test cells xs) ≡ true
      → has b xs ≡ true
  has-without test cells [] b h = h
  has-without test cells (a ∷ xs) b h = ground (arith, has-without test cells xs b)

  pub record IsRemoved (test : A → Bool) (cells : Cells A) (xs : List ℕ) (head : ℕ)
      (cells' : Cells A) : Type 0 where
    pub links : Chain (link cells') head (without test cells xs) null
    pub kept : IsKept xs cells cells'

  module _ {K : Type 0} (free : ℕ → K → Option K) (test : A → Bool) where
    abbrev pub freed : Cells A → List ℕ → K → Option K
    freed cells [] k = some k
    freed cells (a ∷ xs) k = if test (cells a).item then free a k else freed cells xs k

    IsRemoved-cons :
        (cells : Cells A) (a : ℕ) (xs : List ℕ) (head : ℕ) (cells1 : Cells A)
        → has a xs ≡ false
        → test (cells a).item ≡ false
        → IsRemoved test cells xs head cells1
        → IsRemoved test cells (a ∷ xs) a (set_next a head cells1)
    IsRemoved-cons cells a xs head cells1 once miss r =
        let link-self : link (set_next a head cells1) a ≡ head = ground arith in
        let rest =
          Chain-frame (link cells1) (link (set_next a head cells1)) head (without test cells xs)
            null (λ b i. ground (arith, has-without test cells xs b i)) r.links in
        record {
          links = rw miss (refl, rw link-self rest);
          kept = record {
            items = λ b. ground (arith, r.kept.items b);
            outside = λ b o. ground (arith, r.kept.outside b);
          };
        }

    remove-miss :
        (fuel p a head : ℕ) (cells cells1 : Cells A) (k k1 : K)
        → p ≡ a
        → a ≢ null
        → test (cells a).item ≡ false
        → remove free test fuel (link cells a) cells k ≡ some (head, cells1, k1)
        → remove free test (suc fuel) p cells k ≡ some (a, set_next a head cells1, k1)
    unfolding remove
    remove-miss fuel p a head cells cells1 k k1 e proper miss done =
        rw (e, miss, done) (ground arith)

    remove-hit :
        (fuel p a : ℕ) (cells : Cells A) (k k1 : K)
        → p ≡ a
        → a ≢ null
        → test (cells a).item ≡ true
        → free a k ≡ some k1
        → remove free test (suc fuel) p cells k ≡ some (link cells a, cells, k1)
    unfolding remove
    remove-hit fuel p a cells k k1 e proper hit done = rw (e, hit, done) (ground arith)

    -- On a list of distinct nodes that ends at NULL, with more fuel than it has nodes: removing
    -- ends, frees the first node that passes the test if there is one, if that succeeds, and leaves
    -- the other nodes in their order.
    pub remove-IsRemoved :
        (fuel p : ℕ) (xs : List ℕ) (cells : Cells A) (k k1 : K)
        → IsList cells p xs
        → length xs < fuel
        → freed cells xs k ≡ some k1
        → (head : ℕ) × (cells' : Cells A) × (remove free test fuel p cells k
            ≡ some (head, cells', k1))
          × IsRemoved test cells xs head cells'
    remove-IsRemoved zero p xs cells k k1 l h done = absurd (omega arith)
    remove-IsRemoved (suc fuel) p [] cells k k1 l h done = (
      null,
      cells,
      unfold remove in rw (l.links) (ground arith),
      record { links = refl; kept = record { items = λ a. refl; outside = λ a _. refl } },
    )
    remove-IsRemoved (suc fuel) p (a ∷ xs) cells k k1 l h done =
        elim (Bool-cases (test (cells a).item)) [
          | inl hit ↦ (
            link cells a,
            cells,
            remove-hit fuel p a cells k k1 l.links.0 (ground (arith, l.proper)) hit
                (rw hit at done),
            record {
              links = rw hit (l.links.1);
              kept = record { items = λ b. refl; outside = λ b _. refl };
            },
          )
          | inr miss ↦
              let tail : IsList cells (link cells a) xs = record {
                links = l.links.1;
                proper = ground (arith, l.proper);
                distinct = l.distinct.1;
              } in
              let (head, cells1, removed, r) =
                remove-IsRemoved fuel (link cells a) xs cells k k1 tail (omega arith)
                  (rw miss at done) in
              (
                a,
                set_next a head cells1,
                remove-miss fuel p a head cells cells1 k k1 l.links.0 (ground (arith, l.proper))
                    miss removed,
                IsRemoved-cons cells a xs head cells1 l.distinct.0 miss r,
              )
        ]

  pub first-snoc :
      (test : A → Bool) (cells : Cells A) (xs : List ℕ) (m : ℕ)
      → All (λ a. test (cells a).item ≡ false) xs
      → test (cells m).item ≡ true
      → first test cells (xs ++ (m ∷ [])) ≡ m
  first-snoc test cells [] m miss hit = rw hit
  first-snoc test cells (a ∷ xs) m miss hit = rw miss.0 (first-snoc test cells xs m miss.1 hit)

  -- The search reads the links and the test only.
  pub find-same :
      (test : A → Bool) (fuel p : ℕ) (cells cells' : Cells A)
      → ((a : ℕ) → link cells' a ≡ link cells a)
      → ((a : ℕ) → test (cells' a).item ≡ test (cells a).item)
      → find test fuel cells' p ≡ find test fuel cells p
  unfolding find
  find-same test zero p cells cells' links tests = refl
  find-same test (suc fuel) p cells cells' links tests =
      ground (arith, links p, tests p, find-same test fuel (link cells' p) cells cells' links tests)
