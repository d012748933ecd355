-- ===== src/Screens/Linked.antt =====
-- The list of screens of Kernel/screenLoader.c, which is linked both ways: searching and removing.
use basic_kernel_implementat.Prelude.{
  Bool-cases, inl, inr, >>=->>=, true, false, ◌>>=◌, ℕ, zero, suc, ◌<◌, ◌≡◌, refl, ◌∙◌, ◌≢◌, Option,
  some, List, [], ◌∷◌, arith, ◌==◌, if◌then◌else◌, update, length, has, Distinct,
}
use basic_kernel_implementat.Kernel.{Kernel, null}
use basic_kernel_implementat.Kernel.Threads.{kernel_deallocate}
use basic_kernel_implementat.Screens.{
  Screens, unlink_screen, remove_screen_inner, set_next, ScreenNode, sizeof_screen_node,
  sizeof_screen, find_loop,
}

abbrev pub Nodes : Type 0
Nodes = ℕ → ScreenNode

-- From `p` the links lead through the nodes `xs` to NULL, and the links back lead to the node before,
-- from the first one to `prev`.
abbrev pub Linked : Nodes → (prev p : ℕ) → List ℕ → Type 0
Linked nodes prev p [] = p ≡ null
Linked nodes prev p (a ∷ xs) =
    (p ≡ a) × (a ≢ null) × ((nodes a).prev ≡ prev) × Linked nodes a (nodes a).next xs

pub Linked-frame :
    (nodes nodes' : Nodes) (prev p : ℕ) (xs : List ℕ)
    → ((a : ℕ)
        → has a xs ≡ true
        → ((nodes' a).next ≡ (nodes a).next) × ((nodes' a).prev ≡ (nodes a).prev))
    → Linked nodes prev p xs
    → Linked nodes' prev p xs
Linked-frame nodes nodes' prev p [] same l = l
Linked-frame nodes nodes' prev p (a ∷ xs) same l =
    let (n, b) = same a (ground arith) in
    (
      l.0,
      l.1,
      b ∙ l.2,
      rw n (Linked-frame nodes nodes' a (nodes a).next xs (λ c h. same c (ground arith)) l.3),
    )

-- The first node with the pid, or NULL.
abbrev pub first : (pid : ℕ) → Nodes → List ℕ → ℕ
first pid nodes [] = null
first pid nodes (a ∷ xs) = if (nodes a).pid == pid then a else first pid nodes xs

-- findScreenNodeByPid ends on a list that ends, and gives the first node with the pid, or NULL.
pub find_loop-first :
    (fuel pid prev p : ℕ) (xs : List ℕ) (nodes : Nodes)
    → Linked nodes prev p xs
    → length xs < fuel
    → find_loop fuel pid p nodes ≡ some (first pid nodes xs)
unfolding find_loop
find_loop-first zero pid prev p xs nodes l h = absurd (omega arith)
find_loop-first (suc fuel) pid prev p [] nodes l h = rw l refl
find_loop-first (suc fuel) pid prev p (a ∷ xs) nodes l h =
    let rest = find_loop-first fuel pid a (nodes a).next xs nodes l.3 (omega arith) in
    rw (l.0, rest) (ground (arith, l.1))

abbrev pub without : (pid : ℕ) → Nodes → List ℕ → List ℕ
without pid nodes [] = []
without pid nodes (a ∷ xs) = if (nodes a).pid == pid then xs else a ∷ without pid nodes xs

has-without :
    (pid : ℕ) (nodes : Nodes) (xs : List ℕ) (b : ℕ)
    → has b (without pid nodes xs) ≡ true
    → has b xs ≡ true
has-without pid nodes [] b h = h
has-without pid nodes (a ∷ xs) b h = ground (arith, has-without pid nodes xs b)

-- What the functions on the list leave alone.
pub record IsKept (xs : List ℕ) (nodes nodes' : Nodes) : Type 0 where
  pub pids : (a : ℕ) → (nodes' a).pid ≡ (nodes a).pid
  pub screens : (a : ℕ) → (nodes' a).screen ≡ (nodes a).screen
  pub positions : (a : ℕ) → (nodes' a).current_position ≡ (nodes a).current_position
  pub outside :
      (a : ℕ)
      → has a xs ≡ false
      → ((nodes' a).next ≡ (nodes a).next) × ((nodes' a).prev ≡ (nodes a).prev)

-- The kernel once the screen and the node of the process are given back.
abbrev pub freed : (pid : ℕ) → Nodes → List ℕ → Kernel → Option Kernel
freed pid nodes [] k = some k
freed pid nodes (a ∷ xs) k =
    if (nodes a).pid == pid
    then kernel_deallocate (nodes a).screen sizeof_screen k
      >>= (λ k1. kernel_deallocate a sizeof_screen_node k1)
    else freed pid nodes xs k

abbrev pub relinked : (prev next : ℕ) → Nodes → Nodes
relinked prev next nodes =
    if next == null then nodes else update nodes next (record (nodes next) { prev = prev })

relinked-Linked :
    (nodes : Nodes) (a prev p : ℕ) (xs : List ℕ)
    → Linked nodes a p xs
    → Distinct xs
    → Linked (relinked prev p nodes) prev p xs
relinked-Linked nodes a prev p [] l d = l
relinked-Linked nodes a prev p (b ∷ xs) l d =
    let next_same : (relinked prev p nodes b).next ≡ (nodes b).next = ground (arith, l.0, l.1) in
    let tail =
      Linked-frame nodes (relinked prev p nodes) b (nodes b).next xs
        (λ c h. (ground (arith, d.0, l.0, l.1), ground (arith, d.0, l.0, l.1))) l.3 in
    (l.0, l.1, ground (arith, l.0, l.1), rw next_same tail)

relinked-IsKept :
    (nodes : Nodes) (a prev p : ℕ) (xs : List ℕ)
    → Linked nodes a p xs
    → IsKept xs nodes (relinked prev p nodes)
relinked-IsKept nodes a prev p [] l = rw l (record {
  pids = λ b. refl;
  screens = λ b. refl;
  positions = λ b. refl;
  outside = λ b o. (refl, refl);
})
relinked-IsKept nodes a prev p (b ∷ xs) l = record {
  pids = λ c. ground arith;
  screens = λ c. ground arith;
  positions = λ c. ground arith;
  outside = λ c o. (ground (arith, l.0), ground (arith, l.0));
}

-- What removeScreenInner makes of the list `xs`, which it keeps linked both ways.
pub record IsRemoved (pid prev : ℕ) (xs : List ℕ) (s s' : Screens) (head : ℕ) (k : Kernel)
    : Type 0 where
  pub linked : Linked s'.nodes prev head (without pid s.nodes xs)
  pub kept : IsKept xs s.nodes s'.nodes
  pub others : s' ≡ record s { nodes = s'.nodes; kernel = k }

unlink_screen_lem :
    (a prev : ℕ) (s : Screens) (k : Kernel)
    → (relinked prev (s.nodes a).next s.nodes a).screen ≡ (s.nodes a).screen
    → (kernel_deallocate (s.nodes a).screen sizeof_screen s.kernel >>= λ k1.
        kernel_deallocate a sizeof_screen_node k1)
      ≡ some k
    → unlink_screen a prev s
      ≡ some (
        (s.nodes a).next,
        record s { nodes = relinked prev (s.nodes a).next s.nodes; kernel = k },
      )
unfolding unlink_screen
unlink_screen_lem a prev s k same done =
    let next = (s.nodes a).next in
    rw same (
      >>=->>= (kernel_deallocate (s.nodes a).screen sizeof_screen s.kernel)
        (λ k1. kernel_deallocate a sizeof_screen_node k1)
        (λ k2. (next, record s { nodes = relinked prev next s.nodes; kernel = k2 })) done)

unlink_screen-IsRemoved :
    (pid prev a : ℕ) (xs : List ℕ) (s : Screens) (k : Kernel)
    → Linked s.nodes prev a (a ∷ xs)
    → Distinct (a ∷ xs)
    → ((s.nodes a).pid == pid) ≡ true
    → freed pid s.nodes (a ∷ xs) s.kernel ≡ some k
    → (head : ℕ) × (s' : Screens) × (unlink_screen a prev s ≡ some (head, s'))
      × IsRemoved pid prev (a ∷ xs) s s' head k
unlink_screen-IsRemoved pid prev a xs s k l d hit done =
    let nodes1 = relinked prev (s.nodes a).next s.nodes in
    let kept = relinked-IsKept s.nodes a prev (s.nodes a).next xs l.3 in
    (
      (s.nodes a).next,
      record s { nodes = nodes1; kernel = k },
      unlinked,
      record {
        linked = rw hit (relinked-Linked s.nodes a prev (s.nodes a).next xs l.3 d.1);
        kept = record {
          pids = kept.pids;
          screens = kept.screens;
          positions = kept.positions;
          outside = λ b o. kept.outside b (ground arith);
        };
        others = refl;
      },
    )
  where
    unlinked :
        unlink_screen a prev s
        ≡ some (
          (s.nodes a).next,
          record s { nodes = relinked prev (s.nodes a).next s.nodes; kernel = k },
        )
    unlinked =
        unlink_screen_lem a prev s k
          ((relinked-IsKept s.nodes a prev (s.nodes a).next xs l.3).screens a) (rw hit at done)

remove_step-hit :
    (fuel pid prev p a : ℕ) (s : Screens)
    → p ≡ a
    → a ≢ null
    → ((s.nodes a).pid == pid) ≡ true
    → remove_screen_inner (suc fuel) p prev pid s ≡ unlink_screen a prev s
unfolding remove_screen_inner
remove_step-hit fuel pid prev p a s e proper hit = rw (e, hit) (ground (arith, proper))

remove_step-miss :
    (fuel pid prev p a head : ℕ) (s s1 : Screens)
    → p ≡ a
    → a ≢ null
    → ((s.nodes a).pid == pid) ≡ false
    → remove_screen_inner fuel (s.nodes a).next a pid s ≡ some (head, s1)
    → remove_screen_inner (suc fuel) p prev pid s ≡ some (a, set_next a head s1)
unfolding remove_screen_inner
remove_step-miss fuel pid prev p a head s s1 e proper miss rest =
    rw (e, miss, rest) (ground (arith, proper))

IsRemoved-cons :
    (pid prev a : ℕ) (xs : List ℕ) (s s1 : Screens) (head : ℕ) (k : Kernel)
    → a ≢ null
    → (s.nodes a).prev ≡ prev
    → has a xs ≡ false
    → ((s.nodes a).pid == pid) ≡ false
    → IsRemoved pid a xs s s1 head k
    → IsRemoved pid prev (a ∷ xs) s (set_next a head s1) a k
IsRemoved-cons pid prev a xs s s1 head k proper back once miss r =
    let nodes2 = (set_next a head s1).nodes in
    let next_is : (nodes2 a).next ≡ head = ground arith in
    let tail =
      Linked-frame s1.nodes nodes2 a head (without pid s.nodes xs)
        (λ c h. (ground (arith, has-without pid s.nodes xs c h, once), ground arith)) r.linked in
    record {
      linked =
          rw miss (refl, proper, ground (arith, (r.kept.outside a once).1, back), rw next_is tail);
      kept = record {
        pids = λ b. ground (arith, r.kept.pids b);
        screens = λ b. ground (arith, r.kept.screens b);
        positions = λ b. ground (arith, r.kept.positions b);
        outside = λ b o. (
          ground (arith, r.kept.outside b (ground arith)),
          ground (arith, r.kept.outside b (ground arith)),
        );
      };
      others = rw (r.others) refl;
    }

-- removeScreenInner ends on a list of distinct nodes that is linked both ways, with more fuel than it
-- has nodes, if the memory of the node that goes can be given back. The list without the first node
-- of the process is again linked both ways, and pids, screens and cursors stay as they were.
pub remove_screen_inner-IsRemoved :
    (fuel pid prev p : ℕ) (xs : List ℕ) (s : Screens) (k : Kernel)
    → Linked s.nodes prev p xs
    → Distinct xs
    → length xs < fuel
    → freed pid s.nodes xs s.kernel ≡ some k
    → (head : ℕ) × (s' : Screens) × (remove_screen_inner fuel p prev pid s ≡ some (head, s'))
      × IsRemoved pid prev xs s s' head k
remove_screen_inner-IsRemoved zero pid prev p xs s k l d h done = absurd (omega arith)
remove_screen_inner-IsRemoved (suc fuel) pid prev p [] s k l d h done = (
  null,
  s,
  unfold remove_screen_inner in rw l refl,
  record {
    linked = refl;
    kept = record {
      pids = λ a. refl;
      screens = λ a. refl;
      positions = λ a. refl;
      outside = λ a o. (refl, refl);
    };
    others = ground (arith, done);
  },
)
remove_screen_inner-IsRemoved (suc fuel) pid prev p (a ∷ xs) s k l d h done =
    elim (Bool-cases ((s.nodes a).pid == pid)) [
      | inl hit ↦
          let (head, s1, out, r) =
            unlink_screen-IsRemoved pid prev a xs s k (refl, l.1, l.2, l.3) d hit done in
          (head, s1, remove_step-hit fuel pid prev p a s l.0 l.1 hit ∙ out, r)
      | inr miss ↦
          let (head, s1, out, r) =
            remove_screen_inner-IsRemoved fuel pid a (s.nodes a).next xs s k l.3 d.1 (omega arith)
              (rw miss at done) in
          (
            a,
            set_next a head s1,
            remove_step-miss fuel pid prev p a head s s1 l.0 l.1 miss out,
            IsRemoved-cons pid prev a xs s s1 head k l.1 l.2 d.0 miss r,
          )
    ]
