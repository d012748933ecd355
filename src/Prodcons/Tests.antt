-- ===== src/Prodcons/Tests.antt =====
-- Steps of the producer and the consumer of Userland/SampleCodeModule/shell.c.
use basic_kernel_implementat.Prelude.{◌≡◌, ℕ, ◌≤◌, refl, Bool, true, false, List, [], ◌∷◌, length}
use basic_kernel_implementat.Prodcons.{
  globals, prodcons, produce, consume, produces, consumes, starts, Reach, insert_item, remove_item,
  waits_for_place, waits_for_item, Shop,
}
use basic_kernel_implementat.Prodcons.Order.{HoldsItems, Reach-HoldsItems, Reach-never_stuck}

-- The consumer waits; the producer makes an item and tells of it; the consumer takes it.
abbrev run : List Bool → Shop → Shop
run [] s = s
run (true ∷ steps) s = run steps (produce s.producing s)
run (false ∷ steps) s = run steps (consume s.consuming s)

abbrev schedule : List Bool
schedule = false ∷ true ∷ true ∷ true ∷ true ∷ true ∷ false ∷ false ∷ false ∷ []

run_test : ◌≡◌ {A = List ℕ} (run schedule (prodcons (globals (λ _. 0)))).removed (1 ∷ [])
unfolding prodcons produce consume insert_item remove_item
run_test = refl

run-Reach : (steps : List Bool) {s : Shop} → Reach (λ _. 0) s → Reach (λ _. 0) (run steps s)
run-Reach [] r = r
run-Reach (true ∷ steps) r = run-Reach steps (produces r)
run-Reach (false ∷ steps) r = run-Reach steps (consumes r)

abbrev after_run : Shop
after_run = run schedule (prodcons (globals (λ _. 0)))

Reach-HoldsItems_example : (q : List ℕ) × HoldsItems after_run q × (length q ≤ 100)
Reach-HoldsItems_example = Reach-HoldsItems (λ _. 0) after_run (run-Reach schedule starts)

Reach-never_stuck_example :
    ¬ ((after_run.producing ≡ waits_for_place) × (after_run.consuming ≡ waits_for_item))
Reach-never_stuck_example = Reach-never_stuck (λ _. 0) after_run (run-Reach schedule starts)
