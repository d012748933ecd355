-- ===== src/Keyboard/Handler.antt =====
-- keyBoardHandler of Kernel/keyBoadDriver.c: keys that change the state of the keyboard, switch the
-- screen, or give a character. What the ports hold, which assembly reads, is a parameter.
use basic_kernel_implementat.Prelude.{
  ℕ, ◌<◌, ◌≡◌, refl, ◌≢◌, ◌⊎◌, inl, inr, Bool, true, false, Option, some, List, [], ◌∷◌, arith, leb,
  ◌==◌, if◌then◌else◌, Bool-cases, length, has, ◌>>=◌,
}
use basic_kernel_implementat.Kernel.{null}
use basic_kernel_implementat.Keyboard.{
  previous_screen, next_screen, stay, Keyboard, press_shift, ScreenSwap, check_swap_screen,
  character_of, put_key,
}
use basic_kernel_implementat.Screens.{
  no_focus, Screens, get_focus_process_pid, load_neighbour, load_next_screen, load_previous_screen,
}
use basic_kernel_implementat.Screens.Linked.{Nodes, Linked}
use basic_kernel_implementat.Screens.Switch.{screen_of, cursor_of, IsScreens, Shows}
use basic_kernel_implementat.Screens.Focus.{load_screen-Shows, found_it}

-- The calls of checkSwapScreen.
unfoldable pub swap_screen : ℕ → ScreenSwap → Screens → Option Screens
swap_screen fuel stay s = some s
swap_screen fuel previous_screen s = load_previous_screen fuel s
swap_screen fuel next_screen s = load_next_screen fuel s

-- The part behind checkSwapScreen.
unfoldable pub store_key : ℕ → (key : ℕ) → Keyboard → Screens → Option (Keyboard × Screens)
store_key fuel key b s =
    let stored = put_key fuel (get_focus_process_pid s) (character_of key b) b s.kernel in
    if leb 128 key then some (b, s) else stored >>= λ r. some (r.0, record s { kernel = r.1 })

unfoldable pub key_board_handler :
    ℕ
    → (check_keyboard : Bool) (get_keyboard : ℕ) → Keyboard
    → Screens
    → Option (Keyboard × Screens)
key_board_handler fuel check_keyboard key b s =
    let (b1, swap) = check_swap_screen key (press_shift key b) in
    let handled = swap_screen fuel swap s >>= λ s1. store_key fuel key b1 s1 in
    if check_keyboard then handled else some (b, s)

Linked-next :
    (nodes : Nodes) (prev p : ℕ) (xs : List ℕ) (a : ℕ)
    → Linked nodes prev p xs
    → has a xs ≡ true
    → ((nodes a).next ≡ null) ⊎ (has (nodes a).next xs ≡ true)
Linked-next nodes prev p [] a l h = absurd (ground arith)
Linked-next nodes prev p (b ∷ []) a l h = inl (ground (arith, l.3))
Linked-next nodes prev p (b ∷ c ∷ xs) a l h = elim (Bool-cases (b == a)) [
  | inl here ↦ inr (ground (arith, l.3.0))
  | inr there ↦ elim (Linked-next nodes b (nodes b).next (c ∷ xs) a l.3 (ground arith)) [
    | inl last ↦ inl last
    | inr more ↦ inr (ground arith)
  ]
]

module _ (fuel : ℕ) (s : Screens) (xs : List ℕ) (ok : IsScreens s xs) (enough : length xs < fuel)
    (q : ℕ) (in_xs : has q xs ≡ true) (is_pid : (s.nodes q).pid ≡ s.on_focus_pid)
    (some_focus : s.on_focus_pid ≢ no_focus) where
  load_next_screen-Shows :
      (s.nodes q).next ≢ null
      → (s2 : Screens) × (load_next_screen fuel s ≡ some s2)
        × (s2.on_focus_pid ≡ (s.nodes (s.nodes q).next).pid)
        × ((a : ℕ)
            → has a xs ≡ true
            → Shows s.video.memory
                (screen_of s a)
                (cursor_of s a)
                s2.video.memory
                (screen_of s2 a)
                (cursor_of s2 a))
        × IsScreens s2 xs
  unfolding load_next_screen load_neighbour
  load_next_screen-Shows more =
      let p = (s.nodes q).next in
      let in_p : has p xs ≡ true = elim (Linked-next s.nodes null s.list xs q ok.linked in_xs) [
        | inl last ↦ absurd (more last)
        | inr there ↦ there
      ] in
      let (s2, loaded, focus, shown, ok2) =
        load_screen-Shows fuel s xs ok enough (s.nodes p).pid p in_p refl in
      let (there, _) = found_it fuel s xs ok enough s.on_focus_pid q in_xs is_pid in
      let focused : (s.on_focus_pid == no_focus) ≡ false = ground (arith, some_focus) in
      let next_node : (p == null) ≡ false = ground (arith, more) in
      (s2, rw (focused, there, loaded, next_node) refl, focus, shown, ok2)

  -- The right arrow with alt held, where the screen of the process that has the focus is not the
  -- last of the list: the handler ends, the process of the next screen gets the focus, no process's
  -- bytes and cursor change, the screens stay well formed, and no character is stored.
  pub key_board_handler-next :
      (b : Keyboard)
      → b.alt_key ≡ true
      → (s.nodes q).next ≢ null
      → (s2 : Screens) × (key_board_handler fuel true 0x4D b s ≡ some (b, s2))
        × (s2.on_focus_pid ≡ (s.nodes (s.nodes q).next).pid)
        × ((a : ℕ)
            → has a xs ≡ true
            → Shows s.video.memory
                (screen_of s a)
                (cursor_of s a)
                s2.video.memory
                (screen_of s2 a)
                (cursor_of s2 a))
        × IsScreens s2 xs
  unfolding key_board_handler store_key get_focus_process_pid swap_screen check_swap_screen
      press_shift put_key character_of
  key_board_handler-next b alt more =
      let (s2, loaded, focus, shown, ok2) = load_next_screen-Shows more in
      (s2, rw (alt, loaded) (ground (arith, alt)), focus, shown, ok2)
