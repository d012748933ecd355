-- ===== src/Screens/Tests.antt =====
-- Runs of Kernel/screenLoader.c, and the witnesses.
use basic_kernel_implementat.Prelude.{ℕ, ◌≡◌, refl, true, some, arith, has}
use basic_kernel_implementat.Kernel.{null, Kernel}
use basic_kernel_implementat.Kernel.Lookup.{get_current_pid}
use basic_kernel_implementat.Memory.{
  allocate, allocate_blocks, find_blocks, search, scan, is_available, get_bit, set_bit, reserve,
  release, deallocate, deallocate_inside, deallocate_blocks,
}
use basic_kernel_implementat.Kernel.Samples.{two}
use basic_kernel_implementat.Screens.{
  sizeof_screen_node, sizeof_screen, remove_screen_inner, Screens, load_screen,
}
use basic_kernel_implementat.Screens.Linked.{freed, IsRemoved, remove_screen_inner-IsRemoved}
use basic_kernel_implementat.Screens.Switch.{screen_of, cursor_of, IsScreens, Shows}
use basic_kernel_implementat.Screens.Focus.{load_screen-Shows}
use basic_kernel_implementat.Screens.Samples.{last_node, both, pair, both-Linked, both-IsScreens}

load_screen-Shows_example :
    (s2 : Screens) × (load_screen 9 2 both ≡ some (1, s2))
    × (s2.on_focus_pid ≡ 2)
    × ((a : ℕ)
        → has a pair ≡ true
        → Shows both.video.memory
            (screen_of both a)
            (cursor_of both a)
            s2.video.memory
            (screen_of s2 a)
            (cursor_of s2 a))
    × IsScreens s2 pair
load_screen-Shows_example =
    load_screen-Shows 9 both pair both-IsScreens (omega arith) 2 0x109000 refl refl

-- Process 1 is gone, and its memory is free: the node is block 8, the screen starts at block 16.
abbrev released : Kernel
released = record two {
  alloc = record (two.alloc) { used_map = release 1 8 (release 8 16 two.alloc.used_map) };
}

both-freed : freed 1 both.nodes pair two ≡ some released
unfolding deallocate deallocate_inside deallocate_blocks
both-freed = refl

remove_screen_inner-IsRemoved_example :
    (head : ℕ) × (s' : Screens) × (remove_screen_inner 9 0x108000 null 1 both ≡ some (head, s'))
    × IsRemoved 1 null pair both s' head released
remove_screen_inner-IsRemoved_example =
    remove_screen_inner-IsRemoved 9 1 null 0x108000 pair both released both-Linked
      (refl, (refl, tt)) (omega arith) both-freed

-- Only process 2 has a screen, and process 0 runs.
abbrev alone : Screens
alone = record both {
  nodes = λ p. record last_node { prev = null };
  list = 0x109000;
  on_focus_pid = 2;
}

got_node :
    allocate two.alloc sizeof_screen_node ≡ (0x100000, (allocate two.alloc sizeof_screen_node).1)
unfolding allocate allocate_blocks find_blocks search scan is_available get_bit
got_node = refl

got_screen :
    allocate (allocate two.alloc sizeof_screen_node).1 sizeof_screen
    ≡ (0x103000, (allocate (allocate two.alloc sizeof_screen_node).1 sizeof_screen).1)
unfolding allocate allocate_blocks find_blocks search scan is_available get_bit reserve set_bit
got_screen = refl

runs_0 : 0 ≡ get_current_pid two
unfolding get_current_pid
runs_0 = refl
