-- ===== src/Console/Tests.antt =====
-- Runs of Kernel/naiveConsole.c, and the witness.
use basic_kernel_implementat.Prelude.{◌+◌, ◌≡◌, refl, some, ◌>>=◌}
use basic_kernel_implementat.Console.{
  video, Console, nc_print_loop, nc_print, digits_loop, reverse_loop, uint_to_base, nc_print_base,
  nc_print_hex,
}

abbrev console : Console
console = record { buffer = λ _. 0; cells = λ _. 0; current_video = video + 158 }

-- 0x1F is printed as "1F".
printed_hex : (nc_print_hex 40 0x1F console >>= λ c. some (c.cells (video + 160))) ≡ some 70
unfolding nc_print_hex nc_print_base nc_print uint_to_base digits_loop reverse_loop nc_print_loop
printed_hex = refl
