-- ===== src/Loader.antt =====
-- Kernel/lib.c and Kernel/moduleLoader.c: filling and copying memory, and the modules behind the
-- kernel's binary. The memory is a function from addresses to bytes; the console has its own.
pub mod Copying
pub mod Announce
pub mod Packing
pub mod RoundTrip
mod Tests
use basic_kernel_implementat.Prelude.{
  ◌>>=◌, ℕ, zero, suc, ◌+◌, ◌*◌, ◌/◌, ◌%◌, ◌^◌, ◌&&◌, Option, some, List, [], ◌∷◌, ◌==◌,
  if◌then◌else◌, update, length, get_or,
}
use basic_kernel_implementat.Text.{Chars}
use basic_kernel_implementat.Video.{copy_loop}
use basic_kernel_implementat.Console.{Console, nc_print, nc_print_hex, nc_print_dec, nc_newline}

-- The last byte first.
unfoldable pub set_loop : (chr destination length : ℕ) → Chars → Chars
set_loop chr destination zero m = m
set_loop chr destination (suc length) m =
    set_loop chr destination length (update m (destination + length) chr)

unfoldable pub memset : (destination c length : ℕ) → Chars → Chars
memset destination c length m = set_loop (c % 256) destination length m

-- A word at `d` becomes the word at `s`.
abbrev pub copy_word : (d s : ℕ) → Chars → Chars
copy_word d s m =
    update (update (update (update m d (m s)) (d + 1) (m (s + 1))) (d + 2) (m (s + 2))) (d + 3)
      (m (s + 3))

unfoldable pub word_loop : (words d s : ℕ) → Chars → Chars
word_loop zero d s m = m
word_loop (suc words) d s m = word_loop words (d + 4) (s + 4) (copy_word d s m)

unfoldable pub memcpy : (destination source length : ℕ) → Chars → Chars
memcpy destination source length m =
    if (destination % 4 == 0) && (source % 4 == 0) && (length % 4 == 0)
    then word_loop (length / 4) destination source m
    else copy_loop length destination source m

-- The number at an address, the lowest byte first.
abbrev pub uint32_at : Chars → ℕ → ℕ
uint32_at m p = m p + m (p + 1) * 2 ^ 8 + m (p + 2) * 2 ^ 16 + m (p + 3) * 2 ^ 24

-- The number, and the address behind it.
unfoldable pub read_uint32 : (address : ℕ) → Chars → ℕ × ℕ
read_uint32 address m = (uint32_at m address, address + 4)

-- A string literal.
abbrev pub literal : List ℕ → Chars
literal text i = get_or text i 0

abbrev pub will_copy : List ℕ
will_copy =
    32 ∷ 32 ∷ 87 ∷ 105 ∷ 108 ∷ 108 ∷ 32 ∷ 99 ∷ 111 ∷ 112 ∷ 121 ∷ 32 ∷ 109 ∷ 111 ∷ 100 ∷ 117 ∷ 108
    ∷ 101 ∷ 32 ∷ 97 ∷ 116 ∷ 32 ∷ 48 ∷ 120 ∷ []

abbrev pub to_address : List ℕ
to_address = 32 ∷ 116 ∷ 111 ∷ 32 ∷ 48 ∷ 120 ∷ []

abbrev pub open_paren : List ℕ
open_paren = 32 ∷ 40 ∷ []

abbrev pub bytes_close : List ℕ
bytes_close = 32 ∷ 98 ∷ 121 ∷ 116 ∷ 101 ∷ 115 ∷ 41 ∷ []

abbrev pub done_text : List ℕ
done_text = 32 ∷ 91 ∷ 68 ∷ 111 ∷ 110 ∷ 101 ∷ 93 ∷ []

-- What loadModule prints before and behind the copy.
unfoldable pub announce : ℕ → (module_at target module_size : ℕ) → Console → Option Console
announce fuel module_at target module_size c = do
  c1 ← nc_print fuel (literal will_copy) c
  c2 ← nc_print_hex fuel module_at c1
  c3 ← nc_print fuel (literal to_address) c2
  c4 ← nc_print_hex fuel target c3
  c5 ← nc_print fuel (literal open_paren) c4
  c6 ← nc_print_dec fuel module_size c5
  nc_print fuel (literal bytes_close) c6

unfoldable pub confirm : ℕ → Console → Option Console
confirm fuel c = do c1 ← nc_print fuel (literal done_text) c; nc_newline fuel c1

-- The address behind the module, and the memory.
unfoldable pub load_module :
    ℕ → (current target : ℕ) → Chars → Console → Option (ℕ × Chars × Console)
load_module fuel current target m c = do
  let (module_size, module_at) = read_uint32 current m
  c1 ← announce fuel module_at target module_size c
  c2 ← confirm fuel c1
  some (module_at + module_size, memcpy target module_at module_size m, c2)

-- The loop of loadModules, with `left` modules to go.
unfoldable pub load_loop :
    ℕ → (left i current : ℕ) → (targets : ℕ → ℕ) → Chars → Console → Option (Chars × Console)
load_loop fuel zero i current targets m c = some (m, c)
load_loop fuel (suc left) i current targets m c = load_module fuel current (targets i) m c >>= λ r.
    load_loop fuel left (i + 1) r.0 targets r.1 r.2

unfoldable pub load_modules :
    ℕ → (payload_start : ℕ) → (targets : ℕ → ℕ) → Chars → Console → Option (Chars × Console)
load_modules fuel payload_start targets m c =
    let (module_count, current) = read_uint32 payload_start m in
    load_loop fuel module_count 0 current targets m c
