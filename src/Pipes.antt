-- ===== src/Pipes.antt =====
-- Kernel/pipefs.c: pipes between processes, found by a name that holds the two pids. The characters of
-- names, buffers and callers lie in one memory.
pub mod Names
pub mod Buffer
pub mod Reading
pub mod Writing
mod Tests
use basic_kernel_implementat.Prelude.{
  ℕ, zero, suc, ◌+◌, ◌-◌, ◌*◌, ◌%◌, ◌^◌, Bool, false, ◌&&◌, ◌||◌, Option, none, some, ◌==◌,
  if◌then◌else◌, ◌>>=◌, update,
}
use basic_kernel_implementat.Kernel.{Kernel, null, t_blocked_pipe}
use basic_kernel_implementat.Kernel.Lookup.{get_current_pthread}
use basic_kernel_implementat.Kernel.Threads.{kernel_allocate}
use basic_kernel_implementat.Kernel.Blocking.{block_thread, unblock_all_threads}
use basic_kernel_implementat.Registry
use basic_kernel_implementat.Registry.{Cells, set_item}
use basic_kernel_implementat.Text.{Chars, itoa}

abbrev pub name_size : ℕ
name_size = 50

abbrev pub pipe_buf_size : ℕ
pipe_buf_size = 4096

-- The character '-'.
abbrev pub dash : ℕ
dash = 45

-- A node's fields but `next`, which `Registry.Node` has.
pub record PipeNode : Type 0 where
  pub name : ℕ
  pub buffer : ℕ
  pub read_pointer : ℕ
  pub write_pointer : ℕ

abbrev pub sizeof_pipe_node : ℕ
sizeof_pipe_node = 40

-- The global of pipefs.c, the memory of its nodes and of characters, and the kernel that it calls.
pub record Pipes : Type 0 where
  pub kernel : Kernel
  pub nodes : Cells PipeNode
  pub chars : Chars
  pub pipe_list : ℕ

abbrev pub set_pipe : ℕ → PipeNode → Pipes → Pipes
set_pipe p x s = record s { nodes = set_item p x s.nodes }

unfoldable pub create_name : ℕ → (from_pid to_pid name : ℕ) → Chars → Option Chars
create_name fuel from_pid to_pid name c = do
  r ← itoa fuel from_pid name c
  r2 ← itoa fuel to_pid (name + r.0 + 1) (update r.1 (name + r.0) dash)
  some r2.1

-- The first loop of getReceiverPid: the place behind the dash.
unfoldable pub skip_sender : ℕ → Chars → (p : ℕ) → Option ℕ
skip_sender zero c p = none
skip_sender (suc fuel) c p =
    let rest = skip_sender fuel c (p + 1) in if c p == dash then some (p + 1) else rest

unfoldable pub parse_pid : ℕ → Chars → (p pid : ℕ) → Option ℕ
parse_pid zero c p pid = none
parse_pid (suc fuel) c p pid =
    let rest = parse_pid fuel c (p + 1) ((pid * 10 + c p + 2 ^ 32 - 48) % 2 ^ 32) in
    if c p == 0 then some pid else rest

unfoldable pub get_receiver_pid : ℕ → (name : ℕ) → Chars → Option ℕ
get_receiver_pid fuel name c = skip_sender fuel c name >>= λ p. parse_pid fuel c p 0

unfoldable pub equal_name : ℕ → (str1 str2 : ℕ) → Chars → Option Bool
equal_name zero str1 str2 c = none
equal_name (suc fuel) str1 str2 c =
    let rest = equal_name fuel (str1 + 1) (str2 + 1) c in
    if c str1 == 0 then some (c str1 == c str2) else (if c str1 == c str2 then rest else some false)

unfoldable pub get_pipe : ℕ → (name current : ℕ) → Pipes → Option ℕ
get_pipe zero name current s = none
get_pipe (suc fuel) name current s =
    let rest = get_pipe fuel name (s.nodes current).next s in
    if current == null
    then some null
    else equal_name fuel name (s.nodes current).item.name s.chars >>= λ same.
        if same then some current else rest

unfoldable pub pointer_position : (current_pointer buffer : ℕ) → ℕ
pointer_position current_pointer buffer =
    if current_pointer == buffer + pipe_buf_size then buffer else current_pointer

unfoldable pub clear_buffer : (left i buffer : ℕ) → Chars → Chars
clear_buffer zero i buffer c = c
clear_buffer (suc left) i buffer c = clear_buffer left (i + 1) buffer (update c (buffer + i) 0)

-- `next` of the new node keeps what the memory held.
unfoldable pub create_pipe : ℕ → (from_pid to_pid : ℕ) → Pipes → Option (ℕ × Pipes)
create_pipe fuel from_pid to_pid s = do
  let (pipe, k1) = kernel_allocate sizeof_pipe_node s.kernel
  let (name, k2) = kernel_allocate name_size k1
  c ← create_name fuel from_pid to_pid name s.chars
  let (buffer, k3) = kernel_allocate pipe_buf_size k2
  let x : PipeNode = record {
    name = name;
    buffer = buffer;
    read_pointer = buffer;
    write_pointer = buffer;
  }
  some (
    pipe,
    set_pipe pipe x (record s { kernel = k3; chars = clear_buffer pipe_buf_size 0 buffer c }),
  )

unfoldable pub do_pipe : ℕ → (from_pid to_pid : ℕ) → Pipes → Option (ℕ × Pipes)
do_pipe fuel from_pid to_pid s = do
  p ← create_pipe fuel from_pid to_pid s
  r ← Registry.add fuel p.1.pipe_list p.0 p.1.nodes
  some ((r.1 p.0).item.name, record p.1 { nodes = r.1; pipe_list = r.0 })

-- One round of the loop of writeToPipe at a character that is not 0: the character is stored, the
-- receiver's threads are woken, and the pointer goes on.
unfoldable pub put_char : ℕ → (pipe pid character : ℕ) → Pipes → Option Pipes
put_char fuel pipe pid character s = do
  let x = (s.nodes pipe).item
  k ← unblock_all_threads fuel pid t_blocked_pipe s.kernel
  let w = pointer_position (x.write_pointer + 1) x.buffer
  some (
      set_pipe pipe (record x { write_pointer = w })
        (record s { kernel = k; chars = update s.chars x.write_pointer character }))

-- A full pipe ends the loop.
unfoldable pub write_loop : ℕ → (left pipe pid buff : ℕ) → Pipes → Option Pipes
write_loop fuel zero pipe pid buff s = none
write_loop fuel (suc left) pipe pid buff s =
    let rest =
      put_char fuel pipe pid (s.chars buff) s
      >>= (λ s1. write_loop fuel left pipe pid (buff + 1) s1) in
    let room = s.chars (s.nodes pipe).item.write_pointer == 0 in
    if s.chars buff == 0 then some s else (if room then rest else some s)

unfoldable pub write_to_pipe : ℕ → (name buff : ℕ) → Pipes → Option Pipes
write_to_pipe fuel name buff s = do
  pipe ← get_pipe fuel name s.pipe_list s
  (if (pipe == null) || (buff == null)
      then some s
      else get_receiver_pid fuel name s.chars >>= λ pid. write_loop fuel fuel pipe pid buff s)

-- One round of the loop of readFromPipe.
unfoldable pub take_char : (pipe buff : ℕ) → Pipes → Pipes
take_char pipe buff s =
    let x = (s.nodes pipe).item in
    let c1 = update s.chars buff (s.chars x.read_pointer) in
    set_pipe pipe (record x { read_pointer = pointer_position (x.read_pointer + 1) x.buffer })
      (record s { chars = update c1 x.read_pointer 0 })

unfoldable pub read_loop : ℕ → (pipe buff : ℕ) → Pipes → Option Pipes
read_loop zero pipe buff s = none
read_loop (suc left) pipe buff s =
    let s1 = take_char pipe buff s in
    let rest = read_loop left pipe (buff + 1) s1 in
    if (s1.nodes pipe).item.read_pointer == (s1.nodes pipe).item.write_pointer
    then some s1
    else rest

unfoldable pub wait_for_pipe : ℕ → (name : ℕ) → Pipes → Option Pipes
wait_for_pipe fuel name s = do
  pid ← get_receiver_pid fuel name s.chars
  k ← block_thread fuel pid (get_current_pthread s.kernel) t_blocked_pipe s.kernel
  some (record s { kernel = k })

abbrev pub clear_at_read : ℕ → Pipes → Pipes
clear_at_read pipe s = record s { chars = update s.chars (s.nodes pipe).item.read_pointer 0 }

unfoldable pub read_from_pipe : ℕ → (name buff : ℕ) → Pipes → Option Pipes
read_from_pipe fuel name buff s = do
  pipe ← get_pipe fuel name s.pipe_list s
  (if (pipe == null) || (buff == null)
      then some s
      else (if s.chars (s.nodes pipe).item.read_pointer == 0
          then wait_for_pipe fuel name s
          else (read_loop fuel pipe buff s >>= λ s1. some (clear_at_read pipe s1))))
