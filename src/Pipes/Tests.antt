-- ===== src/Pipes/Tests.antt =====
-- A pipe that holds two characters, and the witnesses.
use basic_kernel_implementat.Prelude.{
  ℕ, zero, suc, ◌+◌, ◌<◌, ◌≡◌, refl, [], ◌∷◌, some, arith, get_or, ◌==◌, if◌then◌else◌, inr,
}
use basic_kernel_implementat.Kernel.{t_blocked_pipe}
use basic_kernel_implementat.Kernel.Samples.{two}
use basic_kernel_implementat.Kernel.Lookup.{get_process_with_pid, process_loop}
use basic_kernel_implementat.Kernel.Blocking.{unblock_all_threads, unblock_all_loop}
use basic_kernel_implementat.Ring.{place}
use basic_kernel_implementat.Text.{Chars}
use basic_kernel_implementat.Pipes.{
  PipeNode, Pipes, create_name, get_receiver_pid, get_pipe, equal_name, read_from_pipe,
  pipe_buf_size,
}
use basic_kernel_implementat.Pipes.Buffer.{HoldsText, IsRead}
use basic_kernel_implementat.Pipes.Names.{get_receiver_pid-create_name}
use basic_kernel_implementat.Pipes.Reading.{read_from_pipe-IsRead}

abbrev pipe_node : PipeNode
pipe_node = record {
  name = 0x30000;
  buffer = 0x10000;
  read_pointer = 0x10000;
  write_pointer = 0x10002;
}

-- The text that the pipe holds, and the character 'C' at 0x20000.
abbrev memory : Chars
memory a =
    if a == 0x10000 then 65 else (if a == 0x10001 then 66 else (if a == 0x20000 then 67 else 0))

abbrev pipes : Pipes
pipes = record {
  kernel = two;
  nodes = λ _. record { item = pipe_node; next = 0 };
  chars = memory;
  pipe_list = 0x101000;
}

pipe_contents :
    (k : ℕ)
    → k < pipe_buf_size
    → memory (0x10000 + place pipe_buf_size 0 k) ≡ get_or (65 ∷ 66 ∷ []) k 0
pipe_contents zero h = refl
pipe_contents (suc zero) h = refl
pipe_contents (suc (suc k)) h = ground arith

pipes-HoldsText : HoldsText pipe_node memory (65 ∷ 66 ∷ [])
pipes-HoldsText = record {
  read = 0;
  write = 2;
  read_at = refl;
  write_at = refl;
  holds = record {
    read_in = omega arith;
    fits = omega arith;
    write_at = refl;
    proper = (omega arith, (omega arith, tt));
    contents = pipe_contents;
  };
}

get_receiver_pid-create_name_example :
    (c' : Chars) × (create_name 99 12 34 0x20000 memory ≡ some c')
    × (get_receiver_pid 99 0x20000 c' ≡ some 34)
get_receiver_pid-create_name_example =
    get_receiver_pid-create_name 99 12 34 0x20000 memory (omega arith) (omega arith) (omega arith)

pipe_there : get_pipe 9 0x30000 0x101000 pipes ≡ some 0x101000
unfolding get_pipe equal_name
pipe_there = refl

read_from_pipe-IsRead_example :
    (s' : Pipes) × (read_from_pipe 9 0x30000 0x20000 pipes ≡ some s')
    × IsRead pipes 0x101000 0x20000 (65 ∷ 66 ∷ []) s'
read_from_pipe-IsRead_example =
    read_from_pipe-IsRead 9 0x30000 0x101000 0x20000 pipes 65 (66 ∷ []) pipe_there (omega arith)
      (omega arith) pipes-HoldsText (inr (omega arith)) (omega arith)

nobody_waits : unblock_all_threads 9 1 t_blocked_pipe two ≡ some two
unfolding unblock_all_threads unblock_all_loop get_process_with_pid process_loop
nobody_waits = refl
