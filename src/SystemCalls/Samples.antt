-- ===== src/SystemCalls/Samples.antt =====
-- A system in which process 0 has the focus and a character waits.
use basic_kernel_implementat.Prelude.{◌≡◌, refl, true, some}
use basic_kernel_implementat.Prelude.Int.{pos}
use basic_kernel_implementat.Kernel.Samples.{two}
use basic_kernel_implementat.Kernel.Lookup.{get_current_pid}
use basic_kernel_implementat.Keyboard.Samples.{keyboard}
use basic_kernel_implementat.Mutex.{Mutexes}
use basic_kernel_implementat.Semaphores.{Semaphores}
use basic_kernel_implementat.Pipes.{Pipes}
use basic_kernel_implementat.Screens.{is_current_process_on_focus}
use basic_kernel_implementat.Screens.Samples.{both}
use basic_kernel_implementat.SystemCalls.{System, Devices}

abbrev no_mutexes : Mutexes
no_mutexes = record {
  kernel = two;
  nodes = λ _. record { item = record { id = 0; status = 2; blocked_thread_list = 0 }; next = 0 };
  waiting = λ _. record { pid = 0; pthread = 0; next = 0 };
  counter = 0;
  list = 0;
}

abbrev no_semaphores : Semaphores
no_semaphores = record {
  kernel = two;
  nodes =
      λ _. record { item = record { id = 0; status = pos 0; blocked_thread_list = 0 }; next = 0 };
  waiting = λ _. record { pid = 0; pthread = 0; next = 0 };
  counter = 0;
  list = 0;
}

abbrev no_pipes : Pipes
no_pipes = record {
  kernel = two;
  nodes = λ _. record {
    item = record { name = 0; buffer = 0; read_pointer = 0; write_pointer = 0 };
    next = 0;
  };
  chars = λ _. 0;
  pipe_list = 0;
}

-- The text "H" is at 0x120000.
abbrev pub system : System
system = record {
  screens = record both { on_focus_pid = 0 };
  keyboard = keyboard;
  mutexes = no_mutexes;
  semaphores = no_semaphores;
  pipes = no_pipes;
}

-- A card that has no messages and drops those that it gets.
abbrev pub idle_devices : Devices
idle_devices = record {
  get_msg = λ _ s. some (0, s);
  send_msg = λ _ s. some s;
  print_all_process = λ s. some s;
}

pub focused : is_current_process_on_focus system.screens ≡ true
unfolding is_current_process_on_focus get_current_pid
focused = refl
