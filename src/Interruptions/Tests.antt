-- ===== src/Interruptions/Tests.antt =====
-- The table of Kernel/interruptions.c for entries at five addresses.
use basic_kernel_implementat.Prelude.{arith}
use basic_kernel_implementat.Interruptions.{Idt, IdtEntry, Entries, initialize_interruptions}
use basic_kernel_implementat.Interruptions.Gates.{
  IsInitialized, initialize_interruptions-IsInitialized,
}

abbrev nothing : IdtEntry
nothing = record {
  offset_l = 0;
  selector = 0;
  zero_l = 0;
  attrs = 0;
  offset_m = 0;
  offset_h = 0;
  zero_h = 0;
}

abbrev blank : Idt
blank = record { idt = λ _. nothing; pic_master = 0xFF; pic_slave = 0xFF }

abbrev entries : Entries
entries = record {
  process_switch = 0x100010;
  irq1_handler = 0x123456789ABCDEF0;
  irq11_handler = 0x100030;
  yield_handler = 0x100040;
  sys_call_handler = 0x100050;
}

initialize_interruptions-IsInitialized_example :
    IsInitialized entries blank (initialize_interruptions entries blank)
initialize_interruptions-IsInitialized_example =
    initialize_interruptions-IsInitialized entries blank (omega arith) (omega arith) (omega arith)
      (omega arith) (omega arith)
