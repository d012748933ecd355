-- ===== src/Interruptions.antt =====
-- Kernel/interruptions.c: the table of interrupt gates, and the choice of a handler by its number. The
-- entries of the assembly code are parameters (`Entries`), and what it writes to the two interrupt
-- controllers is kept as their masks.
pub mod Gates
mod Tests
use basic_kernel_implementat.Prelude.{ℕ, ◌/◌, ◌%◌, ◌^◌, Option, none, ◌==◌, if◌then◌else◌, update}

-- A gate of the table, and the table, which is at the address 0.
pub record IdtEntry : Type 0 where
  pub offset_l : ℕ
  pub selector : ℕ
  pub zero_l : ℕ
  pub attrs : ℕ
  pub offset_m : ℕ
  pub offset_h : ℕ
  pub zero_h : ℕ

pub record Idt : Type 0 where
  pub idt : ℕ → IdtEntry
  pub pic_master : ℕ
  pub pic_slave : ℕ

-- The addresses of the functions of the assembly code.
pub record Entries : Type 0 where
  pub process_switch : ℕ
  pub irq1_handler : ℕ
  pub irq11_handler : ℕ
  pub yield_handler : ℕ
  pub sys_call_handler : ℕ

unfoldable pub i_set_handler : (index handler : ℕ) → Idt → Idt
i_set_handler index handler g = record g {
  idt = update g.idt index (record {
    offset_l = handler % 2 ^ 16;
    selector = 0x08;
    zero_l = 0;
    attrs = 0x8E;
    offset_m = handler / 2 ^ 16 % 2 ^ 16;
    offset_h = handler / 2 ^ 32 % 2 ^ 32;
    zero_h = 0;
  });
}

unfoldable pub initialize_interruptions : Entries → Idt → Idt
initialize_interruptions e g =
    let g1 = i_set_handler 0x20 e.process_switch g in
    let g2 = i_set_handler 0x21 e.irq1_handler g1 in
    let g3 = i_set_handler 0x2B e.irq11_handler g2 in
    let g4 = i_set_handler 0x71 e.yield_handler g3 in
    let g5 = i_set_handler 0x80 e.sys_call_handler g4 in
    record g5 { pic_master = 0xF8; pic_slave = 0xF7 }

-- `handlers` has 12 entries, and a call of the others, or of an entry that is 0, has no result.
unfoldable pub irq_dispatcher {ℓ} :
    {A : Type ℓ} → (key_board_handler rtl_handler : A → Option A) → (irq : ℕ) → A → Option A
irq_dispatcher key_board_handler rtl_handler irq s =
    if irq == 1 then key_board_handler s else if irq == 11 then rtl_handler s else none
