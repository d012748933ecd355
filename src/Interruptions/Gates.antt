-- ===== src/Interruptions/Gates.antt =====
-- Where the gates of Kernel/interruptions.c lead to, as the processor reads them.
use basic_kernel_implementat.Prelude.{
  ◌≡◌, ℕ, ◌+◌, ◌-◌, ◌*◌, ◌/◌, ◌%◌, ◌^◌, ◌<◌, refl, ◌≢◌, Bool, true, arith, ltb, ◌==◌, if◌then◌else◌,
  zero, suc, List, [], ◌∷◌,
}
use basic_kernel_implementat.Interruptions.{
  Idt, IdtEntry, Entries, i_set_handler, initialize_interruptions,
}

-- The processor puts the address of the handler together from its three parts.
abbrev pub target : IdtEntry → ℕ
target e = e.offset_l + 2 ^ 16 * e.offset_m + 2 ^ 32 * e.offset_h

-- A present gate of the kernel's code segment that leads to this address.
pub record LeadsTo (handler : ℕ) (e : IdtEntry) : Type 0 where
  pub address : target e ≡ handler
  pub segment : e.selector ≡ 8
  pub present : e.attrs ≡ 0x8E

-- Whether the controllers let an interrupt through: the bit of their mask is 0.
abbrev pub lets_through : Idt → (irq : ℕ) → Bool
lets_through g irq =
    if ltb irq 8 then g.pic_master / 2 ^ irq % 2 == 0 else g.pic_slave / 2 ^ (irq - 8) % 2 == 0

-- Those of the `left` interrupts from `irq` on that are let through.
abbrev pub allowed_irqs : Idt → (left irq : ℕ) → List ℕ
allowed_irqs g zero irq = []
allowed_irqs g (suc left) irq =
    let rest = allowed_irqs g left (irq + 1) in if lets_through g irq then irq ∷ rest else rest

-- iSetHandler makes a gate that leads to the handler, and leaves the others as they are.
pub i_set_handler-LeadsTo :
    (index handler : ℕ) (g : Idt)
    → handler < 2 ^ 64
    → LeadsTo handler ((i_set_handler index handler g).idt index)
unfolding i_set_handler
i_set_handler-LeadsTo index handler g h =
    let here : (index == index) ≡ true = ground arith in
    rw here (record { address = omega arith; segment = refl; present = refl })

-- The gates that initializeInterruptions sets.
pub record IsInitialized (e : Entries) (before g : Idt) : Type 0 where
  pub timer : LeadsTo e.process_switch (g.idt 0x20)
  pub keyboard : LeadsTo e.irq1_handler (g.idt 0x21)
  pub network : LeadsTo e.irq11_handler (g.idt 0x2B)
  pub yields : LeadsTo e.yield_handler (g.idt 0x71)
  pub system_calls : LeadsTo e.sys_call_handler (g.idt 0x80)
  pub others :
      (v : ℕ) → v ≢ 0x20 → v ≢ 0x21 → v ≢ 0x2B → v ≢ 0x71 → v ≢ 0x80 → g.idt v ≡ before.idt v
  pub allowed : ◌≡◌ {A = List ℕ} (allowed_irqs g 16 0) (0 ∷ 1 ∷ 2 ∷ 11 ∷ [])

module _ (e : Entries) (g : Idt) (h0 : e.process_switch < 2 ^ 64) (h1 : e.irq1_handler < 2 ^ 64)
    (h2 : e.irq11_handler < 2 ^ 64) (h3 : e.yield_handler < 2 ^ 64)
    (h4 : e.sys_call_handler < 2 ^ 64) where
  -- After initializeInterruptions the gates of the timer, the keyboard, the network card, the yield and
  -- the system calls lead to the entries of the assembly code, all other gates are as before, and of the
  -- interrupts of the devices those of the timer, the keyboard, the second controller and the network
  -- card are let through.
  pub initialize_interruptions-IsInitialized : IsInitialized e g (initialize_interruptions e g)
  unfolding initialize_interruptions i_set_handler
  initialize_interruptions-IsInitialized = record {
    timer = record { address = omega arith; segment = refl; present = refl };
    keyboard = record { address = omega arith; segment = refl; present = refl };
    network = record { address = omega arith; segment = refl; present = refl };
    yields = record { address = omega arith; segment = refl; present = refl };
    system_calls = record { address = omega arith; segment = refl; present = refl };
    others = λ v a b c d f. ground arith;
    allowed = refl;
  }
