-- ===== src/Idt.antt =====
-- src/kernel/idt.c: the interrupt gates. The addresses of the table and of the assembly handlers
-- are parameters; `lidt` is not modelled.
pub mod Laws
mod Tests
use seli_os.Prelude.{
  ℕ, ◌-◌, ◌*◌, ◌/◌, ◌%◌, ◌^◌, bit_and, Option, none, some, List, [], ◌∷◌, set?, ◌>>=◌,
}

pub record IdtEntry : Type 0 where
  pub base_low : ℕ
  pub sel : ℕ
  pub always0 : ℕ
  pub flags : ℕ
  pub base_high : ℕ

pub encode_gate : ℕ → ℕ → ℕ → IdtEntry
encode_gate base sel flags = record {
  base_low = bit_and base 0xFFFF;
  base_high = bit_and (base / 2 ^ 16) 0xFFFF;
  sel = sel;
  always0 = 0;
  flags = flags;
}

pub set_idt_gate : List IdtEntry → ℕ → ℕ → ℕ → ℕ → Option (List IdtEntry)
unfolding encode_gate
set_idt_gate entries index base sel flags = set? entries index (encode_gate base sel flags)

-- `struct idt`
pub record IdtPointer : Type 0 where
  pub size : ℕ
  pub address : ℕ

-- The handlers of the timer, the keyboard and the system call.
pub init_idt :
    (table_address handler_32 handler_33 handler_128 : ℕ)
    → List IdtEntry
    → Option (IdtPointer × List IdtEntry)
unfolding set_idt_gate
init_idt table_address handler_32 handler_33 handler_128 entries = do
  timer ← set_idt_gate entries 32 handler_32 0x08 0x8E
  keyboard ← set_idt_gate timer 33 handler_33 0x08 0x8E
  system_call ← set_idt_gate keyboard 128 handler_128 0x08 0xEE
  some (record { size = 8 * 256 - 1; address = table_address }, system_call)
