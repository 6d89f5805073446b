-- ===== src/Idt/Laws.antt =====
-- What the processor reads from the gates after `init_idt`.
use seli_os.Idt.{IdtEntry, encode_gate, init_idt}
use seli_os.Prelude.{
  ℕ, ◌+◌, ◌*◌, ◌/◌, ◌%◌, ◌^◌, ◌<◌, ◌≡◌, ◌≢◌, refl, sym, ◌∙◌, some, List, arith, length, get_or, set,
  ◌>>=◌, set?-eq-set, length-set, get_or-set_self, get_or-set_ne,
}
use seli_os.Prelude.Bits.{bit_and-ones}

abbrev pub handler_of : IdtEntry → ℕ
handler_of e = e.base_low + 2 ^ 16 * e.base_high

-- Bit 7 of the flags, and bits 5 and 6: the gate is present, and who may call it by `int`.
abbrev pub privilege_of : IdtEntry → ℕ
privilege_of e = e.flags / 2 ^ 5 % 4

handler_of-encode_gate :
    (base sel flags : ℕ) → base < 2 ^ 32 → handler_of (encode_gate base sel flags) ≡ base
unfolding encode_gate
handler_of-encode_gate base sel flags h =
    omega (arith, bit_and-ones 16 base, bit_and-ones 16 (base / 2 ^ 16))

module _ (table_address h32 h33 h128 : ℕ) (entries : List IdtEntry) (unset : IdtEntry) where
  -- On the table of 256 gates `init_idt` plugs the three handlers into gates 32, 33 and 128, the
  -- first two for the kernel alone and the third for user code too, and changes no other gate.
  pub init_idt_lem :
      length entries ≡ 256
      → h32 < 2 ^ 32
      → h33 < 2 ^ 32
      → h128 < 2 ^ 32
      → (table : List IdtEntry) × (init_idt table_address h32 h33 h128 entries
          ≡ some (record { size = 2047; address = table_address }, table))
        × ((handler_of (get_or table 32 unset) ≡ h32) × (privilege_of (get_or table 32 unset) ≡ 0))
        × ((handler_of (get_or table 33 unset) ≡ h33) × (privilege_of (get_or table 33 unset) ≡ 0))
        × ((handler_of (get_or table 128 unset) ≡ h128)
            × (privilege_of (get_or table 128 unset) ≡ 3))
        × ((j : ℕ) → j ≢ 32 → j ≢ 33 → j ≢ 128 → get_or table j unset ≡ get_or entries j unset)
  unfolding init_idt
  init_idt_lem size a b c =
      let gate32 = encode_gate h32 0x08 0x8E in
      let gate33 = encode_gate h33 0x08 0x8E in
      let gate128 = encode_gate h128 0x08 0xEE in
      let one = set entries 32 gate32 in
      let two = set one 33 gate33 in
      let size1 : length one ≡ 256 = length-set entries 32 gate32 ∙ size in
      let size2 : length two ≡ 256 = length-set one 33 gate33 ∙ size1 in
      let at32 : get_or (set two 128 gate128) 32 unset ≡ gate32 =
        get_or-set_ne two 128 32 gate128 unset (omega arith)
        ∙ get_or-set_ne one 33 32 gate33 unset (omega arith)
        ∙ get_or-set_self entries 32 gate32 unset (omega arith) in
      let at33 : get_or (set two 128 gate128) 33 unset ≡ gate33 =
        get_or-set_ne two 128 33 gate128 unset (omega arith)
        ∙ get_or-set_self one 33 gate33 unset (omega arith) in
      let at128 = get_or-set_self two 128 gate128 unset (omega arith) in
      (
        set two 128 gate128,
        rw
            (
              set?-eq-set entries 32 gate32 (omega arith),
              ◌>>=◌,
              set?-eq-set one 33 gate33 (omega arith),
              ◌>>=◌,
              set?-eq-set two 128 gate128 (omega arith),
            )
            refl,
        (rw at32 (handler_of-encode_gate h32 8 0x8E a), rw at32 refl),
        (rw at33 (handler_of-encode_gate h33 8 0x8E b), rw at33 refl),
        (rw at128 (handler_of-encode_gate h128 8 0xEE c), rw at128 refl),
        λ j p q r.
            get_or-set_ne two 128 j gate128 unset (λ e. r (sym e))
            ∙ get_or-set_ne one 33 j gate33 unset (λ e. q (sym e))
            ∙ get_or-set_ne entries 32 j gate32 unset (λ e. p (sym e)),
      )
