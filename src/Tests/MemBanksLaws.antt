-- ===== src/Tests/MemBanksLaws.antt =====
-- Inputs for the theorems of Mem.Banks.Laws.
use tetanes.Base.{
  ℕ, ◌+◌, ◌*◌, ◌%◌, ◌<◌, ◌≡◌, arith, if◌then◌else◌, ◌==◌, some, length, get_or, bit_and,
}
use tetanes.Mem.Banks.{Banks, slot, translate, set_bank, slot_of}
use tetanes.Mem.Banks.Initial.{banks_new-IsValid}
use tetanes.Base.{refl}
use tetanes.Mem.Banks.Laws.{IsValid, set_bank-translate, translate-bounds}

-- A window of 0x8000-0xffff in four slots over a ROM of four pages.
abbrev four_slots : Banks
four_slots =
    (banks_new-IsValid 2 13 4 0x8000 0xffff (omega arith) (omega arith) refl (omega arith)
      (omega arith)).0

four_slots-IsValid : IsValid 2 four_slots
four_slots-IsValid =
    (banks_new-IsValid 2 13 4 0x8000 0xffff (omega arith) (omega arith) refl (omega arith)
      (omega arith)).2

set_bank-translate_example :
    (b' : Banks) × (set_bank 1 2 four_slots ≡ some b')
    × IsValid 2 b'
    × ((addr : ℕ)
        → translate b' addr ≡ (
            if slot_of (length four_slots.banks) 1 == slot four_slots addr
            then some (bit_and 2 four_slots.mask * four_slots.window + addr % four_slots.window)
            else translate four_slots addr))
set_bank-translate_example = set_bank-translate 2 1 2 four_slots four_slots-IsValid

translate-bounds_example :
    let offset = get_or four_slots.banks (slot four_slots 0xa123) 0 + 0xa123 % four_slots.window in
    (translate four_slots 0xa123 ≡ some offset)
    × (offset < four_slots.page_count * four_slots.window)
translate-bounds_example = translate-bounds 2 four_slots 0xa123 four_slots-IsValid
