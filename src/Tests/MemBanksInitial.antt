-- ===== src/Tests/MemBanksInitial.antt =====
-- Inputs for the theorems of Mem.Banks.Initial.
use tetanes.Base.{◌*◌, ◌^◌, ◌≡◌, refl, arith}
use tetanes.Mem.Banks.{Banks, ok, new}
use tetanes.Mem.Banks.Laws.{IsValid}
use tetanes.Mem.Banks.Initial.{banks_new-IsValid}

banks_new-IsValid_example :
    (b : Banks) × (new 0x8000 0xffff (4 * 2 ^ 13) (2 ^ 13) ≡ ok b)
    × IsValid 2 b
    × (b.page_count ≡ 4)
banks_new-IsValid_example =
    banks_new-IsValid 2 13 4 0x8000 0xffff (omega arith) (omega arith) refl (omega arith)
      (omega arith)
