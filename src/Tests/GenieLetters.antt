-- ===== src/Tests/GenieLetters.antt =====
-- Inputs for the theorems of Genie.Letters.
use tetanes.Base.{◌+◌, ◌≡◌, arith, none, some}
use tetanes.Genie.{new, ok}
use tetanes.Genie.Letters.{new-word, word, numbers, numbers_comparing}

new-word_example :
    (new (word (numbers 0x11d9 0xad))
      ≡ ok (
          some (record {
            code = word (numbers 0x11d9 0xad);
            addr = 0x8000 + 0x11d9;
            data_byte = 0xad;
            compare = none;
          })))
    × (new (word (numbers_comparing 0x11d9 0xad 0x3c))
        ≡ ok (
            some (record {
              code = word (numbers_comparing 0x11d9 0xad 0x3c);
              addr = 0x8000 + 0x11d9;
              data_byte = 0xad;
              compare = some 0x3c;
            })))
new-word_example = new-word 0x11d9 0xad (omega arith) (omega arith) 0x3c (omega arith)
