-- ===== src/Genie.antt =====
-- tetanes-core/src/genie.rs: Game Genie codes. A code is a list of the code points of its
-- characters, and `utf8_len` is the number of bytes that `str::len` counts.
pub mod Fields
pub mod Letters
use tetanes.Base.{
  ℕ, zero, suc, ◌+◌, ◌-◌, Bool, not, ◌&&◌, ◌||◌, if◌then◌else◌, ltb, leb, ◌==◌, List, [], ◌∷◌,
  length, get_elem?, Option, some, none, bit_and, bit_or, ◌<<<◌,
}
use mathlib.Core.Option

pub data ErrorKind : Type 0 where
  invalid_length invalid_character : ℕ → ErrorKind

pub data Result (A : Type 0) : Type 0 where
  ok : A → Result A
  err : ErrorKind → Result A

pub record GenieCode : Type 0 where
  pub code : List ℕ
  pub addr : ℕ
  pub data_byte : ℕ
  pub compare : Option ℕ

utf8_char : ℕ → ℕ
utf8_char s = if ltb s 0x80 then 1 else if ltb s 0x800 then 2 else if ltb s 0x10000 then 3 else 4

unfoldable pub utf8_len : List ℕ → ℕ
unfolding utf8_char
utf8_len [] = 0
utf8_len (s ∷ rest) = utf8_char s + utf8_len rest

unfoldable pub to_ascii_uppercase : ℕ → ℕ
to_ascii_uppercase s = if leb 97 s && leb s 122 then s - 32 else s

unfoldable pub uppercase : List ℕ → List ℕ
unfolding to_ascii_uppercase
uppercase [] = []
uppercase (s ∷ rest) = to_ascii_uppercase s ∷ uppercase rest

-- The letters in the order of their numbers: A P Z L G I T Y E O X U K S V N.
abbrev pub letters : List ℕ
letters = 65 ∷ 80 ∷ 90 ∷ 76 ∷ 71 ∷ 73 ∷ 84 ∷ 89 ∷ 69 ∷ 79 ∷ 88 ∷ 85 ∷ 75 ∷ 83 ∷ 86 ∷ 78 ∷ []

position : ℕ → ℕ → List ℕ → Option ℕ
position n s [] = none
position n s (x ∷ xs) = let rest = position (n + 1) s xs in if s == x then some n else rest

-- `GENIE_MAP.get`.
unfoldable pub genie_map : ℕ → Option ℕ
unfolding position
genie_map s = position 0 s letters

push : ℕ → Result (List ℕ) → Result (List ℕ)
push h (ok hex) = ok (h ∷ hex)
push h (err e) = err e

parsed : Option ℕ → ℕ → Result (List ℕ) → Result (List ℕ)
parsed none s rest = err (invalid_character s)
parsed (some h) s rest = push h rest

-- The loop over the characters.
unfoldable pub parse_chars : List ℕ → Result (List ℕ)
unfolding genie_map to_ascii_uppercase parsed push
parse_chars [] = ok []
parse_chars (s ∷ rest) = parsed (genie_map (to_ascii_uppercase s)) s (parse_chars rest)

unfoldable pub parse : List ℕ → Result (List ℕ)
unfolding utf8_len parse_chars
parse code =
    if not (utf8_len code == 6) && not (utf8_len code == 8)
    then err (invalid_length (utf8_len code))
    else parse_chars code

-- The three parts of a code, by the numbers of its letters.
unfoldable pub raw_addr : ℕ → ℕ → ℕ → ℕ → ℕ → ℕ
raw_addr h1 h2 h3 h4 h5 =
    0x8000
    + bit_or
        (bit_or
          (bit_or
            (bit_or
              (bit_or (bit_or (bit_and h3 7 <<< 12) (bit_and h5 7 <<< 8)) (bit_and h4 8 <<< 8))
              (bit_and h2 7 <<< 4))
            (bit_and h1 8 <<< 4))
          (bit_and h4 7))
        (bit_and h3 8)

-- `((a & 7) << 4) | ((b & 8) << 4) | (b & 7) | (c & 8)`.
unfoldable pub raw_byte : ℕ → ℕ → ℕ → ℕ
raw_byte a b c =
    bit_or (bit_or (bit_or (bit_and a 7 <<< 4) (bit_and b 8 <<< 4)) (bit_and b 7)) (bit_and c 8)

-- `none` where an index is out of range. Of a list of 7, or of more than 8, the source reads the
-- eighth number too.
unfoldable pub from_raw : List ℕ → List ℕ → Option GenieCode
unfolding raw_addr raw_byte uppercase
from_raw code (h0 ∷ h1 ∷ h2 ∷ h3 ∷ h4 ∷ h5 ∷ []) = some (record {
  code = uppercase code;
  addr = raw_addr h1 h2 h3 h4 h5;
  data_byte = raw_byte h1 h0 h5;
  compare = none;
})
from_raw code (h0 ∷ h1 ∷ h2 ∷ h3 ∷ h4 ∷ h5 ∷ h6 ∷ h7 ∷ rest) = some (record {
  code = uppercase code;
  addr = raw_addr h1 h2 h3 h4 h5;
  data_byte = raw_byte h1 h0 h7;
  compare = if length rest == 0 then some (raw_byte h7 h6 h5) else none;
})
from_raw code _ = none

abbrev decoded : List ℕ → Result (List ℕ) → Result (Option GenieCode)
unfolding from_raw
decoded code (ok hex) = ok (from_raw code hex)
decoded code (err e) = err e

-- `GenieCode::new`; the inner option is the panic.
unfoldable pub new : List ℕ → Result (Option GenieCode)
unfolding parse from_raw
new code = decoded code (parse code)

-- `if let Some(compare) = self.compare`.
abbrev compared : Option ℕ → GenieCode → ℕ → ℕ
compared none gc val = gc.data_byte
compared (some compare) gc val = if val == compare then gc.data_byte else val

unfoldable pub read : GenieCode → ℕ → ℕ
read gc val = compared gc.compare gc val
