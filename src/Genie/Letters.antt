-- ===== src/Genie/Letters.antt =====
-- The letters of a Game Genie code and the address, byte and comparison that they stand for.
use tetanes.Base.{
  All, length, all_below, all_below_sound, get_or, ◌==◌, ◌&&◌, not, Bool, ==_iff, ℕ, ◌+◌, ◌*◌, ◌/◌,
  ◌%◌, ◌<◌, ◌≡◌, refl, ◌∙◌, ap, arith, true, false, List, [], ◌∷◌, Option, some, none,
}
use tetanes.Genie.Fields.{raw_byte-fields, raw_addr-fields}
use tetanes.Genie.{
  push, raw_addr, raw_byte, from_raw, uppercase, letters, genie_map, to_ascii_uppercase, parse,
  parse_chars, utf8_len, new, ok,
}

-- The letter of a number below 16.
abbrev pub letter : ℕ → ℕ
letter h = get_or letters h 0

same : Option ℕ → ℕ → Bool
same none n = false
same (some m) n = m == n

same-some : (o : Option ℕ) (n : ℕ) → same o n ≡ true → o ≡ some n
unfolding same
same-some none n h = ground arith
same-some (some m) n h = ap some (ground arith)

letter_test : ℕ → Bool
letter_test h =
    same (genie_map (to_ascii_uppercase (letter h))) h
    && (to_ascii_uppercase (letter h) == letter h)
    && (utf8_len (letter h ∷ []) == 1)

letters_pass : all_below 16 letter_test ≡ true
unfolding all_below letter_test same genie_map to_ascii_uppercase utf8_len
letters_pass = refl

and_parts : (a b : Bool) → (a && b) ≡ true → (a ≡ true) × (b ≡ true)
and_parts true b h = (refl, h)
and_parts false b h = ground arith

-- The word of some numbers.
abbrev pub word : List ℕ → List ℕ
word [] = []
word (h ∷ hs) = letter h ∷ word hs

letter-read :
    (h : ℕ)
    → h < 16
    → (genie_map (to_ascii_uppercase (letter h)) ≡ some h)
      × (to_ascii_uppercase (letter h) ≡ letter h)
      × (utf8_len (letter h ∷ []) ≡ 1)
unfolding letter_test
letter-read h lt =
    let mapped = same (genie_map (to_ascii_uppercase (letter h))) h in
    let upper = to_ascii_uppercase (letter h) == letter h in
    let single = utf8_len (letter h ∷ []) == 1 in
    let passed : ((mapped && upper) && single) ≡ true =
      all_below_sound 16 letter_test h letters_pass lt in
    let (both, is_single) = and_parts (mapped && upper) single passed in
    let (is_mapped, is_upper) = and_parts mapped upper both in
    (
      same-some (genie_map (to_ascii_uppercase (letter h))) h is_mapped,
      (==_iff (to_ascii_uppercase (letter h)) (letter h)).0 is_upper,
      (==_iff (utf8_len (letter h ∷ [])) 1).0 is_single,
    )

parse_chars-word : (hs : List ℕ) → All (λ h. h < 16) hs → parse_chars (word hs) ≡ ok hs
unfolding parse_chars push
parse_chars-word [] a = refl
parse_chars-word (h ∷ hs) a = rw ((letter-read h a.0).0, parse_chars-word hs a.1) refl

utf8_len-word : (hs : List ℕ) → All (λ h. h < 16) hs → utf8_len (word hs) ≡ length hs
unfolding utf8_len
utf8_len-word [] a = refl
utf8_len-word (h ∷ hs) a = omega (arith, (letter-read h a.0).2, utf8_len-word hs a.1)

uppercase-word : (hs : List ℕ) → All (λ h. h < 16) hs → uppercase (word hs) ≡ word hs
unfolding uppercase
uppercase-word [] a = refl
uppercase-word (h ∷ hs) a = rw ((letter-read h a.0).1, uppercase-word hs a.1) refl

-- The numbers of the code for an address from $8000 on, by its distance `a` from there, and a byte:
-- six of them, or eight with a byte to compare.
abbrev pub numbers : ℕ → ℕ → List ℕ
numbers a d =
    (d / 128 * 8 + d % 8)
    ∷ (a / 128 % 2 * 8 + d / 16 % 8)
    ∷ a / 16 % 8
    ∷ (a / 8 % 2 * 8 + a / 4096)
    ∷ (a / 2048 % 2 * 8 + a % 8)
    ∷ (d / 8 % 2 * 8 + a / 256 % 8)
    ∷ []

abbrev pub numbers_comparing : ℕ → ℕ → ℕ → List ℕ
numbers_comparing a d c =
    (d / 128 * 8 + d % 8)
    ∷ (a / 128 % 2 * 8 + d / 16 % 8)
    ∷ (8 + a / 16 % 8)
    ∷ (a / 8 % 2 * 8 + a / 4096)
    ∷ (a / 2048 % 2 * 8 + a % 8)
    ∷ (c / 8 % 2 * 8 + a / 256 % 8)
    ∷ (c / 128 * 8 + c % 8)
    ∷ (d / 8 % 2 * 8 + c / 16 % 8)
    ∷ []

parse-word :
    (hs : List ℕ)
    → All (λ h. h < 16) hs
    → (not (length hs == 6) && not (length hs == 8)) ≡ false
    → parse (word hs) ≡ ok hs
unfolding parse
parse-word hs small long = rw (utf8_len-word hs small, long, parse_chars-word hs small) refl

new-numbers :
    (hs : List ℕ)
    → All (λ h. h < 16) hs
    → (not (length hs == 6) && not (length hs == 8)) ≡ false
    → new (word hs) ≡ ok (from_raw (word hs) hs)
unfolding new
new-numbers hs small long = rw (parse-word hs small long) refl

byte_lem :
    (d h1 h5 : ℕ)
    → d < 256
    → h1 < 16
    → h5 < 16
    → h1 % 8 ≡ d / 16 % 8
    → h5 / 8 ≡ d / 8 % 2
    → raw_byte h1 (d / 128 * 8 + d % 8) h5 ≡ d
byte_lem d h1 h5 hd l1 l5 e1 e5 =
    let h0 = d / 128 * 8 + d % 8 in
    let p0 : h0 % 8 ≡ d % 8 = omega arith in
    let q0 : h0 / 8 ≡ d / 128 = omega arith in
    raw_byte-fields h1 h0 h5 l1 (omega arith) l5 ∙ omega (arith, e1, e5, p0, q0)

module _ (a d : ℕ) (ha : a < 0x8000) (hd : d < 256) where
  -- The numbers that hold the address, whatever else they hold.
  addr_lem :
      (h1 h2 h5 : ℕ)
      → h1 < 16
      → h1 / 8 ≡ a / 128 % 2
      → h2 % 8 ≡ a / 16 % 8
      → h5 % 8 ≡ a / 256 % 8
      → raw_addr h1 h2 (a / 8 % 2 * 8 + a / 4096) (a / 2048 % 2 * 8 + a % 8) h5 ≡ 0x8000 + a
  addr_lem h1 h2 h5 l1 e1 e2 e5 =
      let h3 = a / 8 % 2 * 8 + a / 4096 in
      let h4 = a / 2048 % 2 * 8 + a % 8 in
      let p3 : h3 % 8 ≡ a / 4096 = omega arith in
      let q3 : h3 / 8 ≡ a / 8 % 2 = omega arith in
      let p4 : h4 % 8 ≡ a % 8 = omega arith in
      let q4 : h4 / 8 ≡ a / 2048 % 2 = omega arith in
      raw_addr-fields h1 h2 h3 h4 h5 l1 (omega arith) (omega arith)
      ∙ omega (arith, e1, e2, e5, p3, q3, p4, q4)

  numbers-small : All (λ h. h < 16) (numbers a d)
  numbers-small =
      (omega arith, (omega arith, (omega arith, (omega arith, (omega arith, (omega arith, tt))))))

  six :
      new (word (numbers a d))
      ≡ ok (
          some (record {
            code = word (numbers a d);
            addr = 0x8000 + a;
            data_byte = d;
            compare = none;
          }))
  unfolding from_raw
  six =
      let h1 = a / 128 % 2 * 8 + d / 16 % 8 in
      let h5 = d / 8 % 2 * 8 + a / 256 % 8 in
      let addr =
        addr_lem h1 (a / 16 % 8) h5 (omega arith) (omega arith) (omega arith) (omega arith) in
      let byte = byte_lem d h1 h5 hd (omega arith) (omega arith) (omega arith) (omega arith) in
      new-numbers (numbers a d) numbers-small refl ∙ (λ i. ok (
        some (record {
          code = uppercase-word (numbers a d) numbers-small i;
          addr = addr i;
          data_byte = byte i;
          compare = none;
        })))

  -- Every address from $8000 on and every byte have a code of six letters that stands for them, and
  -- with any byte to compare one of eight letters.
  pub new-word :
      (c : ℕ)
      → c < 256
      → (new (word (numbers a d))
          ≡ ok (
              some (record {
                code = word (numbers a d);
                addr = 0x8000 + a;
                data_byte = d;
                compare = none;
              })))
        × (new (word (numbers_comparing a d c))
            ≡ ok (
                some (record {
                  code = word (numbers_comparing a d c);
                  addr = 0x8000 + a;
                  data_byte = d;
                  compare = some c;
                })))
  unfolding from_raw
  new-word c hc =
      let h1 = a / 128 % 2 * 8 + d / 16 % 8 in
      let h5 = c / 8 % 2 * 8 + a / 256 % 8 in
      let h7 = d / 8 % 2 * 8 + c / 16 % 8 in
      let addr =
        addr_lem h1 (8 + a / 16 % 8) h5 (omega arith) (omega arith) (omega arith) (omega arith) in
      let byte = byte_lem d h1 h7 hd (omega arith) (omega arith) (omega arith) (omega arith) in
      let compared = byte_lem c h7 h5 hc (omega arith) (omega arith) (omega arith) (omega arith) in
      let small : All (λ h. h < 16) (numbers_comparing a d c) = (
        omega arith,
        (
          omega arith,
          (
            omega arith,
            (omega arith, (omega arith, (omega arith, (omega arith, (omega arith, tt))))),
          ),
        ),
      ) in
      (
        six,
        new-numbers (numbers_comparing a d c) small refl ∙ (λ i. ok (
            some (record {
              code = uppercase-word (numbers_comparing a d c) small i;
              addr = addr i;
              data_byte = byte i;
              compare = some (compared i);
            }))),
      )
