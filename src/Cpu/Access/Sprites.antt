-- ===== src/Cpu/Access/Sprites.antt =====
-- The sprite transfer of `handle_dma`, from the halted read to its last byte.
use tetanes.Base.{
  ◌||◌, ℕ, zero, suc, ◌+◌, ◌-◌, ◌*◌, ◌%◌, ◌≤◌, ◌<◌, ◌≡◌, refl, ◌∙◌, ap, arith, Bool, true, false,
  not, if◌then◌else◌, List, ◌∷◌, usize, usize_mod, bit_and, ◌==◌, Bool-cases, inl, inr,
}
use tetanes.Base.Bits.{bit_and-one}
use tetanes.Cpu.Lines.{dmas_running-oam, dmas_running-none}
use tetanes.Cpu.State.{BusOps, Cpu}
use tetanes.Cpu.Access.{
  Transfer, dma_wait, dma_get, dma_put, dma_round, dma_loop, halted_read, handle_dma, no_transfer,
  dma_fuel,
}
use tetanes.Cpu.Access.Transfers.{
  TransferBus, View, view, later, dma_wait-view, dma_get-view, dma_put-view, halted_read-view,
  put_view,
}

-- The bytes from the offset `i` on are put before those that were sent.
unfoldable pub send_from : (ℕ → ℕ) → ℕ → ℕ → List ℕ → List ℕ
send_from byte i zero sent = sent
send_from byte i (suc k) sent = send_from byte (i + 1) k (byte i ∷ sent)

-- A page and its bytes, in cycle `n` with or without a sprite transfer, and no other transfer.
abbrev pub state : ℕ → (ℕ → ℕ) → ℕ → Bool → List ℕ → View
state page byte n oam sent = record {
  cycle = n;
  lines = record { oam = oam; dmc = false; halt = false; page = page };
  bytes = byte;
  sent = sent;
}

module _ {B : Type 0} ⦃ops : BusOps B⦄ {page : ℕ} (t : TransferBus ops page) where
  next_cycle :
      (c : Cpu B) {n : ℕ} {oam : Bool} {sent : List ℕ} {byte : ℕ → ℕ}
      → n + 1 < usize_mod
      → view t c ≡ state page byte n oam sent
      → later (view t c) ≡ state page byte (n + 1) oam sent
  next_cycle c {n} {oam} {sent} {byte} lt h =
      ap later h ∙ ap (λ m. state page byte m oam sent) (omega arith)

  -- A round on a get cycle, of a sprite transfer alone.
  get_round :
      (addr : ℕ) (skip : Bool) (x : Transfer) (c : Cpu B)
      → c.cycle % 2 ≡ 0
      → dma_round addr skip false true x c ≡ dma_get x c
  unfolding dma_round
  get_round addr skip x c even =
      let parity : (bit_and c.cycle 1 == 0) ≡ true = ground (arith, bit_and-one c.cycle) in
      rw parity refl

  put_round :
      (addr : ℕ) (skip : Bool) (x : Transfer) (c : Cpu B)
      → c.cycle % 2 ≡ 1
      → x.oam_dma_count % 2 ≡ 1
      → dma_round addr skip false true x c ≡ dma_put x c
  unfolding dma_round
  put_round addr skip x c odd count =
      let parity : (bit_and c.cycle 1 == 0) ≡ false = ground (arith, bit_and-one c.cycle) in
      let turn : (bit_and x.oam_dma_count 1 == 1) ≡ true =
        ground (arith, bit_and-one x.oam_dma_count) in
      rw (parity, turn) refl

  -- A round on a put cycle with no byte to put.
  wait_round :
      (addr : ℕ) (skip : Bool) (x : Transfer) (c : Cpu B)
      → c.cycle % 2 ≡ 1
      → x.oam_dma_count % 2 ≡ 0
      → dma_round addr skip false true x c ≡ (x, dma_wait addr skip c)
  unfolding dma_round
  wait_round addr skip x c odd count =
      let parity : (bit_and c.cycle 1 == 0) ≡ false = ground (arith, bit_and-one c.cycle) in
      let turn : (bit_and x.oam_dma_count 1 == 1) ≡ false =
        ground (arith, bit_and-one x.oam_dma_count) in
      rw (parity, turn) refl

  -- A turn of the loop while a sprite transfer runs, and when none does.
  loop_step :
      (fuel addr : ℕ) (skip : Bool) (x : Transfer) (c : Cpu B) {n : ℕ} {sent : List ℕ}
      {byte : ℕ → ℕ}
      → view t c ≡ state page byte n true sent
      → dma_loop (suc fuel) addr skip x c
        ≡ (let (x1, c1) = dma_round addr skip false true x c in dma_loop fuel addr skip x1 c1)
  unfolding dma_loop
  loop_step fuel addr skip x c h =
      rw (dmas_running-oam c.lines (ap (λ v. v.lines.dmc) h) (ap (λ v. v.lines.oam) h)) refl

  loop_end :
      (fuel addr : ℕ) (skip : Bool) (x : Transfer) (c : Cpu B) {n : ℕ} {sent : List ℕ}
      {byte : ℕ → ℕ}
      → view t c ≡ state page byte n false sent
      → dma_loop fuel addr skip x c ≡ (x, c)
  unfolding dma_loop
  loop_end zero addr skip x c h = refl
  loop_end (suc fuel) addr skip x c h =
      rw (dmas_running-none c.lines (ap (λ v. v.lines.dmc) h) (ap (λ v. v.lines.oam) h)) refl

  abbrev get_put : Transfer → Cpu B → Transfer × Cpu B
  get_put x c = let (x1, c1) = dma_get x c in dma_put x1 c1

  -- A get and a put: the byte at the offset is sent, and after the last one nothing runs.
  get_put_lem :
      (fuel addr : ℕ) (skip : Bool) (x : Transfer) (c : Cpu B) {n i : ℕ} {byte : ℕ → ℕ}
      {sent : List ℕ}
      → view t c ≡ state page byte n true sent
      → n % 2 ≡ 0
      → n + 2 < usize_mod
      → i < 256
      → x.oam_offset ≡ i
      → x.oam_dma_count ≡ 2 * i
      → let (x2, c2) = get_put x c in
        (dma_loop (suc (suc fuel)) addr skip x c ≡ dma_loop fuel addr skip x2 c2)
        × (view t c2 ≡ state page byte (n + 2) (not (i == 255)) (byte i ∷ sent))
        × (x2.oam_offset ≡ i + 1)
        × (x2.oam_dma_count ≡ 2 * (i + 1))
  unfolding dma_put
  get_put_lem fuel addr skip x c {n} {i} {byte} {sent} h even lt small offset count =
      let x1 = (dma_get x c).0 in
      let c1 = (dma_get x c).1 in
      let (got, fetched) =
        dma_get-view t x c (ap (λ v. v.lines.halt) h) (ap (λ v. v.lines.page) h)
          (omega (arith, offset)) in
      let at0 : c.cycle ≡ n = ap (λ v. v.cycle) h in
      let at1 : view t c1 ≡ state page byte (n + 1) true sent =
        got ∙ next_cycle c (omega arith) h in
      let cycle1 : c1.cycle ≡ n + 1 = ap (λ v. v.cycle) at1 in
      let count1 : x1.oam_dma_count ≡ 2 * i + 1 =
        ap (λ (y : Transfer). y.oam_dma_count) fetched ∙ omega (arith, count) in
      let val1 : x1.read_val ≡ byte i =
        ap (λ (y : Transfer). y.read_val) fetched
        ∙ ap (λ v. v.bytes x.oam_offset) h
        ∙ ap byte offset in
      let last : (x1.oam_dma_count + 1 == 512) ≡ (i == 255) = ground arith in
      let put = dma_put-view t x1 c1 (ap (λ v. v.lines.halt) at1) in
      let cycle2 : usize (n + 1 + 1) ≡ n + 2 = omega arith in
      let flag : (if i == 255 then false else true) ≡ not (i == 255) = ground arith in
      let turn0 =
        loop_step (suc fuel) addr skip x c h
        ∙ ap (λ (r : Transfer × Cpu B). dma_loop (suc fuel) addr skip r.0 r.1)
            (get_round addr skip x c (omega (arith, at0))) in
      let turn1 =
        loop_step fuel addr skip x1 c1 at1
        ∙ ap (λ (r : Transfer × Cpu B). dma_loop fuel addr skip r.0 r.1)
            (put_round addr skip x1 c1 (omega (arith, cycle1)) (omega (arith, count1))) in
      (
        turn0 ∙ turn1,
        put
            ∙ (λ k. put_view (val1 k) (last k) (at1 k))
            ∙ (λ k. state page byte (cycle2 k) (flag k) (byte i ∷ sent)),
        ap (λ (y : Transfer). y.oam_offset) fetched ∙ ap (λ (o : ℕ). o + 1) offset,
        omega (arith, count1),
      )

  -- `k` bytes are left, and two rounds for each are enough.
  send_loop :
      (k fuel addr : ℕ) (skip : Bool) (x : Transfer) (c : Cpu B) {n i : ℕ} {byte : ℕ → ℕ}
      {sent : List ℕ}
      → view t c ≡ state page byte n (not (i == 256)) sent
      → n % 2 ≡ 0
      → n + 2 * k < usize_mod
      → i + k ≡ 256
      → x.oam_offset ≡ i
      → x.oam_dma_count ≡ 2 * i
      → view t (dma_loop (2 * k + fuel) addr skip x c).1
        ≡ state page byte (n + 2 * k) false (send_from byte i k sent)
  unfolding send_from
  send_loop zero fuel addr skip x c {n} {i} {byte} {sent} h even lt left offset count =
      let over : not (i == 256) ≡ false = ground arith in
      let now : view t c ≡ state page byte n false sent =
        h ∙ ap (λ b. state page byte n b sent) over in
      ap (λ (r : Transfer × Cpu B). view t r.1) (loop_end (2 * zero + fuel) addr skip x c now)
      ∙ now
      ∙ ap (λ m. state page byte m false sent) (omega arith)
  send_loop (suc k) fuel addr skip x c {n} {i} {byte} {sent} h even lt left offset count =
      let more : not (i == 256) ≡ true = ground arith in
      let next : (i == 255) ≡ (i + 1 == 256) = ground arith in
      let now : view t c ≡ state page byte n true sent =
        h ∙ ap (λ b. state page byte n b sent) more in
      let (steps, after, offset2, count2) =
        get_put_lem (2 * k + fuel) addr skip x c now even (omega arith) (omega arith) offset
          count in
      let x2 = (get_put x c).0 in
      let c2 = (get_put x c).1 in
      let rounds : 2 * suc k + fuel ≡ suc (suc (2 * k + fuel)) = omega arith in
      ap (λ f. view t (dma_loop f addr skip x c).1) rounds
      ∙ ap (λ (r : Transfer × Cpu B). view t r.1) steps
      ∙ send_loop k fuel addr skip x2 c2
          (after ∙ ap (λ b. state page byte (n + 2) (not b) (byte i ∷ sent)) next) (omega arith)
          (omega arith) (omega arith) offset2 count2
      ∙ ap (λ m. state page byte m false (send_from byte (i + 1) k (byte i ∷ sent))) (omega arith)

  -- The whole page, from a get cycle or from the put cycle before it.
  send_page :
      (fuel addr : ℕ) (skip : Bool) (c : Cpu B) {n : ℕ} {byte : ℕ → ℕ} {sent : List ℕ}
      → view t c ≡ state page byte n true sent
      → n + 513 < usize_mod
      → 513 ≤ fuel
      → view t (dma_loop fuel addr skip no_transfer c).1
        ≡ state page byte (n + 512 + n % 2) false (send_from byte 0 256 sent)
  send_page fuel addr skip c {n} {byte} {sent} h lt enough =
      let cycle0 : c.cycle ≡ n = ap (λ v. v.cycle) h in
      let done : ℕ → View = λ m. state page byte m false (send_from byte 0 256 sent) in
      elim (Bool-cases (n % 2 == 0)) [
        | inl even ↦
            (let fuel0 : fuel ≡ 2 * 256 + (fuel - 512) = omega arith in
              let parity : n % 2 ≡ 0 = ground arith in
              ap (λ f. view t (dma_loop f addr skip no_transfer c).1) fuel0
              ∙ send_loop 256 (fuel - 512) addr skip no_transfer c {i = 0} h parity (omega arith)
                  refl refl refl
              ∙ ap done (omega (arith, parity)))
        | inr odd ↦
            (let fuel1 : fuel ≡ suc (2 * 256 + (fuel - 513)) = omega arith in
              let parity : n % 2 ≡ 1 = ground arith in
              let c1 = dma_wait addr skip c in
              let waited : view t c1 ≡ state page byte (n + 1) true sent =
                dma_wait-view t addr skip c (ap (λ v. v.lines.halt) h)
                ∙ next_cycle c (omega arith) h in
              let wait = wait_round addr skip no_transfer c (omega (arith, cycle0)) refl in
              ap (λ f. view t (dma_loop f addr skip no_transfer c).1) fuel1
              ∙ ap (λ (r : Transfer × Cpu B). view t r.1)
                  (loop_step (2 * 256 + (fuel - 513)) addr skip no_transfer c h
                    ∙ ap
                        (λ (r : Transfer × Cpu B).
                          dma_loop (2 * 256 + (fuel - 513)) addr skip r.0 r.1)
                        wait)
              ∙ send_loop 256 (fuel - 513) addr skip no_transfer c1 {i = 0} waited (omega arith)
                  (omega arith) refl refl refl
              ∙ ap done (omega (arith, parity)))
      ]

  -- A sprite transfer ends. With no other transfer, and a cycle counter that does not overflow,
  -- `handle_dma` takes 513 cycles, 514 from an even one, writes the 256 bytes of the page to
  -- $2004 in their order and leaves no transfer running.
  handle_dma-sends :
      (addr : ℕ) (c : Cpu B)
      → c.lines.dmas.oam ≡ true
      → c.lines.dmas.dmc ≡ false
      → c.lines.dma_oam_addr ≡ page
      → c.cycle + 514 < usize_mod
      → view t (handle_dma addr c)
        ≡ state page
            (t.byte c.bus)
            (c.cycle + 513 + (c.cycle + 1) % 2)
            false
            (send_from (t.byte c.bus) 0 256 (t.sent c.bus))
  unfolding handle_dma
  handle_dma-sends addr c ho hd hp lt =
      let skip = addr == 16406 || addr == 16407 in
      let c1 = halted_read addr c in
      let n = c.cycle + 1 in
      let cycle1 : usize (c.cycle + 1) ≡ n = omega arith in
      let halted : view t c1 ≡ state page (t.byte c.bus) n true (t.sent c.bus) =
        halted_read-view t addr c ∙ (λ k. record {
          cycle = cycle1 k;
          lines = record { oam = ho k; dmc = hd k; halt = false; page = hp k };
          bytes = t.byte c.bus;
          sent = t.sent c.bus;
        }) in
      send_page dma_fuel addr skip c1 halted (omega arith) (omega arith)
      ∙ ap (λ m. state page (t.byte c.bus) m false (send_from (t.byte c.bus) 0 256 (t.sent c.bus)))
          (omega arith)
