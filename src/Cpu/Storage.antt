-- ===== src/Cpu/Storage.antt =====
-- tetanes-core/src/cpu/instr.rs: the operations that load, store, transfer and set flags.
use tetanes.Base.{true, false}
use tetanes.Cpu.State.{BusOps, Cpu, set_zn_status}
use tetanes.Cpu.Access.{write}
use tetanes.Cpu.Fetch.{fetch_data_cross, fetch_data}

module _ {B : Type 0} ⦃ops : BusOps B⦄ where
  unfoldable pub lda : Cpu B → Cpu B
  lda c =
      let c1 = fetch_data_cross c in
      set_zn_status c1.fetched_data (record c1 { acc = c1.fetched_data })

  unfoldable pub ldx : Cpu B → Cpu B
  ldx c =
      let c1 = fetch_data_cross c in
      set_zn_status c1.fetched_data (record c1 { x = c1.fetched_data })

  unfoldable pub ldy : Cpu B → Cpu B
  ldy c =
      let c1 = fetch_data_cross c in
      set_zn_status c1.fetched_data (record c1 { y = c1.fetched_data })

  unfoldable pub sta : Cpu B → Cpu B
  sta c = write c.abs_addr c.acc c

  unfoldable pub stx : Cpu B → Cpu B
  stx c = write c.abs_addr c.x c

  unfoldable pub sty : Cpu B → Cpu B
  sty c = write c.abs_addr c.y c

  unfoldable pub tax : Cpu B → Cpu B
  tax c = set_zn_status c.acc (record c { x = c.acc })

  unfoldable pub tay : Cpu B → Cpu B
  tay c = set_zn_status c.acc (record c { y = c.acc })

  unfoldable pub tsx : Cpu B → Cpu B
  tsx c = set_zn_status c.sp (record c { x = c.sp })

  unfoldable pub txa : Cpu B → Cpu B
  txa c = set_zn_status c.x (record c { acc = c.x })

  unfoldable pub txs : Cpu B → Cpu B
  txs c = record c { sp = c.x }

  unfoldable pub tya : Cpu B → Cpu B
  tya c = set_zn_status c.y (record c { acc = c.y })

  unfoldable pub clc : Cpu B → Cpu B
  clc c = record c { status = record (c.status) { carry = false } }

  unfoldable pub sec : Cpu B → Cpu B
  sec c = record c { status = record (c.status) { carry = true } }

  unfoldable pub cld : Cpu B → Cpu B
  cld c = record c { status = record (c.status) { decimal = false } }

  unfoldable pub sed : Cpu B → Cpu B
  sed c = record c { status = record (c.status) { decimal = true } }

  unfoldable pub cli : Cpu B → Cpu B
  cli c = record c { status = record (c.status) { interrupt = false } }

  unfoldable pub sei : Cpu B → Cpu B
  sei c = record c { status = record (c.status) { interrupt = true } }

  unfoldable pub clv : Cpu B → Cpu B
  clv c = record c { status = record (c.status) { overflow = false } }

  unfoldable pub nop : Cpu B → Cpu B
  nop c = fetch_data_cross c

  unfoldable pub skb : Cpu B → Cpu B
  skb c = fetch_data c

  unfoldable pub ign : Cpu B → Cpu B
  ign c = fetch_data_cross c

  unfoldable pub xxx : Cpu B → Cpu B
  xxx c = record c { corrupted = true }
