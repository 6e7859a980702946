-- ===== src/Cpu/Instr.antt =====
-- tetanes-core/src/cpu/instr.rs: operations, addressing modes and the instruction table. A
-- row of the table is the function of its sixteen opcodes.
use tetanes.Base.{ℕ, ◌/◌, ◌%◌, List, [], ◌∷◌, get_or}

pub data Operation : Type 0 where
  adc and asl bcc bcs beq bit bmi bne bpl brk bvc bvs clc cld cli clv cmp cpx cpy dec dex dey eor :
      Operation
  inc inx iny jmp jsr lda ldx ldy lsr nop ora pha php pla plp rol ror rti rts sbc sec sed sei sta :
      Operation
  stx sty tax tay tsx txa txs tya skb ign isb dcp axs las lax ahx sax xaa sxa rra tas sya arr sre :
      Operation
  alr rla anc slo xxx : Operation

pub data AddrMode : Type 0 where
  m_imm m_zp0 m_zpx m_zpy m_abs m_abx m_aby m_ind m_idx m_idy m_rel m_acc m_imp : AddrMode

pub record Instr : Type 0 where
  pub opcode : ℕ
  pub addr_mode : AddrMode
  pub op : Operation
  pub cycles : ℕ

abbrev instr : ℕ → AddrMode → Operation → ℕ → Instr
instr opcode mode op cycles = record { opcode = opcode; addr_mode = mode; op = op; cycles = cycles }

abbrev row_0 : List Instr
row_0 =
    instr 0 m_imm brk 7
    ∷ instr 1 m_idx ora 6
    ∷ instr 2 m_imp xxx 2
    ∷ instr 3 m_idx slo 8
    ∷ instr 4 m_zp0 nop 3
    ∷ instr 5 m_zp0 ora 3
    ∷ instr 6 m_zp0 asl 5
    ∷ instr 7 m_zp0 slo 5
    ∷ instr 8 m_imp php 3
    ∷ instr 9 m_imm ora 2
    ∷ instr 10 m_acc asl 2
    ∷ instr 11 m_imm anc 2
    ∷ instr 12 m_abs nop 4
    ∷ instr 13 m_abs ora 4
    ∷ instr 14 m_abs asl 6
    ∷ instr 15 m_abs slo 6
    ∷ []

abbrev row_1 : List Instr
row_1 =
    instr 16 m_rel bpl 2
    ∷ instr 17 m_idy ora 5
    ∷ instr 18 m_imp xxx 2
    ∷ instr 19 m_idy slo 8
    ∷ instr 20 m_zpx nop 4
    ∷ instr 21 m_zpx ora 4
    ∷ instr 22 m_zpx asl 6
    ∷ instr 23 m_zpx slo 6
    ∷ instr 24 m_imp clc 2
    ∷ instr 25 m_aby ora 4
    ∷ instr 26 m_imp nop 2
    ∷ instr 27 m_aby slo 7
    ∷ instr 28 m_abx ign 4
    ∷ instr 29 m_abx ora 4
    ∷ instr 30 m_abx asl 7
    ∷ instr 31 m_abx slo 7
    ∷ []

abbrev row_2 : List Instr
row_2 =
    instr 32 m_abs jsr 6
    ∷ instr 33 m_idx and 6
    ∷ instr 34 m_imp xxx 2
    ∷ instr 35 m_idx rla 8
    ∷ instr 36 m_zp0 bit 3
    ∷ instr 37 m_zp0 and 3
    ∷ instr 38 m_zp0 rol 5
    ∷ instr 39 m_zp0 rla 5
    ∷ instr 40 m_imp plp 4
    ∷ instr 41 m_imm and 2
    ∷ instr 42 m_acc rol 2
    ∷ instr 43 m_imm anc 2
    ∷ instr 44 m_abs bit 4
    ∷ instr 45 m_abs and 4
    ∷ instr 46 m_abs rol 6
    ∷ instr 47 m_abs rla 6
    ∷ []

abbrev row_3 : List Instr
row_3 =
    instr 48 m_rel bmi 2
    ∷ instr 49 m_idy and 5
    ∷ instr 50 m_imp xxx 2
    ∷ instr 51 m_idy rla 8
    ∷ instr 52 m_zpx nop 4
    ∷ instr 53 m_zpx and 4
    ∷ instr 54 m_zpx rol 6
    ∷ instr 55 m_zpx rla 6
    ∷ instr 56 m_imp sec 2
    ∷ instr 57 m_aby and 4
    ∷ instr 58 m_imp nop 2
    ∷ instr 59 m_aby rla 7
    ∷ instr 60 m_abx ign 4
    ∷ instr 61 m_abx and 4
    ∷ instr 62 m_abx rol 7
    ∷ instr 63 m_abx rla 7
    ∷ []

abbrev row_4 : List Instr
row_4 =
    instr 64 m_imp rti 6
    ∷ instr 65 m_idx eor 6
    ∷ instr 66 m_imp xxx 2
    ∷ instr 67 m_idx sre 8
    ∷ instr 68 m_zp0 nop 3
    ∷ instr 69 m_zp0 eor 3
    ∷ instr 70 m_zp0 lsr 5
    ∷ instr 71 m_zp0 sre 5
    ∷ instr 72 m_imp pha 3
    ∷ instr 73 m_imm eor 2
    ∷ instr 74 m_acc lsr 2
    ∷ instr 75 m_imm alr 2
    ∷ instr 76 m_abs jmp 3
    ∷ instr 77 m_abs eor 4
    ∷ instr 78 m_abs lsr 6
    ∷ instr 79 m_abs sre 6
    ∷ []

abbrev row_5 : List Instr
row_5 =
    instr 80 m_rel bvc 2
    ∷ instr 81 m_idy eor 5
    ∷ instr 82 m_imp xxx 2
    ∷ instr 83 m_idy sre 8
    ∷ instr 84 m_zpx nop 4
    ∷ instr 85 m_zpx eor 4
    ∷ instr 86 m_zpx lsr 6
    ∷ instr 87 m_zpx sre 6
    ∷ instr 88 m_imp cli 2
    ∷ instr 89 m_aby eor 4
    ∷ instr 90 m_imp nop 2
    ∷ instr 91 m_aby sre 7
    ∷ instr 92 m_abx ign 4
    ∷ instr 93 m_abx eor 4
    ∷ instr 94 m_abx lsr 7
    ∷ instr 95 m_abx sre 7
    ∷ []

abbrev row_6 : List Instr
row_6 =
    instr 96 m_imp rts 6
    ∷ instr 97 m_idx adc 6
    ∷ instr 98 m_imp xxx 2
    ∷ instr 99 m_idx rra 8
    ∷ instr 100 m_zp0 nop 3
    ∷ instr 101 m_zp0 adc 3
    ∷ instr 102 m_zp0 ror 5
    ∷ instr 103 m_zp0 rra 5
    ∷ instr 104 m_imp pla 4
    ∷ instr 105 m_imm adc 2
    ∷ instr 106 m_acc ror 2
    ∷ instr 107 m_imm arr 2
    ∷ instr 108 m_ind jmp 5
    ∷ instr 109 m_abs adc 4
    ∷ instr 110 m_abs ror 6
    ∷ instr 111 m_abs rra 6
    ∷ []

abbrev row_7 : List Instr
row_7 =
    instr 112 m_rel bvs 2
    ∷ instr 113 m_idy adc 5
    ∷ instr 114 m_imp xxx 2
    ∷ instr 115 m_idy rra 8
    ∷ instr 116 m_zpx nop 4
    ∷ instr 117 m_zpx adc 4
    ∷ instr 118 m_zpx ror 6
    ∷ instr 119 m_zpx rra 6
    ∷ instr 120 m_imp sei 2
    ∷ instr 121 m_aby adc 4
    ∷ instr 122 m_imp nop 2
    ∷ instr 123 m_aby rra 7
    ∷ instr 124 m_abx ign 4
    ∷ instr 125 m_abx adc 4
    ∷ instr 126 m_abx ror 7
    ∷ instr 127 m_abx rra 7
    ∷ []

abbrev row_8 : List Instr
row_8 =
    instr 128 m_imm skb 2
    ∷ instr 129 m_idx sta 6
    ∷ instr 130 m_imm skb 2
    ∷ instr 131 m_idx sax 6
    ∷ instr 132 m_zp0 sty 3
    ∷ instr 133 m_zp0 sta 3
    ∷ instr 134 m_zp0 stx 3
    ∷ instr 135 m_zp0 sax 3
    ∷ instr 136 m_imp dey 2
    ∷ instr 137 m_imm skb 2
    ∷ instr 138 m_imp txa 2
    ∷ instr 139 m_imm xaa 2
    ∷ instr 140 m_abs sty 4
    ∷ instr 141 m_abs sta 4
    ∷ instr 142 m_abs stx 4
    ∷ instr 143 m_abs sax 4
    ∷ []

abbrev row_9 : List Instr
row_9 =
    instr 144 m_rel bcc 2
    ∷ instr 145 m_idy sta 6
    ∷ instr 146 m_imp xxx 2
    ∷ instr 147 m_idy ahx 6
    ∷ instr 148 m_zpx sty 4
    ∷ instr 149 m_zpx sta 4
    ∷ instr 150 m_zpy stx 4
    ∷ instr 151 m_zpy sax 4
    ∷ instr 152 m_imp tya 2
    ∷ instr 153 m_aby sta 5
    ∷ instr 154 m_imp txs 2
    ∷ instr 155 m_aby tas 5
    ∷ instr 156 m_abx sya 5
    ∷ instr 157 m_abx sta 5
    ∷ instr 158 m_aby sxa 5
    ∷ instr 159 m_aby ahx 5
    ∷ []

abbrev row_a : List Instr
row_a =
    instr 160 m_imm ldy 2
    ∷ instr 161 m_idx lda 6
    ∷ instr 162 m_imm ldx 2
    ∷ instr 163 m_idx lax 6
    ∷ instr 164 m_zp0 ldy 3
    ∷ instr 165 m_zp0 lda 3
    ∷ instr 166 m_zp0 ldx 3
    ∷ instr 167 m_zp0 lax 3
    ∷ instr 168 m_imp tay 2
    ∷ instr 169 m_imm lda 2
    ∷ instr 170 m_imp tax 2
    ∷ instr 171 m_imm lax 2
    ∷ instr 172 m_abs ldy 4
    ∷ instr 173 m_abs lda 4
    ∷ instr 174 m_abs ldx 4
    ∷ instr 175 m_abs lax 4
    ∷ []

abbrev row_b : List Instr
row_b =
    instr 176 m_rel bcs 2
    ∷ instr 177 m_idy lda 5
    ∷ instr 178 m_imp xxx 2
    ∷ instr 179 m_idy lax 5
    ∷ instr 180 m_zpx ldy 4
    ∷ instr 181 m_zpx lda 4
    ∷ instr 182 m_zpy ldx 4
    ∷ instr 183 m_zpy lax 4
    ∷ instr 184 m_imp clv 2
    ∷ instr 185 m_aby lda 4
    ∷ instr 186 m_imp tsx 2
    ∷ instr 187 m_aby las 4
    ∷ instr 188 m_abx ldy 4
    ∷ instr 189 m_abx lda 4
    ∷ instr 190 m_aby ldx 4
    ∷ instr 191 m_aby lax 4
    ∷ []

abbrev row_c : List Instr
row_c =
    instr 192 m_imm cpy 2
    ∷ instr 193 m_idx cmp 6
    ∷ instr 194 m_imm skb 2
    ∷ instr 195 m_idx dcp 8
    ∷ instr 196 m_zp0 cpy 3
    ∷ instr 197 m_zp0 cmp 3
    ∷ instr 198 m_zp0 dec 5
    ∷ instr 199 m_zp0 dcp 5
    ∷ instr 200 m_imp iny 2
    ∷ instr 201 m_imm cmp 2
    ∷ instr 202 m_imp dex 2
    ∷ instr 203 m_imm axs 2
    ∷ instr 204 m_abs cpy 4
    ∷ instr 205 m_abs cmp 4
    ∷ instr 206 m_abs dec 6
    ∷ instr 207 m_abs dcp 6
    ∷ []

abbrev row_d : List Instr
row_d =
    instr 208 m_rel bne 2
    ∷ instr 209 m_idy cmp 5
    ∷ instr 210 m_imp xxx 2
    ∷ instr 211 m_idy dcp 8
    ∷ instr 212 m_zpx nop 4
    ∷ instr 213 m_zpx cmp 4
    ∷ instr 214 m_zpx dec 6
    ∷ instr 215 m_zpx dcp 6
    ∷ instr 216 m_imp cld 2
    ∷ instr 217 m_aby cmp 4
    ∷ instr 218 m_imp nop 2
    ∷ instr 219 m_aby dcp 7
    ∷ instr 220 m_abx ign 4
    ∷ instr 221 m_abx cmp 4
    ∷ instr 222 m_abx dec 7
    ∷ instr 223 m_abx dcp 7
    ∷ []

abbrev row_e : List Instr
row_e =
    instr 224 m_imm cpx 2
    ∷ instr 225 m_idx sbc 6
    ∷ instr 226 m_imm skb 2
    ∷ instr 227 m_idx isb 8
    ∷ instr 228 m_zp0 cpx 3
    ∷ instr 229 m_zp0 sbc 3
    ∷ instr 230 m_zp0 inc 5
    ∷ instr 231 m_zp0 isb 5
    ∷ instr 232 m_imp inx 2
    ∷ instr 233 m_imm sbc 2
    ∷ instr 234 m_imp nop 2
    ∷ instr 235 m_imm sbc 2
    ∷ instr 236 m_abs cpx 4
    ∷ instr 237 m_abs sbc 4
    ∷ instr 238 m_abs inc 6
    ∷ instr 239 m_abs isb 6
    ∷ []

abbrev row_f : List Instr
row_f =
    instr 240 m_rel beq 2
    ∷ instr 241 m_idy sbc 5
    ∷ instr 242 m_imp xxx 2
    ∷ instr 243 m_idy isb 8
    ∷ instr 244 m_zpx nop 4
    ∷ instr 245 m_zpx sbc 4
    ∷ instr 246 m_zpx inc 6
    ∷ instr 247 m_zpx isb 6
    ∷ instr 248 m_imp sed 2
    ∷ instr 249 m_aby sbc 4
    ∷ instr 250 m_imp nop 2
    ∷ instr 251 m_aby isb 7
    ∷ instr 252 m_abx ign 4
    ∷ instr 253 m_abx sbc 4
    ∷ instr 254 m_abx inc 7
    ∷ instr 255 m_abx isb 7
    ∷ []

rows : List (List Instr)
rows =
    row_0 ∷ row_1 ∷ row_2 ∷ row_3 ∷ row_4 ∷ row_5 ∷ row_6 ∷ row_7 ∷ row_8 ∷ row_9 ∷ row_a ∷ row_b
    ∷ row_c ∷ row_d ∷ row_e ∷ row_f ∷ []

-- `INSTRUCTIONS[opcode as usize]` of a byte.
unfoldable pub instructions : ℕ → Instr
unfolding rows
instructions opcode = get_or (get_or rows (opcode / 16 % 16) []) (opcode % 16) (instr 0 m_imm xxx 0)
