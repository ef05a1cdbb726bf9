-- ===== src/Target/Register/Machine.antt =====
-- A 32-bit hart behind its debug module as the debug specification has it: the abstract commands
-- access the general registers, and of the CSRs those that `supported` says; the program buffer
-- runs the two CSR instructions that the code puts there.
use nuclei_dlink.Base.{
  ℕ, zero, suc, ◌+◌, ◌-◌, ◌*◌, ◌^◌, bit_or, Bool, true, false, ◌&&◌, ◌==◌, leb, ltb, if◌then◌else◌,
  field,
}
use nuclei_dlink.Opcodes.{ebreak}
use nuclei_dlink.Target.Memory.{Dmi, reg_data0, reg_abstractcs, reg_command}
use nuclei_dlink.Target.Register.{reg_program_buffer0}

pub record Machine : Type 0 where
  pub gpr : ℕ → ℕ
  pub csr : ℕ → ℕ
  pub program : ℕ → ℕ
  pub data0 : ℕ
  pub error : ℕ
  pub running : Bool

unfoldable pub update : (ℕ → ℕ) → ℕ → ℕ → ℕ → ℕ
update f i v j = if j == i then v else f j

-- A write of a general register; register 0 stays 0.
abbrev pub put : ℕ → ℕ → Machine → Machine
put r v m = if r == 0 then m else record m { gpr = update m.gpr r v }

-- csrrw and csrrs, by `funct3`.
unfoldable pub step : ℕ → Machine → Machine
step inst m =
    let rd = field 7 5 inst in
    let kind = field 12 3 inst in
    let rs1 = field 15 5 inst in
    let number = field 20 12 inst in
    let old = m.csr number in
    let exchanged = record m { csr = update m.csr number (m.gpr rs1) } in
    let changed = record m { csr = update m.csr number (bit_or old (m.gpr rs1)) } in
    if field 0 7 inst == 0x73
    then (if kind == 1
        then put rd old exchanged
        else if kind == 2
        then put rd old (if rs1 == 0 then m else changed)
        else record m { error = 3 })
    else record m { error = 3 }

-- Up to `n` instructions of the program from entry `i` on, to the ebreak.
unfoldable pub run_program : ℕ → ℕ → Machine → Machine
run_program zero i m = record m { error = 3 }
run_program (suc n) i m =
    let rest = run_program n (i + 1) (step (m.program i) m) in
    if m.program i == ebreak then m else rest

-- What a write of `dmcontrol`, at 0x10, asks of the hart: bit 31 halts it, bit 30 resumes it if bit 31 is
-- clear, and nothing happens unless the module stays active by bit 0.
unfoldable pub requested : ℕ → Bool → Bool
requested value running =
    if field 0 1 value == 1
    then (if field 31 1 value == 1 then false else if field 30 1 value == 1 then true else running)
    else running

module _ (supported : ℕ → Bool) where
  -- The transfer of a register access command.
  unfoldable pub transfer : ℕ → ℕ → Machine → Machine
  transfer write number m =
      let stored = put (number - 0x1000) m.data0 m in
      if leb 0x1000 number && ltb number 0x1020
      then (if write == 1 then stored else record m { data0 = m.gpr (number - 0x1000) })
      else if supported number
      then (if write == 1
          then record m { csr = update m.csr number m.data0 }
          else record m { data0 = m.csr number })
      else record m { error = 2 }

  -- A command is not run while an error is set.
  unfoldable pub command : ℕ → Machine → Machine
  command word m =
      let moved =
        if field 17 1 word == 1 then transfer (field 16 1 word) (field 0 16 word) m else m in
      if m.error == 0 then (if field 18 1 word == 1 then run_program 16 0 moved else moved) else m

  unfoldable pub machine : Dmi Machine
  machine = record {
    read = λ reg out m. (
      if reg == reg_data0 then m.data0 else if reg == reg_abstractcs then m.error * 2 ^ 8 else 0,
      m,
    );
    write = λ reg value m.
        if reg == reg_data0
        then record m { data0 = value }
        else if reg == reg_abstractcs
        then record m { error = 0 }
        else if reg == reg_command
        then command value m
        else if leb reg_program_buffer0 reg
        then record m { program = update m.program (reg - reg_program_buffer0) value }
        else if reg == 0x10
        then record m { running = requested value m.running }
        else m;
  }
