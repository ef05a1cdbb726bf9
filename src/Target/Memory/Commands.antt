-- ===== src/Target/Memory/Commands.antt =====
-- Memory access over a debug module as the debug specification has it: the memory commands of a
-- 32-bit target, which it runs at once and without errors.
use nuclei_dlink.Base.{
  ℕ, zero, suc, ◌+◌, ◌*◌, ◌/◌, ◌%◌, ◌^◌, ◌<◌, ◌≡◌, refl, ap, true, false, ltb, List, [], ◌∷◌, arith,
  ◌==◌, if◌then◌else◌, ◌≤◌, length, Bool-cases, inl, inr,
}
use nuclei_dlink.Target.Memory.{
  Dmi, Dm, reg_data0, reg_data1, reg_command, mxl_rv32, mem_command, element, write_reg,
  set_address, run_command, read_data0, read_elements, rv_memory_read, write_elements,
  rv_memory_write,
}

-- Memory, accessed by elements of `2 ^ size` bytes.
pub record Memory (M : Type 0) : Type 0 where
  pub load : ℕ → ℕ → M → ℕ
  pub store : ℕ → ℕ → ℕ → M → M

pub record Module (M : Type 0) : Type 0 where
  pub value : ℕ
  pub address : ℕ
  pub memory : M

module _ {M : Type 0} (mem : Memory M) where
  -- A memory command: the size in bits 20 to 22, a write if bit 16 is set.
  pub execute : ℕ → Module M → Module M
  execute command d =
      let size = command / 2 ^ 20 % 2 ^ 3 in
      if command / 2 ^ 16 % 2 == 1
      then record d { memory = mem.store size d.address d.value d.memory }
      else record d { value = mem.load size d.address d.memory }

  pub abstract_commands : Dmi (Module M)
  abstract_commands = record {
    read = λ reg out d. (if reg == reg_data0 then d.value else 0, d);
    write = λ reg value d.
        if reg == reg_data0
        then record d { value = value }
        else if reg == reg_data1
        then record d { address = value }
        else if reg == reg_command
        then execute value d
        else d;
  }

  -- The elements of the memory at `n` addresses that follow each other by `2 ^ size`.
  unfoldable pub loaded : ℕ → ℕ → ℕ → ℕ → M → List ℕ
  loaded zero i addr size m = []
  loaded (suc n) i addr size m =
      element size (mem.load size ((addr + i * 2 ^ size) % 2 ^ 32) m) ∷ loaded n (suc i) addr size m

  unfoldable pub stored : List ℕ → ℕ → ℕ → ℕ → M → M
  stored [] i addr size m = m
  stored (x ∷ xs) i addr size m =
      stored xs (suc i) addr size
        (mem.store size ((addr + i * 2 ^ size) % 2 ^ 32) (element size x) m)

  execute-load :
      (size : ℕ) (d : Module M)
      → size < 2 ^ 3
      → execute (mem_command size 0) d ≡ record d { value = mem.load size d.address d.memory }
  unfolding execute
  execute-load size d h =
      let kind : mem_command size 0 / 2 ^ 16 % 2 ≡ 0 = omega arith in
      let part : mem_command size 0 / 2 ^ 20 % 2 ^ 3 ≡ size = omega arith in rw (kind, part) refl

  execute-store :
      (size : ℕ) (d : Module M)
      → size < 2 ^ 3
      → execute (mem_command size 1) d
        ≡ record d { memory = mem.store size d.address d.value d.memory }
  unfolding execute
  execute-store size d h =
      let kind : mem_command size 1 / 2 ^ 16 % 2 ≡ 1 = omega arith in
      let part : mem_command size 1 / 2 ^ 20 % 2 ^ 3 ≡ size = omega arith in rw (kind, part) refl

  read_elements-loaded :
      (n i addr size : ℕ) (s : Dm (Module M))
      → size < 3
      → let (xs, s') = read_elements abstract_commands mxl_rv32 n i addr size s in
        (xs ≡ loaded n i addr size s.under.memory)
        × (s'.under.memory ≡ s.under.memory)
        × (s'.err_flag ≡ s.err_flag)
  unfolding read_elements loaded abstract_commands set_address run_command read_data0 write_reg
  read_elements-loaded zero i addr size s h = (refl, refl, refl)
  read_elements-loaded (suc n) i addr size s h =
      let a = (addr + i * 2 ^ size) % 2 ^ 32 in
      let v = mem.load size a s.under.memory in
      let small : ltb size 3 ≡ true = ground (arith, h) in
      let (xs, m, e) =
        read_elements-loaded n (suc i) addr size
          (record s {
            abstractcs = 0;
            data0 = v;
            data1 = a;
            under = record s.under { address = a; value = v };
          })
          h in
      rw (execute-load size (record s.under { address = a }) (omega (arith, h)), small)
        (ap (λ l. element size v ∷ l) xs, m, e)

  write_elements-stored :
      (xs : List ℕ) (i addr size : ℕ) (s : Dm (Module M))
      → size < 3
      → let s' = write_elements abstract_commands mxl_rv32 xs i addr size s in
        (s'.under.memory ≡ stored xs i addr size s.under.memory) × (s'.err_flag ≡ s.err_flag)
  unfolding write_elements stored abstract_commands set_address run_command write_reg
  write_elements-stored [] i addr size s h = (refl, refl)
  write_elements-stored (x ∷ xs) i addr size s h =
      let a = (addr + i * 2 ^ size) % 2 ^ 32 in
      let v = element size x in
      let small : ltb size 3 ≡ true = ground (arith, h) in
      let (m, e) =
        write_elements-stored xs (suc i) addr size
          (record s {
            abstractcs = 0;
            data0 = v;
            data1 = a;
            under = record s.under {
              address = a;
              value = v;
              memory = mem.store size a v s.under.memory;
            };
          })
          h in
      rw (small, execute-store size (record s.under { address = a; value = v }) (omega (arith, h)))
        (m, e)

-- On a 32-bit target that runs the memory commands without errors, a read of memory stores the
-- elements at the addresses that follow each other by the size of an element, modulo 2³², clears the
-- error flag and leaves the memory as it was. An element has 8, 16 or
-- 32 bits.
pub rv_memory_read-loaded :
    {M : Type 0} (mem : Memory M) (addr len size : ℕ) (s : Dm (Module M))
    → size < 3
    → let (xs, s') = rv_memory_read (abstract_commands mem) mxl_rv32 addr len size s in
      (xs ≡ loaded mem len 0 addr size s.under.memory)
      × (s'.under.memory ≡ s.under.memory)
      × (s'.err_flag ≡ false)
unfolding rv_memory_read
rv_memory_read-loaded mem addr len size s h =
    read_elements-loaded mem len 0 addr size (record s { err_flag = false }) h

-- On a 32-bit target that runs the memory commands without errors, a write of memory stores every
-- element of the buffer, cut to its size, in order, at the addresses that follow each other by the
-- size of an element, modulo 2³², and clears the error flag. An element has 8, 16 or
-- 32 bits.
pub rv_memory_write-stored :
    {M : Type 0} (mem : Memory M) (xs : List ℕ) (addr size : ℕ) (s : Dm (Module M))
    → size < 3
    → let s' = rv_memory_write (abstract_commands mem) mxl_rv32 xs addr size s in
      (s'.under.memory ≡ stored mem xs 0 addr size s.under.memory) × (s'.err_flag ≡ false)
unfolding rv_memory_write
rv_memory_write-stored mem xs addr size s h =
    write_elements-stored mem xs 0 addr size (record s { err_flag = false }) h

length-read_elements :
    {D : Type 0} (dmi : Dmi D) (mxl n i addr size : ℕ) (s : Dm D)
    → length (read_elements dmi mxl n i addr size s).0 ≤ n
unfolding read_elements
length-read_elements dmi mxl zero i addr size s = omega arith
length-read_elements dmi mxl (suc n) i addr size s =
    let step = run_command dmi mxl (mem_command size 0) (set_address dmi mxl addr i size s) in
    let ih = length-read_elements dmi mxl n (suc i) addr size (read_data0 dmi mxl step.1) in
    elim (Bool-cases step.0) [
      | inl e ↦ rw (e) (elim (Bool-cases (ltb size 3)) [
        | inl b ↦ rw (b) (omega (arith, ih))
        | inr b ↦ rw (b) (omega (arith, ih))
      ])
      | inr e ↦ rw (e) (omega arith)
    ]

-- No more elements are stored than there is room for.
pub length-rv_memory_read :
    {D : Type 0} (dmi : Dmi D) (mxl addr n size : ℕ) (s : Dm D)
    → length (rv_memory_read dmi mxl addr n size s).0 ≤ n
unfolding rv_memory_read
length-rv_memory_read dmi mxl addr n size s =
    length-read_elements dmi mxl n 0 addr size (record s { err_flag = false })
