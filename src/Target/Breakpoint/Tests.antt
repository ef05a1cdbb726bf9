-- ===== src/Target/Breakpoint/Tests.antt =====
-- The tables on a target with two halfwords of memory, whose trigger registers read as 0.
use nuclei_dlink.Base.{
  ℕ, ◌+◌, ◌*◌, ◌%◌, ◌^◌, ◌≤◌, suc, ◌≡◌, refl, true, false, List, [], ◌∷◌, ◌==◌, if◌then◌else◌,
  length, All, arith,
}
use nuclei_dlink.Target.Breakpoint.{
  Hart, software, hardware, unused, Slot, Tables, half_count, is_at, is_unused, type_number,
  rv_target_insert_breakpoint, rv_target_remove_breakpoint, table_error,
}
use nuclei_dlink.Target.Breakpoint.Software.{active, has_unused}
use nuclei_dlink.Target.Breakpoint.Stored.{attached, remove-insert_software}
use nuclei_dlink.Target.Memory.{Dm}
use nuclei_dlink.Target.Memory.Commands.{Module}
use nuclei_dlink.Target.Breakpoint.Hardware.{rv_target_insert_breakpoint-taken}

put : List ℕ → ℕ × ℕ → ℕ × ℕ
put [] w = w
put (x ∷ []) w = (x, w.1)
put (x ∷ y ∷ zs) w = (x, y)

abbrev two_halves : Hart (ℕ × ℕ)
two_halves = record {
  mxl = 1;
  misa_s = false;
  misa_u = false;
  zero_value = 0;
  read_halves = λ addr n w. (if n == 1 then w.0 ∷ [] else w.0 ∷ w.1 ∷ [], w);
  write_halves = λ xs addr w. put xs w;
  read_register = λ regno w. (0, w);
  write_register = λ regno value w. w;
}

abbrev free : Slot
free = record { type = unused; addr = 0; kind = 0; inst = 0 ∷ 0 ∷ [] }

abbrev taken : Slot
taken = record { type = software; addr = 0x40; kind = 4; inst = 0x13 ∷ 0 ∷ [] }

abbrev tables : Tables (ℕ × ℕ)
tables = record {
  software_breakpoints = taken ∷ free ∷ [];
  hardware_breakpoints = free ∷ free ∷ [];
  target = (0x0113, 0x0080);
}

-- A memory of bytes.
abbrev byte_target : Dm (Module (ℕ → ℕ))
byte_target = record {
  err_flag = false;
  abstractcs = 0;
  data0 = 0;
  data1 = 0;
  hartinfo = 0;
  dmstatus = 0;
  dcsr = 0;
  save_vtype = [];
  save_vl = [];
  under = record { value = 0; address = 0; memory = λ a. a % 2 ^ 8 };
}

abbrev no_registers : Hart (Dm (Module (ℕ → ℕ)))
no_registers = record {
  mxl = 1;
  misa_s = false;
  misa_u = false;
  zero_value = 0;
  read_halves = λ addr n w. ([], w);
  write_halves = λ xs addr w. w;
  read_register = λ regno w. (0, w);
  write_register = λ regno value w. w;
}

abbrev stored_tables : Tables (Dm (Module (ℕ → ℕ)))
stored_tables = record {
  software_breakpoints = taken ∷ free ∷ [];
  hardware_breakpoints = free ∷ free ∷ [];
  target = byte_target;
}

not_there : All (λ b. is_at software 0x20 4 b ≡ false) (taken ∷ free ∷ [])
unfolding is_at type_number
not_there = (refl, (refl, tt))

room : has_unused (taken ∷ free ∷ []) ≡ true
unfolding has_unused is_unused type_number
room = refl

inside : 0x20 + 2 * half_count 4 ≤ 2 ^ 32
unfolding half_count
inside = omega arith

remove-insert_software_example :
    let (err, t') =
      rv_target_insert_breakpoint (attached no_registers) software 0x20 4 stored_tables in
    let (err', t'') = rv_target_remove_breakpoint (attached no_registers) software 0x20 4 t' in
    (err ≡ 0)
    × (err' ≡ 0)
    × (t''.target.under.memory ≡ (λ a. a % 2 ^ 8))
    × (active t''.software_breakpoints ≡ active (taken ∷ free ∷ []))
    × (t''.hardware_breakpoints ≡ free ∷ free ∷ [])
remove-insert_software_example =
    remove-insert_software no_registers 0x20 4 stored_tables (λ a. omega arith) inside not_there
      room

rv_target_insert_breakpoint-taken_example :
    let (err, t') = rv_target_insert_breakpoint two_halves hardware 0x20 4 tables in
    (has_unused (free ∷ free ∷ []) ≡ true
      → length (active t'.hardware_breakpoints) ≡ suc (length (active (free ∷ free ∷ []))))
    × (has_unused (free ∷ free ∷ []) ≡ false
        → (err ≡ table_error) × (t'.hardware_breakpoints ≡ free ∷ free ∷ []))
    × (t'.software_breakpoints ≡ taken ∷ free ∷ [])
unfolding type_number
rv_target_insert_breakpoint-taken_example =
    rv_target_insert_breakpoint-taken two_halves hardware 0x20 4 tables (omega arith) (omega arith)
