-- ===== src/Target/Breakpoint/Stored.antt =====
-- Software breakpoints in the memory of a target: the insertion and the removal over `rv_memory_read` and
-- `rv_memory_write`.
use nuclei_dlink.Base.{
  ℕ, zero, suc, ◌+◌, ◌*◌, ◌^◌, ◌≤◌, ◌<◌, ◌≡◌, refl, ap, ◌∙◌, true, false, arith, length, ◌==◌,
  Bool-cases, inl, inr, All,
}
use nuclei_dlink.Target.Memory.{Dmi, Dm, mxl_rv32, rv_memory_read, rv_memory_write}
use nuclei_dlink.Target.Memory.Commands.{
  Module, abstract_commands, loaded, stored, rv_memory_read-loaded, rv_memory_write-stored,
}
use nuclei_dlink.Target.Memory.Bytes.{byte_memory}
use nuclei_dlink.Target.Memory.Halves.{half_back, halves_pair_back}
use nuclei_dlink.Target.Breakpoint.{
  Hart, software, is_at, half_count, ebreak_halves, Tables, rv_target_insert_breakpoint,
  rv_target_remove_breakpoint,
}
use nuclei_dlink.Target.Breakpoint.Software.{active, has_unused, remove-insert_halves}

-- A hart of 32 bits whose memory is accessed through the debug module; its registers are given.
pub over_memory : {D : Type 0} → Dmi D → Hart (Dm D) → Hart (Dm D)
over_memory dmi registers = record registers {
  mxl = mxl_rv32;
  read_halves = λ addr n. rv_memory_read dmi mxl_rv32 addr n 1;
  write_halves = λ halves addr. rv_memory_write dmi mxl_rv32 halves addr 1;
}

length-loaded : (n i addr : ℕ) (m : ℕ → ℕ) → length (loaded byte_memory n i addr 1 m) ≡ n
unfolding loaded
length-loaded zero i addr m = refl
length-loaded (suc n) i addr m = ap suc (length-loaded n (suc i) addr m)

-- The memory after the halfwords at `addr` have been read, the ebreak written and they written back.
memory_back :
    (addr kind : ℕ) (m : ℕ → ℕ)
    → ((a : ℕ) → m a < 2 ^ 8)
    → addr + 2 * half_count kind ≤ 2 ^ 32
    → stored byte_memory
        (loaded byte_memory (half_count kind) 0 addr 1 m)
        0
        addr
        1
        (stored byte_memory (ebreak_halves kind) 0 addr 1 m)
      ≡ m
unfolding half_count ebreak_halves
memory_back addr kind m small fits = elim (Bool-cases (kind == 2)) [
  | inl e ↦ rw (e) (half_back m small addr (ground (arith, e, fits)))
  | inr e ↦ rw (e) (halves_pair_back m small addr (ground (arith, e, fits)))
]

module _ (registers : Hart (Dm (Module (ℕ → ℕ)))) where
  abbrev pub attached : Hart (Dm (Module (ℕ → ℕ)))
  attached = over_memory (abstract_commands byte_memory) registers

  -- A software breakpoint that is inserted and removed, on a target of 32 bits that runs the memory
  -- commands without errors: where a slot is unused and no breakpoint in the table has its address and
  -- kind, both calls report success, the memory of the target is as it was, the table holds the same
  -- breakpoints, and the hardware table is untouched. The memory holds bytes, and the instruction does not
  -- pass the end of the address space.
  pub remove-insert_software :
      (addr kind : ℕ) (t : Tables (Dm (Module (ℕ → ℕ))))
      → ((a : ℕ) → t.target.under.memory a < 2 ^ 8)
      → addr + 2 * half_count kind ≤ 2 ^ 32
      → All (λ b. is_at software addr kind b ≡ false) t.software_breakpoints
      → has_unused t.software_breakpoints ≡ true
      → let (err, t') = rv_target_insert_breakpoint attached software addr kind t in
        let (err', t'') = rv_target_remove_breakpoint attached software addr kind t' in
        (err ≡ 0)
        × (err' ≡ 0)
        × (t''.target.under.memory ≡ t.target.under.memory)
        × (active t''.software_breakpoints ≡ active t.software_breakpoints)
        × (t''.hardware_breakpoints ≡ t.hardware_breakpoints)
  unfolding over_memory
  remove-insert_software addr kind t small fits others room =
      let n = half_count kind in
      let m = t.target.under.memory in
      let dmi = abstract_commands byte_memory in
      let r = rv_memory_read dmi mxl_rv32 addr n 1 t.target in
      let (halves, kept, ok) = rv_memory_read-loaded byte_memory addr n 1 t.target (omega arith) in
      let s1 = rv_memory_write dmi mxl_rv32 (ebreak_halves kind) addr 1 r.1 in
      let (broken, ok1) =
        rv_memory_write-stored byte_memory (ebreak_halves kind) addr 1 r.1 (omega arith) in
      let (back, ok2) = rv_memory_write-stored byte_memory r.0 addr 1 s1 (omega arith) in
      let whole : length r.0 ≡ n = ap length halves ∙ length-loaded n 0 addr m in
      let restored : (rv_memory_write dmi mxl_rv32 r.0 addr 1 s1).under.memory ≡ m =
        back
        ∙ ap (λ x. stored byte_memory r.0 0 addr 1 x) broken
        ∙ ap
            (λ x.
              stored byte_memory r.0 0 addr 1 (stored byte_memory (ebreak_halves kind) 0 addr 1 x))
            kept
        ∙ ap
            (λ x.
              stored byte_memory x 0 addr 1 (stored byte_memory (ebreak_halves kind) 0 addr 1 m))
            halves
        ∙ memory_back addr kind m small fits in
      remove-insert_halves (λ s. s.under.memory) attached addr kind t whole restored others room
