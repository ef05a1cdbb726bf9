-- ===== src/Target/Control/Resume.antt =====
-- Resuming and stepping of a 32-bit hart.
use nuclei_dlink.Base.{ℕ, ◌+◌, ◌*◌, ◌/◌, ◌%◌, ◌^◌}
use nuclei_dlink.Target.Register.Machine.{Machine}

-- dcsr with `v` as its bit 2.
abbrev pub dcsr_step : ℕ → ℕ → ℕ
dcsr_step v dcsr = dcsr / 2 ^ 3 * 2 ^ 3 + v * 2 ^ 2 + dcsr % 2 ^ 2
