-- ===== src/Target/Register/Names.antt =====
-- The numbers of registers that riscv-target.c uses (`RV_REG_…`), and the calls that its register access
-- makes.
use nuclei_dlink.Base.{ℕ, ◌+◌, ◌/◌, ◌%◌, ◌^◌, Bool, ◌&&◌, ◌||◌, List, [], ◌∷◌, leb, set_field}
use nuclei_dlink.Base.Action.{Action}
use nuclei_dlink.Target.Memory.{Dm}

abbrev pub fp : ℕ
fp = 8

abbrev pub s1 : ℕ
s1 = 9

abbrev pub pc : ℕ
pc = 32

abbrev pub ft0 : ℕ
ft0 = 33

abbrev pub ft11 : ℕ
ft11 = 64

abbrev pub csr0 : ℕ
csr0 = 65

abbrev pub vstart : ℕ
vstart = 65 + 0x8

abbrev pub vcsr : ℕ
vcsr = 65 + 0xf

abbrev pub mstatus : ℕ
mstatus = 65 + 0x300

abbrev pub dcsr_regno : ℕ
dcsr_regno = 65 + 0x7b0

abbrev pub dpc_regno : ℕ
dpc_regno = 65 + 0x7b1

abbrev pub vl : ℕ
vl = 65 + 0xc20

abbrev pub vtype : ℕ
vtype = 65 + 0xc21

abbrev pub vlenb_regno : ℕ
vlenb_regno = 65 + 0xc22

abbrev pub priv : ℕ
priv = 4161

abbrev pub v0 : ℕ
v0 = 4162

abbrev pub v31 : ℕ
v31 = 4193

abbrev pub reg_hartinfo : ℕ
reg_hartinfo = 0x12

abbrev pub between : ℕ → ℕ → ℕ → Bool
between lo hi x = leb lo x && leb x hi

abbrev pub is_float : ℕ → Bool
is_float regno = between ft0 ft11 regno

abbrev pub is_csr : ℕ → Bool
is_csr regno = between csr0 (4095 + csr0) regno

abbrev pub is_vector : ℕ → Bool
is_vector regno = between v0 v31 regno

-- The registers whose access needs the vector state on.
abbrev pub needs_vector : ℕ → Bool
needs_vector regno = is_vector regno || (between vstart vcsr regno || between vl vlenb_regno regno)

-- What the functions know of the hart: `target.misa` and `target.vlenb`.
pub record Hart : Type 0 where
  pub mxl : ℕ
  pub misa_d : Bool
  pub vlenb : ℕ

-- A variable of 64 bits that the code does not initialise.
abbrev pub fresh : List ℕ
fresh = 0 ∷ 0 ∷ []

-- The words of a number in a variable of 64 bits.
abbrev pub wide : ℕ → List ℕ
wide x = x % 2 ^ 32 ∷ x / 2 ^ 32 % 2 ^ 32 ∷ []

-- `FS` and `VS` of `mstatus`, all ones or zero, in the low word of a buffer.
pub set_fs : ℕ → List ℕ → List ℕ
set_fs v [] = []
set_fs v (x ∷ xs) = set_field 13 2 v x ∷ xs

pub set_vs : ℕ → List ℕ → List ℕ
set_vs v [] = []
set_vs v (x ∷ xs) = set_field 9 2 v x ∷ xs

-- The calls of one level: reads and writes of registers, and writes through the program buffer. A
-- register's number, and the buffer.
pub record Calls (D : Type 0) : Type 0 where
  pub read : ℕ → List ℕ → Action (Dm D) (List ℕ)
  pub write : ℕ → List ℕ → Action (Dm D) (Unit {0})
  pub write_buf : ℕ → List ℕ → Action (Dm D) (Unit {0})
