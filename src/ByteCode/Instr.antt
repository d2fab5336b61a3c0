-- ===== src/ByteCode/Instr.antt =====
-- The instruction codes of mario/mario.h that the functions of the bytecode buffer look at.
use mario_js.Prelude.{ℕ}

abbrev pub nil : ℕ
nil = 0x000

abbrev pub int : ℕ
int = 0x007

abbrev pub float : ℕ
float = 0x008

abbrev pub int_s : ℕ
int_s = 0x00D

abbrev pub njmp : ℕ
njmp = 0x03F

abbrev pub jmpb : ℕ
jmpb = 0x040

abbrev pub njmpb : ℕ
njmpb = 0x041

abbrev pub jmp : ℕ
jmp = 0x042

abbrev pub pop : ℕ
pop = 0x04A

abbrev pub block : ℕ
block = 0x04D

abbrev pub try : ℕ
try = 0x051

abbrev pub nullish : ℕ
nullish = 0x06A

abbrev pub int64 : ℕ
int64 = 0x075

abbrev pub float64 : ℕ
float64 = 0x076

abbrev pub scor : ℕ
scor = 0x086

abbrev pub scand : ℕ
scand = 0x087

abbrev pub cache : ℕ
cache = 0x048
