-- ===== src/Insts/Encoding.antt =====
-- The instruction words of the A64 encoding, assembled from their fields as the format lines in the
-- comments of insts/decoder.go give them. They specify the decoder; the code has no encoder.
pub mod Signs
pub mod Immediates
pub mod Jumps
pub mod LoadStores
use m1sim.Base.{ℕ, ◌+◌, ◌*◌, ◌/◌, ◌%◌, ◌^◌}

-- sf | op | S | 100010 | sh | imm12 | Rn | Rd
unfoldable pub add_sub_imm_word : ℕ → ℕ → ℕ → ℕ → ℕ → ℕ → ℕ → ℕ
add_sub_imm_word sf op s sh imm12 rn rd =
    sf * 2 ^ 31
    + op * 2 ^ 30
    + s * 2 ^ 29
    + 0b100010 * 2 ^ 23
    + sh * 2 ^ 22
    + imm12 * 2 ^ 10
    + rn * 2 ^ 5
    + rd

-- sf | opc | 100101 | hw | imm16 | Rd
unfoldable pub move_wide_word : ℕ → ℕ → ℕ → ℕ → ℕ → ℕ
move_wide_word sf opc hw imm16 rd =
    sf * 2 ^ 31 + opc * 2 ^ 29 + 0b100101 * 2 ^ 23 + hw * 2 ^ 21 + imm16 * 2 ^ 5 + rd

-- sf | opc | 100110 | N | immr | imms | Rn | Rd, with N = sf
unfoldable pub bitfield_word : ℕ → ℕ → ℕ → ℕ → ℕ → ℕ → ℕ
bitfield_word sf opc immr imms rn rd =
    sf * 2 ^ 31
    + opc * 2 ^ 29
    + 0b100110 * 2 ^ 23
    + sf * 2 ^ 22
    + immr * 2 ^ 16
    + imms * 2 ^ 10
    + rn * 2 ^ 5
    + rd

-- op | 00101 | imm26, for an offset in bytes
unfoldable pub branch_word : ℕ → ℕ → ℕ
branch_word op offset = op * 2 ^ 31 + 0b00101 * 2 ^ 26 + offset / 4 % 2 ^ 26

-- 0101010 0 | imm19 | 0 | cond
unfoldable pub branch_cond_word : ℕ → ℕ → ℕ
branch_cond_word cond offset = 0b01010100 * 2 ^ 24 + offset / 4 % 2 ^ 19 * 2 ^ 5 + cond

-- sf | 011010 | op | imm19 | Rt
unfoldable pub compare_branch_word : ℕ → ℕ → ℕ → ℕ → ℕ
compare_branch_word sf op rt offset =
    sf * 2 ^ 31 + 0b011010 * 2 ^ 25 + op * 2 ^ 24 + offset / 4 % 2 ^ 19 * 2 ^ 5 + rt

-- b5 | 011011 | op | b40 | imm14 | Rt
unfoldable pub test_branch_word : ℕ → ℕ → ℕ → ℕ → ℕ
test_branch_word op bit rt offset =
    bit / 32 * 2 ^ 31
    + 0b011011 * 2 ^ 25
    + op * 2 ^ 24
    + bit % 32 * 2 ^ 19
    + offset / 4 % 2 ^ 14 * 2 ^ 5
    + rt

-- op | immlo | 10000 | immhi | Rd, for an ADR offset in bytes
unfoldable pub adr_word : ℕ → ℕ → ℕ
adr_word rd offset = offset % 4 * 2 ^ 29 + 0b10000 * 2 ^ 24 + offset / 4 % 2 ^ 19 * 2 ^ 5 + rd

-- size | 111 | 0 | 01 | opc | imm12 | Rn | Rt, for an offset in units of the access
unfoldable pub load_store_imm_word : ℕ → ℕ → ℕ → ℕ → ℕ → ℕ
load_store_imm_word size opc imm12 rn rt =
    size * 2 ^ 30 + 0b111001 * 2 ^ 24 + opc * 2 ^ 22 + imm12 * 2 ^ 10 + rn * 2 ^ 5 + rt
