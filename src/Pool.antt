-- ===== src/Pool.antt =====
-- src/mw/mpool.c: the memory pool between the end of the program's data and the end of the RAM. `md`
-- is the record `Pool`; `eflash`, the address that the linker gives to `_eflash`, is a parameter. An
-- address is a number below 2 ^ 32; `none` stands for NULL.
pub mod Blocks
pub mod Client
use mega_drive_megawifi_appl.Base.{
  ℕ, ◌+◌, ◌-◌, ◌*◌, ◌/◌, ◌%◌, ◌^◌, Bool, true, false, not, ◌&&◌, ◌||◌, Option, none, some, ltb, leb,
  ◌==◌, if◌then◌else◌,
}

abbrev pub mp_align : ℕ
mp_align = 4

abbrev pub mp_pool_end : ℕ
mp_pool_end = 0x01000000

pub record Pool : Type 0 where
  pub floor : ℕ
  pub pos : ℕ
  pub init_done : Bool

-- `(n + MP_ALIGN_MASK) & ~MP_ALIGN_MASK` in `w` bits: the low bits are cleared after the sum is
-- cut to its width.
abbrev pub align_up : ℕ → ℕ → ℕ
align_up w n = let sum : ℕ = (n + (mp_align - 1)) % 2 ^ w in sum / mp_align * mp_align

-- The addresses are of 32 bits.
abbrev pub mp_align_comp : ℕ → ℕ
mp_align_comp = align_up 32

unfoldable pub mp_init : ℕ → Bool → Pool → Pool
mp_init eflash force_init md =
    if not md.init_done || force_init
    then record { floor = mp_align_comp eflash; pos = mp_align_comp eflash; init_done = true }
    else md

-- `length` is a `uint16_t`, so the rounded length is cut to 16 bits.
unfoldable pub mp_alloc : ℕ → Pool → Option ℕ × Pool
mp_alloc length md =
    let tmp : ℕ = align_up 16 length + md.pos in
    if leb mp_pool_end tmp then (none, md) else (some (md.pos), record md { pos = tmp })

-- `memset(mem, 0, length)`, on a memory given by its bytes.
abbrev pub zeroed : ℕ → ℕ → (ℕ → ℕ) → ℕ → ℕ
zeroed mem length memory a = if leb mem a && ltb a (mem + length) then 0 else memory a

unfoldable pub mp_calloc : ℕ → Pool → (ℕ → ℕ) → Option ℕ × Pool × (ℕ → ℕ)
mp_calloc length md memory =
    let (mem, md') = mp_alloc length md in
    elim mem [ none ↦ (none, md', memory) | some a ↦ (some a, md', zeroed a length memory) ]

unfoldable pub mp_free_to : ℕ → Pool → Pool
mp_free_to pos md =
    if leb md.floor pos && (ltb pos md.pos && pos == mp_align_comp pos)
    then record md { pos = pos }
    else md
