-- ===== src/Gdt.antt =====
-- The table of segment descriptors (src/gdt.cpp). The task state segments, the thread local storage
-- and the instructions that load the table are not here.
pub mod Gates
use cxx_kernel.Base.{ℕ, zero, suc, ◌+◌, ◌-◌, ◌*◌, ◌/◌, ◌%◌, ◌^◌, ◌==◌, if◌then◌else◌, update}

-- gdt_entry_t
pub record GdtEntry : Type 0 where
  pub limit_low : ℕ
  pub base_low : ℕ
  pub base_middle : ℕ
  pub access : ℕ
  pub granularity : ℕ
  pub base_high : ℕ

abbrev pub gdt_table_size : ℕ
gdt_table_size = 9

abbrev pub Gdt : Type 0
Gdt = ℕ → GdtEntry

-- The two halves of granularity, | being a sum of them.
unfoldable pub gdt_set_gate : ℕ → ℕ → ℕ → ℕ → ℕ → Gdt → Gdt
gdt_set_gate num base limit access gran t = update t num (record {
  limit_low = limit % 2 ^ 16;
  base_low = base % 2 ^ 16;
  base_middle = base / 2 ^ 16 % 2 ^ 8;
  access = access % 2 ^ 8;
  granularity = limit / 2 ^ 16 % 16 + gran % 2 ^ 8 / 16 * 16;
  base_high = base / 2 ^ 24 % 2 ^ 8;
})

unfoldable pub get_gdt_base : ℕ → Gdt → ℕ
get_gdt_base num t = let e = t num in e.base_low + e.base_middle * 2 ^ 16 + e.base_high * 2 ^ 24

unfoldable pub set_gdt_base : ℕ → ℕ → Gdt → Gdt
set_gdt_base num base t = update t num (record (t num) {
  base_low = base % 2 ^ 16;
  base_middle = base / 2 ^ 16 % 2 ^ 8;
  base_high = base / 2 ^ 24 % 2 ^ 8;
})

abbrev pub gdt_fs : ℕ
gdt_fs = 6

abbrev pub gdt_gs : ℕ
gdt_gs = 7

unfoldable pub get_gs_base : Gdt → ℕ
get_gs_base t = get_gdt_base gdt_gs t

unfoldable pub set_gs_base : ℕ → Gdt → Gdt
set_gs_base base t = set_gdt_base gdt_gs base t

unfoldable pub get_fs_base : Gdt → ℕ
get_fs_base t = get_gdt_base gdt_fs t

unfoldable pub set_fs_base : ℕ → Gdt → Gdt
set_fs_base base t = set_gdt_base gdt_fs base t

-- The gates of gdt_init, for the address and the size of the first task state segment.
unfoldable pub gdt_init : ℕ → ℕ → Gdt → Gdt
gdt_init tss0 tss_size t =
    let t0 = gdt_set_gate 0 0 0 0 0 t in
    let t1 = gdt_set_gate 1 0 0xFFFFFFFF 0x9A 0xCF t0 in
    let t2 = gdt_set_gate 2 0 0xFFFFFFFF 0x92 0xCF t1 in
    let t3 = gdt_set_gate 3 0 0xFFFFFFFF 0xFA 0xCF t2 in
    let t4 = gdt_set_gate 4 0 0xFFFFFFFF 0xF2 0xCF t3 in
    let t5 = gdt_set_gate 5 tss0 (tss_size - 1) 0x89 0x40 t4 in
    let t6 = gdt_set_gate gdt_fs 0 0xFFFFFFFF 0x92 0xCF t5 in
    gdt_set_gate gdt_gs 0 0xFFFFFFFF 0x92 0xCF t6
