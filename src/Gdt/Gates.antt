-- ===== src/Gdt/Gates.antt =====
-- The base and the limit of a descriptor are those that were set.
use cxx_kernel.Base.{
  ℕ, ◌+◌, ◌*◌, ◌/◌, ◌%◌, ◌^◌, ◌<◌, ◌≡◌, ◌≢◌, ap, ◌∙◌, arith, update_same, update_other,
}
use cxx_kernel.Gdt.{GdtEntry, Gdt, gdt_set_gate, get_gdt_base, set_gdt_base}

-- The limit of a descriptor, of 20 bits.
abbrev pub limit_of : GdtEntry → ℕ
limit_of e = e.limit_low + e.granularity % 16 * 2 ^ 16

base_of : GdtEntry → ℕ
base_of e = e.base_low + e.base_middle * 2 ^ 16 + e.base_high * 2 ^ 24

-- gdt_set_gate, and set_gdt_base after it, leave the base that they were given, of 32 bits; the limit
-- is that of gdt_set_gate, of 20 bits, and so are the access byte and the flags, and the other
-- descriptors are as they were.
pub set_gdt_base-get_gdt_base :
    (num base base' limit access gran : ℕ) (t : Gdt)
    → base < 2 ^ 32
    → base' < 2 ^ 32
    → limit < 2 ^ 20
    → access < 2 ^ 8
    → gran < 2 ^ 8
    → (get_gdt_base num (gdt_set_gate num base limit access gran t) ≡ base)
      × (get_gdt_base num (set_gdt_base num base' (gdt_set_gate num base limit access gran t))
          ≡ base')
      × (limit_of (set_gdt_base num base' (gdt_set_gate num base limit access gran t) num) ≡ limit)
      × ((set_gdt_base num base' (gdt_set_gate num base limit access gran t) num).access ≡ access)
      × ((set_gdt_base num base' (gdt_set_gate num base limit access gran t) num).granularity / 16
          ≡ gran / 16)
      × ((n : ℕ)
          → n ≢ num
          → set_gdt_base num base' (gdt_set_gate num base limit access gran t) n ≡ t n)
unfolding get_gdt_base gdt_set_gate set_gdt_base base_of
set_gdt_base-get_gdt_base num base base' limit access gran t b b' l a g =
    let e = gdt_set_gate num base limit access gran t num in
    let gate = update_same t num _ in
    let t1 = gdt_set_gate num base limit access gran t in
    let moved = update_same t1 num _ in
    (
      ap base_of gate ∙ omega arith,
      ap base_of moved ∙ omega arith,
      ap limit_of moved ∙ ap limit_of gate ∙ omega arith,
      ap (λ (e : GdtEntry). e.access) moved ∙ ap (λ (e : GdtEntry). e.access) gate ∙ omega arith,
      ap (λ (e : GdtEntry). e.granularity / 16) moved
          ∙ ap (λ (e : GdtEntry). e.granularity / 16) gate
          ∙ omega arith,
      λ n h. update_other t1 num _ n h ∙ update_other t num _ n h,
    )
