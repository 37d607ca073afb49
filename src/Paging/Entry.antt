-- ===== src/Paging/Entry.antt =====
-- The entry of a page: its flags in the low bits and the address of its frame.
use cxx_kernel.Base.{ℕ, ◌+◌, ◌*◌, ◌/◌, ◌%◌, Bool, true, false, ◌&&◌, not, ◌==◌, if◌then◌else◌}
use cxx_kernel.Bits.{bit, set_bit, clear_bit}

-- getPresent, getRw and getUserspace are the bits 0, 1 and 2.
abbrev pub get_flag : ℕ → ℕ → Bool
get_flag k val = not (bit val k == 0)

abbrev pub set_flag : ℕ → Bool → ℕ → ℕ
set_flag k is val = if is then set_bit val k else clear_bit val k

-- val & 0xFFFFF000
abbrev pub get_address : ℕ → ℕ
get_address val = val / 4096 * 4096

abbrev pub set_address : ℕ → ℕ → ℕ
set_address adr val = adr / 4096 * 4096 + val % 4096

unfoldable pub is_avail : ℕ → Bool
is_avail val = (get_address val == 0) && not (get_flag 0 val)

-- What identityMapFrame and mapFrame set, and what unmap resets.
unfoldable pub mapped_entry : ℕ → Bool → Bool → ℕ → ℕ
mapped_entry addr user rw val =
    set_address addr (set_flag 2 user (set_flag 1 rw (set_flag 0 true val)))

unfoldable pub unmapped_entry : ℕ → ℕ
unmapped_entry val = set_address 0 (set_flag 2 false (set_flag 1 false (set_flag 0 false val)))
