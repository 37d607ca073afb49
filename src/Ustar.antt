-- ===== src/Ustar.antt =====
-- The tar file system (inc/fs/ustar.hh, src/fs/ustar.cpp). A disc (FilesystemPhys, an interface)
-- is its size, its sector size and a read of one sector at a byte position, `none` where that
-- fails. A buffer is the list of its bytes; a C string in a header ends at its first 0 byte or
-- with the header. What `new` leaves in memory is a parameter. The sizes m_blocksize = 512 and the
-- widths of the C++ types are written out.
pub mod Header
pub mod Blocks
pub mod Reading
pub mod Calls
pub mod Window
pub mod Handles
use cxx_kernel.Base.{
  ℕ, zero, suc, ◌+◌, ◌-◌, ◌*◌, ◌/◌, ◌%◌, ◌^◌, min, Bool, true, false, not, ◌||◌, List, [], ◌∷◌,
  ◌++◌, Option, none, some, Outcome, done, no_fuel, fault, ◌>>=◌, ltb, leb, ◌==◌, if◌then◌else◌,
  length, get_or, take, drop, update, Errno, eperm, enoent, ebadf, Posix, success, failure,
}
use cxx_kernel.Text.{Text, equal}
use cxx_kernel.Files.{Files, map_file, close_file, get_custom}

pub record Disc : Type 0 where
  pub disc_size : ℕ
  pub sector_size : ℕ
  pub read_sector : ℕ → Option (List ℕ)

abbrev pub block_size : ℕ
block_size = 512

-- parseOct: the number before the first byte that is not an octal digit (8 and 9 pass).
unfoldable pub parse_digits : List ℕ → ℕ → ℕ
parse_digits [] res = res
parse_digits (c ∷ cs) res =
    let rest = parse_digits cs ((res * 8 + (c - 48)) % 2 ^ 64) in
    if c == 0 then res else if ltb c 48 || ltb 57 c then res else rest

unfoldable pub parse_oct : List ℕ → ℕ → ℕ
parse_oct bytes len = parse_digits (take len bytes) 0

-- setPhysical: the blocks of the disc and the sectors of a block.
unfoldable pub blocks : Disc → ℕ
blocks disc = disc.disc_size / block_size % 2 ^ 32

unfoldable pub block_in_sectors : Disc → ℕ
block_in_sectors disc = block_size / disc.sector_size

-- detect, with verifySectorSize, on a disc that is there.
unfoldable pub detect : Disc → Bool
detect disc =
    if leb disc.sector_size 512
    then elim (disc.read_sector 0) [ none ↦ false | some bytes ↦ true ]
    else false

-- A read writes the bytes of the sector at an offset of the buffer.
unfoldable pub store : ℕ → List ℕ → List ℕ → List ℕ
store offset bytes buf = take offset buf ++ bytes ++ drop (offset + length bytes) buf

-- for (block = 0; block < m_block_in_sectors; --block), on a uint32_t.
unfoldable pub get_block_loop : ℕ → Disc → ℕ → ℕ → List ℕ → Outcome (Bool × List ℕ)
get_block_loop zero disc block index buf = no_fuel
get_block_loop (suc f) disc block index buf =
    let pos = index * block_size % 2 ^ 32 + block * disc.sector_size % 2 ^ 32 in
    let rest =
      λ (buf' : List ℕ). get_block_loop f disc ((block + (2 ^ 32 - 1)) % 2 ^ 32) index buf' in
    if ltb block (block_in_sectors disc)
    then elim (disc.read_sector pos) [
      | none ↦ done (false, buf)
      | some bytes ↦ rest (store (block * disc.sector_size % 2 ^ 32) bytes buf)
    ]
    else done (true, buf)

unfoldable pub get_block : ℕ → Disc → ℕ → List ℕ → Outcome (Bool × List ℕ)
get_block fuel disc index buf = get_block_loop fuel disc 0 index buf

pub record Iterator : Type 0 where
  pub ok : Bool
  pub block : ℕ
  pub index : ℕ
  pub data_block : ℕ
  pub data_index : ℕ
  pub size : ℕ
  pub header : List ℕ
  pub content : List ℕ

-- Mem::cmp(data + 257, "ustar", 5) == 0
unfoldable pub is_ustar : List ℕ → Bool
is_ustar header = equal (take 5 (drop 257 header)) (b'u' ∷ b's' ∷ b't' ∷ b'a' ∷ b'r' ∷ [])

-- From the label `out` of getCurrent.
unfoldable pub read_header : Iterator → Bool × Iterator
read_header it =
    let it' = record it { data_block = (it.block + 1) % 2 ^ 32 } in
    if is_ustar it.header
    then (true, record it' { size = parse_oct (drop 124 it.header) 12 })
    else (false, it')

-- The blocks that a file of `size` bytes takes, and its header.
unfoldable pub next_block : ℕ → ℕ → ℕ
next_block block size = (block + (size + block_size - 1) % 2 ^ 64 / block_size + 1) % 2 ^ 32

unfoldable pub off_disc : Disc → ℕ → Bool
off_disc disc index = leb disc.disc_size (index * block_size % 2 ^ 32)

-- The part of getCurrent that moves to the next header, at block `next`.
unfoldable pub get_next : ℕ → Disc → ℕ → Iterator → Outcome (Bool × Iterator)
get_next fuel disc next it =
    let it' = record it { index = next } in
    if ltb next it.index
    then done (false, it)
    else if off_disc disc next
    then done (false, it')
    else get_block fuel disc next it.header >>= (λ r. elim r.0 [
      | false ↦ done (false, record it' { header = r.1 })
      | true ↦ done (read_header (record it' { header = r.1; block = next }))
    ])

unfoldable pub get_current : ℕ → Disc → Iterator → Outcome (Bool × Iterator)
get_current fuel disc it =
    if off_disc disc it.index
    then done (false, it)
    else if it.block == it.index
    then done (read_header it)
    else get_next fuel disc (next_block it.block it.size) it

-- The constructor's iterator, whose m_size nothing sets.
unfoldable pub new_iterator : ℕ → ℕ → List ℕ → List ℕ → Iterator
new_iterator parent size fresh content = record {
  ok = false;
  block = parent;
  index = 0;
  data_block = 0;
  data_index = 0;
  size = size;
  header = fresh;
  content = content;
}

unfoldable pub list : ℕ → Disc → ℕ → Iterator → Outcome Iterator
list fuel disc parent it = get_block fuel disc parent it.header >>= (λ r.
    let it' = record it { header = r.1 } in
    elim r.0 [
      | false ↦ done it'
      | true ↦ get_current fuel disc it' >>= (λ c. done (record c.1 { ok = c.0 }))
    ])

unfoldable pub next : ℕ → Disc → Iterator → Outcome (Bool × Iterator)
next fuel disc it =
    get_current fuel disc (record it { index = (it.index + 1) % 2 ^ 32 })
    >>= (λ c. done (c.0, record c.1 { ok = c.0; data_index = 0 }))

-- name: the C string at the start of the header.
unfoldable pub c_string : List ℕ → Text
c_string [] = []
c_string (c ∷ cs) = let rest = c_string cs in if c == 0 then [] else c ∷ rest

unfoldable pub name : Iterator → Text
name it = c_string it.header

pub data Kind : Type 0 where
  invalid file hard_link sym_link char_dev block_dev dir fifo : Kind

unfoldable pub kind_of : ℕ → Kind
kind_of c =
    if c == b'0'
    then file
    else if c == b'1'
    then hard_link
    else if c == b'2'
    then sym_link
    else if c == b'3'
    then char_dev
    else if c == b'4'
    then block_dev
    else if c == b'5'
    then dir
    else if c == b'6'
    then fifo
    else invalid

unfoldable pub kind : Iterator → Kind
kind it = kind_of (get_or it.header 156 0)
