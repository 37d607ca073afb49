-- ===== src/ClothesFs/Volume.antt =====
-- The disc under ClothesFS, and its blocks. A disc holds a sector at each byte position; `readable`
-- and `writable` say where a read or a write succeeds, and `fresh` is what a new buffer holds.
use cxx_kernel.Base.{
  ℕ, zero, suc, ◌+◌, ◌-◌, ◌*◌, ◌/◌, ◌%◌, ◌^◌, Bool, ◌&&◌, List, ◌++◌, ltb, ◌==◌, if◌then◌else◌,
  length, get_or, take, drop, replicate, update,
}
use cxx_kernel.ClothesFs.Bytes.{data_to_num}

pub record Volume : Type 0 where
  pub disc_size : ℕ
  pub sector_size : ℕ
  pub readable : ℕ → Bool
  pub writable : ℕ → Bool
  pub sectors : ℕ → List ℕ
  pub fresh : List ℕ
  pub block_size : ℕ
  pub blocks : ℕ
  pub block_in_sectors : ℕ

-- What a method does with the disc: it returns a value, fails with false, or runs out of fuel.
pub data Result {ℓ} (A : Type ℓ) : Type ℓ where
  returns : A → Result A
  fails : Result A
  out_of_fuel : Result A

abbrev pub Method {ℓ} : Type ℓ → Type ℓ
Method A = Volume → Result A × Volume

abbrev pub pure {ℓ} : {A : Type ℓ} → A → Method A
pure a v = (returns a, v)

abbrev pub fail {ℓ} : {A : Type ℓ} → Method A
fail v = (fails, v)

abbrev pub exhausted {ℓ} : {A : Type ℓ} → Method A
exhausted v = (out_of_fuel, v)

abbrev pub then_do {ℓ κ} :
    {A : Type ℓ} {B : Type κ} → Result A × Volume → (A → Method B) → Result B × Volume
then_do (returns a, v) f = f a v
then_do (fails, v) f = (fails, v)
then_do (out_of_fuel, v) f = (out_of_fuel, v)

infixl 5 ◌>>=◌
abbrev pub ◌>>=◌ {ℓ κ} : {A : Type ℓ} {B : Type κ} → Method A → (A → Method B) → Method B
◌>>=◌ m f v = then_do (m v) f

-- `if (!m) return d;`, and the value of a call whose failure the caller does not look at.
abbrev pub or_else {ℓ} : {A : Type ℓ} → A → Result A × Volume → Result A × Volume
or_else d (returns a, v) = (returns a, v)
or_else d (fails, v) = (returns d, v)
or_else d (out_of_fuel, v) = (out_of_fuel, v)

abbrev pub attempt {ℓ} : {A : Type ℓ} → A → Method A → Method A
attempt d m v = or_else d (m v)

-- A call whose failure leads on to something else.
abbrev pub or_do {ℓ κ} :
    {A : Type ℓ} {B : Type κ} → Result A × Volume → (A → Method B) → Method B → Result B × Volume
or_do (returns a, v) f g = f a v
or_do (fails, v) f g = g v
or_do (out_of_fuel, v) f g = (out_of_fuel, v)

abbrev pub asks {ℓ} : {A : Type ℓ} → (Volume → A) → Method A
asks f v = (returns (f v), v)

-- setPhysical
unfoldable pub set_physical : Volume → Volume
set_physical v = record v {
  blocks = v.disc_size / v.block_size % 2 ^ 32;
  block_in_sectors = v.block_size / v.sector_size;
}

abbrev pub position : Volume → ℕ → ℕ → ℕ
position v index block = index * v.block_size % 2 ^ 32 + block * v.sector_size % 2 ^ 32

-- A sector read into the buffer at an offset.
abbrev pub fill_sector : ℕ → List ℕ → List ℕ → List ℕ
fill_sector offset bytes buf = take offset buf ++ bytes ++ drop (offset + length bytes) buf

-- The loops of getBlock and putBlock: for (block = 0; block < m_block_in_sectors; --block).
unfoldable pub get_loop : ℕ → ℕ → ℕ → List ℕ → Method (List ℕ)
get_loop zero index block buf v = (out_of_fuel, v)
get_loop (suc f) index block buf v =
    let pos = position v index block in
    let buf' = fill_sector (block * v.sector_size % 2 ^ 32) (v.sectors pos) buf in
    let rest = get_loop f index ((block + (2 ^ 32 - 1)) % 2 ^ 32) buf' v in
    if ltb block v.block_in_sectors
    then if v.readable pos then rest else (fails, v)
    else (returns buf, v)

unfoldable pub get_block : ℕ → Method (List ℕ)
get_block index v = get_loop 3 index 0 v.fresh v

unfoldable pub put_loop : ℕ → ℕ → ℕ → List ℕ → Method (Unit {0})
put_loop zero index block buf v = (out_of_fuel, v)
put_loop (suc f) index block buf v =
    let pos = position v index block in
    let bytes = take v.sector_size (drop (block * v.sector_size % 2 ^ 32) buf) in
    let v' = record v { sectors = update v.sectors pos bytes } in
    let rest = put_loop f index ((block + (2 ^ 32 - 1)) % 2 ^ 32) buf v' in
    if ltb block v.block_in_sectors
    then if v.writable pos then rest else (fails, v)
    else (returns tt, v)

unfoldable pub put_block : ℕ → List ℕ → Method (Unit {0})
put_block index buf v = put_loop 3 index 0 buf v

-- A buffer of a block, cleared.
abbrev pub cleared : Volume → List ℕ
cleared v = replicate v.block_size 0

-- m_blocksize - 4, where the number of the next block stands.
abbrev pub link_at : Volume → ℕ
link_at v = (v.block_size + (2 ^ 32 - 4)) % 2 ^ 32

abbrev pub metadata_id : ℕ
metadata_id = 0x42

abbrev pub payload_id : ℕ
payload_id = 0x4242

-- detect reads the first sector, takes the block size from it, and looks for the magic.
unfoldable pub detect : Method Bool
detect v =
    let buf = v.sectors 0 in
    let v' = record v { block_size = data_to_num buf 36 2 } in
    let magic =
      (get_or buf 32 0 == 0 && get_or buf 33 0 == 0x42)
      && (get_or buf 34 0 == 0 && get_or buf 35 0 == 0x41) in
    if v.readable 0 then (returns magic, v') else (fails, v)
