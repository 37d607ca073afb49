-- ===== src/ClothesFs/Meta.antt =====
-- The tables of files and directories: initMeta, updateMeta, addToMeta, and the files that addFile,
-- addDir and addData write. A table has its mark in the bytes 0 and 1, its type in byte 2, then,
-- unless it continues another, a size, the length of a name and the name, then the numbers of blocks.
-- A String is the list of its characters; one longer than the block, which overruns the buffer in
-- the source, ends with the block here.
use cxx_kernel.Base.{
  ℕ, zero, suc, ◌+◌, ◌-◌, ◌*◌, ◌/◌, ◌%◌, ◌^◌, Bool, true, false, not, ◌||◌, List, [], ◌∷◌, ltb, leb,
  ◌==◌, if◌then◌else◌, length, set, take, drop, replicate, update,
}
use cxx_kernel.Text.{Text}
use cxx_kernel.ClothesFs.Bytes.{data_to_num, num_to_data}
use cxx_kernel.ClothesFs.Volume.{
  Volume, Method, returns, fails, pure, fail, exhausted, ◌>>=◌, attempt, get_block, put_block,
  cleared, link_at, metadata_id, payload_id,
}
use cxx_kernel.ClothesFs.Chain.{take_free_block, format_blocks}

abbrev pub meta_file : ℕ
meta_file = 0x02

abbrev pub meta_dir : ℕ
meta_dir = 0x04

abbrev pub meta_file_cont : ℕ
meta_file_cont = 0x08

abbrev pub meta_dir_cont : ℕ
meta_dir_cont = 0x10

abbrev pub payload_used : ℕ
payload_used = 0x01

unfoldable pub base_type : ℕ → ℕ
base_type t = if t == meta_file_cont then meta_file else if t == meta_dir_cont then meta_dir else t

unfoldable pub valid_type : ℕ → ℕ → Bool
valid_type t valid = base_type t == base_type valid

-- while (ptr % 4 != 0) ++ptr;
unfoldable pub align : ℕ → ℕ
align ptr = (ptr + 3) / 4 * 4 % 2 ^ 32

unfoldable pub init_meta : ℕ → ℕ → Method (Unit {0})
init_meta index kind v =
    put_block index
      (num_to_data 0 (num_to_data kind (num_to_data metadata_id (cleared v) 0 2) 2 1) 3 1) v

-- initData: where the contents begin, or 0.
unfoldable pub init_data : ℕ → ℕ → ℕ → Method ℕ
init_data index kind algo v =
    let buf =
      num_to_data algo (num_to_data kind (num_to_data payload_id (cleared v) 0 2) 2 1) 3 1 in
    attempt 0 (put_block index buf >>= (λ _. pure 4)) v

unfoldable pub dir_continues : ℕ → ℕ → Method (Unit {0})
dir_continues index next =
    get_block index >>= (λ buf v. put_block index (num_to_data next buf (link_at v) 4) v)

-- The first place from `ptr` below `limit` that holds 0; `n` rounds are left.
unfoldable pub find_free : ℕ → List ℕ → ℕ → ℕ → ℕ
find_free zero buf ptr limit = limit
find_free (suc n) buf ptr limit =
    let rest = find_free n buf (ptr + 4) limit in
    if leb limit ptr then limit else if data_to_num buf ptr 4 == 0 then ptr else rest

-- Where addToMeta begins: behind the name, as it reckons, for a type that has one.
unfoldable pub entries_from : ℕ → List ℕ → ℕ
entries_from kind buf =
    if kind == meta_file || kind == meta_dir
    then align ((12 + data_to_num buf 12 4) % 2 ^ 32)
    else 4

unfoldable pub add_to_meta : ℕ → ℕ → ℕ → ℕ → Method (Unit {0})
add_to_meta zero index meta kind = exhausted
add_to_meta (suc f) index meta kind = get_block index >>= (λ buf v.
    let ptr = find_free v.block_size buf (entries_from kind buf) (link_at v) in
    let next = data_to_num buf (link_at v) 4 in
    let cont =
      if kind == meta_file || kind == meta_file_cont then meta_file_cont else meta_dir_cont in
    let extend : Method (Unit {0}) = take_free_block >>= (λ block.
      if block == 0
      then fail
      else dir_continues index block
        >>= (λ _. init_meta block cont >>= (λ _. add_to_meta f block meta kind))) in
    if not (data_to_num buf 0 2 == metadata_id) || not (valid_type (data_to_num buf 2 1) kind)
    then (fails, v)
    else if ltb ptr (link_at v)
    then put_block index (num_to_data meta buf ptr 4) v
    else if not (next == 0)
    then add_to_meta f next meta kind v
    else extend v)

-- The bytes copied into a buffer from `pos` on, and what is left of them.
unfoldable pub copy_in : Text → List ℕ → ℕ → List ℕ
copy_in [] buf pos = buf
copy_in (c ∷ cs) buf pos = copy_in cs (set buf pos c) (pos + 1)

-- addData fills a block, and has the rest of the contents left; initData may fail, and then they
-- begin at 0.
unfoldable pub write_payload : ℕ → Text → Method Text
write_payload block contents = init_data block payload_used 0 >>= (λ pos.
    get_block block >>= (λ buf v.
      let part = take (v.block_size - pos) contents in
      let left = drop (v.block_size - pos) contents in
      (put_block block (copy_in part buf pos) >>= (λ _. pure left)) v))

-- addData; `contents` has the length that the source passes beside it.
unfoldable pub add_data : ℕ → ℕ → Text → Method (Unit {0})
add_data zero meta contents = exhausted
add_data (suc f) meta contents =
    let more : Text → Method (Unit {0}) =
      λ left. if length left == 0 then pure tt else add_data f meta left in
    take_free_block >>= (λ block.
      if block == 0
      then fail
      else add_to_meta (suc f) meta block meta_file
        >>= (λ _. write_payload block contents >>= more))

-- updateMeta, with the name and the size of what the table describes.
unfoldable pub update_meta : ℕ → Text → ℕ → Method (Unit {0})
update_meta index name size = get_block index >>= (λ buf.
    let kind = base_type (data_to_num buf 2 1) in
    let buf' = copy_in name (num_to_data size buf 4 8) 16 in
    if kind == meta_file || kind == meta_dir
    then put_block index (num_to_data (length name) buf' 12 4)
    else fail)

-- What addFile and addDir share: a new table of the type, entered in the directory `parent`.
unfoldable pub new_table : ℕ → ℕ → Text → ℕ → ℕ → Method ℕ
new_table fuel parent name size kind =
    let enter : ℕ → Method ℕ = λ block. add_to_meta fuel parent block meta_dir >>= (λ _.
      init_meta block kind >>= (λ _. update_meta block name size >>= (λ _. pure block))) in
    if parent == 0
    then fail
    else take_free_block >>= (λ block. if block == 0 then fail else enter block)

unfoldable pub add_file : ℕ → ℕ → Text → Text → Method (Unit {0})
add_file fuel parent name contents =
    new_table fuel parent name (length contents) meta_file
    >>= (λ block. add_data fuel block contents)

unfoldable pub add_dir : ℕ → ℕ → Text → Method (Unit {0})
add_dir fuel parent name = new_table fuel parent name 0 meta_dir >>= (λ _. pure tt)

-- The first sector that format writes: the magic, the block size, the size of the disc, the name of
-- the volume, and the numbers of the root, of the blocks in use and of the free chain.
unfoldable pub super_sector : Volume → Text → ℕ → List ℕ
super_sector v volid freechain =
    let magic = set (set (replicate v.sector_size 0) 33 0x42) 35 0x41 in
    let sized = num_to_data v.disc_size (num_to_data v.block_size magic 36 2) 48 4 in
    let named = copy_in (take 32 volid) sized 56 in
    num_to_data freechain (num_to_data 2 (num_to_data 1 named 88 4) 92 4) 104 4

-- The write of the first sector, whose result format returns at its end.
unfoldable pub put_super : List ℕ → Method Bool
put_super buf v =
    if v.writable 0
    then (returns true, record v { sectors = update v.sectors 0 buf })
    else (returns false, v)

unfoldable pub format : Text → Method Bool
format volid v =
    let laid = record v {
      blocks = v.disc_size / v.block_size % 2 ^ 32;
      block_in_sectors = v.block_size / v.sector_size;
    } in
    (format_blocks >>= (λ chain w.
        (put_super (super_sector w volid chain) >>= (λ res.
            init_meta 1 meta_dir >>= (λ _. update_meta 1 (b'/' ∷ []) 0 >>= (λ _. pure res))))
          w))
      laid
