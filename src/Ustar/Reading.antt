-- ===== src/Ustar/Reading.antt =====
-- Ustar::Iterator::read: the bytes of a file, block by block.
use cxx_kernel.Base.{
  ℕ, zero, suc, ◌+◌, ◌-◌, ◌/◌, ◌%◌, ◌^◌, true, false, List, [], ◌++◌, Outcome, done, no_fuel, ◌>>=◌,
  ltb, leb, ◌==◌, if◌then◌else◌, take, drop,
}
use cxx_kernel.Ustar.{Disc, Iterator, block_size, get_block, next_block}

-- bcnt: what is asked for, at most one block, at most the rest of the block, at most the rest of
-- the file.
unfoldable pub chunk : ℕ → ℕ → ℕ → ℕ
chunk cnt data_index size =
    let offset = data_index % block_size in
    let a = if ltb block_size cnt then block_size else cnt in
    let b = if ltb block_size (offset + a) then block_size - offset else a in
    if ltb size (data_index + b) then size - data_index else b

-- The loop of read, with the bytes that it copies. The buffer `content` takes each block.
unfoldable pub read_loop : ℕ → Disc → ℕ → ℕ → Iterator → List ℕ → Outcome (List ℕ × Iterator)
read_loop zero disc cnt end_block it out = no_fuel
read_loop (suc f) disc cnt end_block it out =
    let cblock = it.data_index / block_size in
    let b = chunk cnt it.data_index it.size in
    let offset = it.data_index % block_size in
    let rest = λ (bytes : List ℕ).
      read_loop f disc (cnt - b) end_block
        (record it { data_index = (it.data_index + b) % 2 ^ 32; content = bytes })
        (out ++ take b (drop offset bytes)) in
    if cnt == 0
    then done (out, it)
    else if leb it.size it.data_index
    then done (out, it)
    else if leb end_block ((it.data_block + cblock) % 2 ^ 32)
    then done (out, it)
    else get_block 3 disc ((it.data_block + cblock) % 2 ^ 32) it.content
      >>= (λ r. elim r.0 [ false ↦ done (out, record it { content = r.1 }) | true ↦ rest r.1 ])

unfoldable pub read : ℕ → Disc → ℕ → Iterator → Outcome (List ℕ × Iterator)
read fuel disc cnt it = read_loop fuel disc cnt (next_block it.block it.size) it []
