-- ===== src/ClothesFs/Chain.antt =====
-- The chain of free blocks: formatBlock, formatBlocks, takeFreeBlock and addFreeBlock.
use cxx_kernel.Base.{ℕ, zero, suc, ◌+◌, ◌-◌, ◌==◌, if◌then◌else◌}
use cxx_kernel.ClothesFs.Bytes.{data_to_num, num_to_data}
use cxx_kernel.ClothesFs.Volume.{
  Method, pure, fail, ◌>>=◌, attempt, get_block, put_block, cleared, link_at, metadata_id,
}

unfoldable pub format_block : ℕ → ℕ → Method (Unit {0})
format_block num next v =
    put_block num (num_to_data next (num_to_data metadata_id (cleared v) 0 4) (link_at v) 4) v

-- for (i = m_blocks - 1; i >= 2; --i), with `n` rounds to go; m_blocks is not 0.
unfoldable pub format_loop : ℕ → ℕ → Method ℕ
format_loop zero next = pure 2
format_loop (suc n) next = format_block (n + 2) next >>= (λ _. format_loop n (n + 2))

-- formatBlocks; a failure is the result 0.
unfoldable pub format_blocks : Method ℕ
format_blocks v = attempt 0 (format_loop (v.blocks - 2) 0) v

-- Where block 0 keeps the head of the chain.
abbrev pub head_at : ℕ
head_at = 104

unfoldable pub take_free_block : Method ℕ
take_free_block = attempt 0 (
    get_block 0 >>= (λ super. get_block (data_to_num super head_at 4) >>= (λ block v.
      let next = data_to_num block (link_at v) 4 in
      (put_block 0 (num_to_data next super head_at 4) >>= (λ _. pure (data_to_num super head_at 4)))
        v)))

-- The link and the mark that it sets in the block's buffer are not written to the disc.
unfoldable pub add_free_block : ℕ → Method (Unit {0})
add_free_block id =
    if id == 0
    then fail
    else get_block 0 >>= (λ super. get_block id >>= (λ block.
      if data_to_num block 2 1 == 0 then fail else put_block 0 (num_to_data id super head_at 4)))
