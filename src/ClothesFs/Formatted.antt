-- ===== src/ClothesFs/Formatted.antt =====
-- What formatBlocks leaves: a chain of all blocks but the first two.
use mathlib.Core.Path.{subst}
use cxx_kernel.Base.{
  ℕ, zero, suc, ◌+◌, ◌-◌, ◌^◌, ◌<◌, ◌≡◌, refl, sym, ap, ◌∙◌, ◌≢◌, List, [], ◌∷◌, length, arith,
  length-replicate,
}
use cxx_kernel.ClothesFs.Bytes.{data_to_num, num_to_data}
use cxx_kernel.ClothesFs.Numbers.{length-num_to_data, data_to_num-num_to_data}
use cxx_kernel.ClothesFs.Volume.{
  Volume, Result, returns, then_do, attempt, or_else, link_at, cleared, metadata_id,
}
use cxx_kernel.ClothesFs.Chain.{format_block, format_loop, format_blocks}
use cxx_kernel.ClothesFs.Storage.{
  with_block, put_block-with_block, contents_same, with_block-IsSound,
}
use cxx_kernel.ClothesFs.Free.{HasHead, Linked, Avoids, link, with_block-Linked}

-- The numbers from `a` on.
abbrev pub from : ℕ → ℕ → List ℕ
from a zero = []
from a (suc n) = a ∷ from (a + 1) n

from-Avoids : (i a n : ℕ) → i < a → Avoids i (from a n)
unfolding Avoids
from-Avoids i a zero h = tt
from-Avoids i a (suc n) h = (λ e. omega arith, from-Avoids i (a + 1) n (omega arith))

-- The contents of a free block.
abbrev free_block : ℕ → Volume → List ℕ
free_block next v = num_to_data next (num_to_data metadata_id (cleared v) 0 4) (link_at v) 4

module _ (v : Volume) (h : HasHead v) (num next : ℕ) where
  length-free_block : length (free_block next v) ≡ v.block_size
  length-free_block =
      length-num_to_data next (num_to_data metadata_id (cleared v) 0 4) (link_at v) 4
      ∙ length-num_to_data metadata_id (cleared v) 0 4
      ∙ length-replicate v.block_size 0

  format_block_lem :
      num < v.blocks → format_block num next v ≡ (returns tt, with_block num (free_block next v) v)
  unfolding format_block
  format_block_lem b = put_block-with_block v num (free_block next v) h.sound b length-free_block

  link_new : next < 2 ^ 32 → link (with_block num (free_block next v) v) num ≡ next
  link_new w =
      let room = h.room in
      let small = h.sound.small in
      let first = h.first in
      let l : length (num_to_data metadata_id (cleared v) 0 4) ≡ v.block_size =
        length-num_to_data metadata_id (cleared v) 0 4 ∙ length-replicate v.block_size 0 in
      let below : v.block_size < 2 ^ 32 = grind arith in
      ap (λ (c : List ℕ). data_to_num c (link_at v) 4)
        (contents_same v num (free_block next v) h.sound)
      ∙ data_to_num-num_to_data next (num_to_data metadata_id (cleared v) 0 4) (link_at v) w
          (omega (arith, l, below, room))

  free_block-HasHead : num < v.blocks → HasHead (with_block num (free_block next v) v)
  free_block-HasHead b = record {
    sound = with_block-IsSound v num (free_block next v) h.sound b length-free_block;
    room = h.room;
    first = h.first;
  }

  -- A block in front of a chain of higher ones.
  free_block-Linked :
      (m : ℕ)
      → num ≢ 0
      → num < v.blocks
      → next < 2 ^ 32
      → Linked v next (from (num + 1) m)
      → Linked (with_block num (free_block next v) v) num (from num (suc m))
  unfolding Linked
  free_block-Linked m n b w c =
      let w' = with_block num (free_block next v) v in
      let rest =
        with_block-Linked v num (free_block next v) h.sound next (from (num + 1) m)
          (from-Avoids num (num + 1) m (omega arith)) c in
      (refl, n, b, subst (λ (q : ℕ). Linked w' q (from (num + 1) m)) (sym (link_new w)) rest)

  loop_step :
      (n : ℕ)
      → num ≡ n + 2
      → num < v.blocks
      → format_loop (suc n) next v ≡ format_loop n num (with_block num (free_block next v) v)
  unfolding format_loop
  loop_step n e b =
      ap (λ (q : ℕ). then_do (format_block q next v) (λ _. format_loop n q)) (sym e)
      ∙ ap (λ (r : Result (Unit {0}) × Volume). then_do r (λ _. format_loop n num))
          (format_block_lem b)

-- What the loop leaves when `m` blocks are done and `n` are to do.
format_loop_lem :
    (n m next : ℕ) (v : Volume)
    → HasHead v
    → n + 2 + m ≡ v.blocks
    → next < 2 ^ 32
    → Linked v next (from (n + 2) m)
    → (w : Volume) × (p : ℕ) × (format_loop n next v ≡ (returns 2, w))
      × HasHead w
      × Linked w p (from 2 (n + m))
unfolding format_loop
format_loop_lem zero m next v h e b c =
    (v, next, refl, h, subst (λ (k : ℕ). Linked v next (from 2 k)) (omega arith) c)
format_loop_lem (suc n) m next v h e b c =
    let num = n + 2 in
    let small = h.sound.small in
    let size = h.sound.sized in
    let below : num < 2 ^ 32 = grind arith in
    let b' : num < v.blocks = omega arith in
    let c' : Linked v next (from (num + 1) m) =
      subst (λ (k : ℕ). Linked v next (from k m)) (omega arith) c in
    let (w, p, run, h', chain) =
      format_loop_lem n (suc m) num (with_block num (free_block next v) v)
        (free_block-HasHead v h num next b') (omega arith) below
        (free_block-Linked v h num next m (λ z. omega arith) b' b c') in
    (
      w,
      p,
      loop_step v h num next n refl b' ∙ run,
      h',
      subst (λ (k : ℕ). Linked w p (from 2 k)) (omega arith) chain,
    )

-- On a sound disc of more than two blocks, formatBlocks succeeds with 2, and 2 is the first of a
-- chain of all blocks but the blocks 0 and 1.
pub format_blocks-Linked :
    (v : Volume) (k : ℕ)
    → HasHead v
    → v.blocks ≡ k + 3
    → (w : Volume) × (format_blocks v ≡ (returns 2, w)) × HasHead w × Linked w 2 (from 2 (suc k))
unfolding format_blocks Linked
format_blocks-Linked v k h e =
    let (w, p, run, h', chain) = format_loop_lem (k + 1) 0 0 v h (omega arith) (omega arith) refl in
    let rounds : v.blocks - 2 ≡ k + 1 = omega arith in
    let all : k + 1 + 0 ≡ suc k = omega arith in
    let c : Linked w p (from 2 (suc k)) = subst (λ (n : ℕ). Linked w p (from 2 n)) all chain in
    let d : Linked w 2 (from 2 (suc k)) = (refl, c.1, c.2, c.3) in
    (w, ap (λ (n : ℕ). attempt 0 (format_loop n 0) v) rounds ∙ ap (or_else 0) run, h', d)
