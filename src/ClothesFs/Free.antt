-- ===== src/ClothesFs/Free.antt =====
-- The chain of free blocks is a stack: takeFreeBlock takes its first block, and what addFreeBlock
-- adds is taken next (src/fs/clothesfs.cpp).
use mathlib.Core.Path.{subst}
use cxx_kernel.Base.{
  ℕ, ◌^◌, ◌≤◌, ◌<◌, ◌≡◌, refl, sym, ap, ◌∙◌, ◌≢◌, List, [], ◌∷◌, length, arith, ==_false,
}
use cxx_kernel.ClothesFs.Bytes.{data_to_num, num_to_data}
use cxx_kernel.ClothesFs.Numbers.{length-num_to_data, data_to_num-num_to_data, data_to_num_bound}
use cxx_kernel.ClothesFs.Volume.{Volume, returns, put_block, link_at}
use cxx_kernel.ClothesFs.Chain.{head_at, take_free_block, add_free_block}
use cxx_kernel.ClothesFs.Storage.{
  IsSound, contents, get_block-contents, with_block, put_block-with_block, contents_same,
  contents_other, with_block-IsSound,
}

-- The number of the block that follows a block, and of the first free one.
abbrev pub link : Volume → ℕ → ℕ
link v x = data_to_num (contents v x) (link_at v) 4

abbrev pub head : Volume → ℕ
head v = data_to_num (contents v 0) head_at 4

-- The blocks of a chain that starts at a number and ends at 0.
unfoldable pub Linked : Volume → ℕ → List ℕ → Type 0
Linked v p [] = p ≡ 0
Linked v p (x ∷ xs) = (p ≡ x) × (x ≢ 0) × (x < v.blocks) × Linked v (link v x) xs

unfoldable pub Avoids : ℕ → List ℕ → Type 0
Avoids i [] = Unit
Avoids i (x ∷ xs) = (x ≢ i) × Avoids i xs

pub Linked-Avoids : (v : Volume) (p : ℕ) (xs : List ℕ) → Linked v p xs → Avoids 0 xs
unfolding Linked Avoids
Linked-Avoids v p [] l = tt
Linked-Avoids v p (x ∷ xs) (e, n, b, l) = (n, Linked-Avoids v (link v x) xs l)

pub with_block-Linked :
    (v : Volume) (i : ℕ) (buf : List ℕ)
    → IsSound v
    → (p : ℕ) (xs : List ℕ) → Avoids i xs
    → Linked v p xs
    → Linked (with_block i buf v) p xs
unfolding Linked Avoids
with_block-Linked v i buf s p [] a l = l
with_block-Linked v i buf s p (x ∷ xs) (d, a) (e, n, b, l) =
    let k : link v x ≡ link (with_block i buf v) x =
      ap (λ (c : List ℕ). data_to_num c (link_at v) 4) (sym (contents_other v i buf s x d)) in
    let rest = with_block-Linked v i buf s (link v x) xs a l in
    (e, n, b, subst (λ (q : ℕ). Linked (with_block i buf v) q xs) k rest)

-- The super block has room for the head of the chain.
pub record HasHead (v : Volume) : Type 0 where
  pub sound : IsSound v
  pub room : 108 ≤ v.block_size
  pub first : 0 < v.blocks

-- The disc with another head of the chain.
abbrev pub with_head : ℕ → Volume → Volume
with_head x v = with_block 0 (num_to_data x (contents v 0) head_at 4) v

module _ (v : Volume) (h : HasHead v) (x : ℕ) where
  length-super : length (num_to_data x (contents v 0) head_at 4) ≡ v.block_size
  length-super = length-num_to_data x (contents v 0) head_at 4 ∙ h.sound.full 0 h.first

  pub head-with_head : x < 2 ^ 32 → head (with_head x v) ≡ x
  head-with_head b =
      let f = h.sound.full 0 h.first in
      let g = h.room in
      ap (λ (c : List ℕ). data_to_num c head_at 4)
        (contents_same v 0 (num_to_data x (contents v 0) head_at 4) h.sound)
      ∙ data_to_num-num_to_data x (contents v 0) head_at b (omega (arith, f, g))

  pub put_block-with_head :
      put_block 0 (num_to_data x (contents v 0) head_at 4) v ≡ (returns tt, with_head x v)
  put_block-with_head =
      put_block-with_block v 0 (num_to_data x (contents v 0) head_at 4) h.sound h.first length-super

  pub with_head-HasHead : HasHead (with_head x v)
  with_head-HasHead = record {
    sound =
        with_block-IsSound v 0 (num_to_data x (contents v 0) head_at 4) h.sound h.first
          length-super;
    room = h.room;
    first = h.first;
  }

-- Whatever stands first in the chain, takeFreeBlock returns it and makes its successor the first.
pub take_free_block_lem :
    (v : Volume)
    → HasHead v
    → head v < v.blocks
    → take_free_block v ≡ (returns (head v), with_head (link v (head v)) v)
unfolding take_free_block
take_free_block_lem v h b =
    rw
      (
        get_block-contents v 0 h.sound h.first,
        get_block-contents v (head v) h.sound b,
        put_block-with_head v h (link v (head v)),
      )
      refl

abbrev pub first_of : List ℕ → ℕ
first_of [] = 0
first_of (x ∷ xs) = x

abbrev pub rest_of : List ℕ → List ℕ
rest_of [] = []
rest_of (x ∷ xs) = xs

-- On a disc whose blocks are one sector each, which is below 4 GB and fails no read or write, and
-- whose super block holds the head of the chain: takeFreeBlock takes the first block of a chain of
-- free blocks, and the rest is the chain; of an empty chain it returns 0, where no block follows
-- block 0, and the chain stays empty.
pub take_free_block-Linked :
    (v : Volume) (xs : List ℕ)
    → HasHead v
    → link v 0 ≡ 0
    → Linked v (head v) xs
    → (take_free_block v ≡ (returns (first_of xs), with_head (link v (head v)) v))
      × Linked (with_head (link v (head v)) v) (head (with_head (link v (head v)) v)) (rest_of xs)
unfolding Linked
take_free_block-Linked v [] h z e =
    let b : head v < v.blocks = omega (arith, e, h.first) in
    let n : link v (head v) ≡ 0 = ap (link v) e ∙ z in
    (
      take_free_block_lem v h b ∙ ap (λ (q : ℕ). (returns q, with_head (link v (head v)) v)) e,
      head-with_head v h (link v (head v)) (data_to_num_bound _ _) ∙ n,
    )
take_free_block-Linked v (x ∷ xs) h z (e, n, b, l) =
    let b' : head v < v.blocks = omega (arith, e, b) in
    let a = Linked-Avoids v (link v x) xs l in
    let k : link v x ≡ head (with_head (link v (head v)) v) =
      ap (link v) (sym e) ∙ sym (head-with_head v h (link v (head v)) (data_to_num_bound _ _)) in
    (
      take_free_block_lem v h b' ∙ ap (λ (q : ℕ). (returns q, with_head (link v (head v)) v)) e,
      subst (λ (q : ℕ). Linked (with_head (link v (head v)) v) q xs) k
          (with_block-Linked v 0 (num_to_data (link v (head v)) (contents v 0) head_at 4) h.sound
            (link v x) xs a l),
    )

-- addFreeBlock of a used block other than block 0 makes it the first free block, so that
-- takeFreeBlock gives it back. The chain then goes on at the number that the block itself held, and
-- not at the blocks that were free before.
pub add_free_block-take_free_block :
    (v : Volume) (id : ℕ)
    → HasHead v
    → id ≢ 0
    → id < v.blocks
    → id < 2 ^ 32
    → data_to_num (contents v id) 2 1 ≢ 0
    → (add_free_block id v ≡ (returns tt, with_head id v))
      × (take_free_block (with_head id v) ≡ (returns id, with_head (link v id) (with_head id v)))
unfolding add_free_block
add_free_block-take_free_block v id h n b w u =
    let f : head (with_head id v) ≡ id = head-with_head v h id w in
    let h' = with_head-HasHead v h id in
    let k : link (with_head id v) id ≡ link v id =
      ap (λ (c : List ℕ). data_to_num c (link_at v) 4)
        (contents_other v 0 (num_to_data id (contents v 0) head_at 4) h.sound id n) in
    (
      rw
          (
            ==_false id 0 n,
            get_block-contents v 0 h.sound h.first,
            get_block-contents v id h.sound b,
            ==_false (data_to_num (contents v id) 2 1) 0 u,
            put_block-with_head v h id,
          )
          refl,
      take_free_block_lem (with_head id v) h' (omega (arith, f, b))
          ∙ ap (λ (q : ℕ). (returns q, with_head (link (with_head id v) q) (with_head id v))) f
          ∙ ap (λ (q : ℕ). (returns id, with_head q (with_head id v))) k,
    )
