-- ===== src/Tests/DiscRuns.antt =====
-- ClothesFS of src/fs/clothesfs.cpp on a disc of four blocks, of which 2 and 3 are free.
use cxx_kernel.Base.{
  ℕ, ◌*◌, ◌≡◌, refl, ◌∙◌, true, List, [], ◌∷◌, arith, ◌==◌, length, replicate, inl, inr, Bool-cases,
  if◌then◌else◌,
}
use cxx_kernel.ClothesFs.Bytes.{data_to_num, num_to_data, num_loop, data_loop}
use cxx_kernel.ClothesFs.Numbers.{length-num_to_data, data_to_num-num_to_data}
use cxx_kernel.ClothesFs.Volume.{Volume, returns, get_block, put_block}
use cxx_kernel.ClothesFs.Formatted.{format_blocks-Linked}
use cxx_kernel.ClothesFs.Chain.{format_blocks, take_free_block}
use cxx_kernel.ClothesFs.Storage.{IsSound, contents, with_block, put_block-get_block}
use cxx_kernel.ClothesFs.Free.{HasHead, Linked, link, head, with_head, take_free_block-Linked}

abbrev blank : List ℕ
blank = replicate 128 0

abbrev sector : ℕ → List ℕ
sector q =
    if q == 0
    then num_to_data 2 blank 104 4
    else if q == 128
    then num_to_data 2 (num_to_data 7 blank 124 4) 2 1
    else if q == 256
    then num_to_data 3 blank 124 4
    else blank

sector-length : (q : ℕ) → length (sector q) ≡ 128
sector-length q = elim (Bool-cases (q == 0)) [
  | inl a ↦ rw a (length-num_to_data 2 blank 104 4)
  | inr a ↦ elim (Bool-cases (q == 128)) [
    | inl b ↦
        rw (a, b)
          (length-num_to_data 2 (num_to_data 7 blank 124 4) 2 1 ∙ length-num_to_data 7 blank 124 4)
    | inr b ↦ elim (Bool-cases (q == 256)) [
      | inl c ↦ rw (a, b, c) (length-num_to_data 3 blank 124 4)
      | inr c ↦ rw (a, b, c) refl
    ]
  ]
]

abbrev disc : Volume
disc = record {
  disc_size = 512;
  sector_size = 128;
  readable = λ q. true;
  writable = λ q. true;
  sectors = sector;
  fresh = blank;
  block_size = 128;
  blocks = 4;
  block_in_sectors = 1;
}

disc-IsSound : IsSound disc
disc-IsSound = record {
  sectored = refl;
  single = refl;
  sized = λ e. omega arith;
  small = omega arith;
  reads = λ i h. refl;
  writes = λ i h. refl;
  full = λ i h. sector-length (i * 128);
  buffer = refl;
}

disc-HasHead : HasHead disc
disc-HasHead = record { sound = disc-IsSound; room = omega arith; first = omega arith }

data_to_num-num_to_data_example : data_to_num (num_to_data 305419896 blank 104 4) 104 4 ≡ 305419896
data_to_num-num_to_data_example =
    data_to_num-num_to_data 305419896 blank 104 (omega arith) (omega arith)

put_block-get_block_example :
    (put_block 3 blank disc ≡ (returns tt, with_block 3 blank disc))
    × (get_block 3 (with_block 3 blank disc) ≡ (returns blank, with_block 3 blank disc))
    × (get_block 2 (with_block 3 blank disc) ≡ (returns (contents disc 2), with_block 3 blank disc))
put_block-get_block_example =
    put_block-get_block disc 3 2 blank disc-IsSound (omega arith) (omega arith) refl
      (λ e. omega arith)

disc-Linked : Linked disc (head disc) (2 ∷ 3 ∷ [])
unfolding Linked data_to_num num_to_data num_loop data_loop
disc-Linked = (refl, λ e. omega arith, omega arith, (refl, λ e. omega arith, omega arith, refl))

no_link : link disc 0 ≡ 0
unfolding data_to_num num_to_data num_loop data_loop
no_link = refl

take_free_block-Linked_example :
    (take_free_block disc ≡ (returns 2, with_head (link disc (head disc)) disc))
    × Linked
        (with_head (link disc (head disc)) disc)
        (head (with_head (link disc (head disc)) disc))
        (3 ∷ [])
take_free_block-Linked_example =
    take_free_block-Linked disc (2 ∷ 3 ∷ []) disc-HasHead no_link disc-Linked

format_blocks-Linked_example :
    (w : Volume) × (format_blocks disc ≡ (returns 2, w)) × HasHead w × Linked w 2 (2 ∷ 3 ∷ [])
format_blocks-Linked_example = format_blocks-Linked disc 1 disc-HasHead (omega arith)
