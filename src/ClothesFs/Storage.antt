-- ===== src/ClothesFs/Storage.antt =====
-- Blocks on the disc.
use mathlib.Core.List.{append-nil}
use cxx_kernel.Base.{
  ℕ, zero, suc, ◌+◌, ◌-◌, ◌*◌, ◌%◌, ◌^◌, ◌≤◌, ◌<◌, ◌≡◌, refl, sym, ap, ◌∙◌, ◌≢◌, true, false, List,
  [], ◌∷◌, ◌++◌, length, take, drop, arith, ltb, lt→ltb, ==_iff, ==_false, update,
}
use cxx_kernel.ClothesFs.Volume.{
  Volume, returns, position, fill_sector, get_loop, get_block, put_loop, put_block,
}

-- A disc whose blocks are its sectors, with `n` of them below 4 GB, all of which can be read and
-- written.
pub record IsSound (v : Volume) : Type 0 where
  pub sectored : v.sector_size ≡ v.block_size
  pub single : v.block_in_sectors ≡ 1
  pub sized : v.block_size ≢ 0
  pub small : v.blocks * v.block_size < 2 ^ 32
  pub reads : (i : ℕ) → i < v.blocks → v.readable (i * v.block_size) ≡ true
  pub writes : (i : ℕ) → i < v.blocks → v.writable (i * v.block_size) ≡ true
  pub full : (i : ℕ) → i < v.blocks → length (v.sectors (i * v.block_size)) ≡ v.block_size
  pub buffer : length v.fresh ≡ v.block_size

-- The contents of a block.
abbrev pub contents : Volume → ℕ → List ℕ
contents v i = v.sectors (i * v.block_size)

position_lem : (v : Volume) (i : ℕ) → IsSound v → i < v.blocks → position v i 0 ≡ i * v.block_size
position_lem v i s h =
    let le : i * v.block_size < v.blocks * v.block_size = grind arith in
    let k = s.small in omega (arith, le, k)

module _ (f index block : ℕ) (buf : List ℕ) (v : Volume) where
  get_step :
      ltb block v.block_in_sectors ≡ true
      → v.readable (position v index block) ≡ true
      → get_loop (suc f) index block buf v
        ≡ get_loop f index
            ((block + (2 ^ 32 - 1)) % 2 ^ 32)
            (fill_sector (block * v.sector_size % 2 ^ 32) (v.sectors (position v index block)) buf)
            v
  unfolding get_loop
  get_step h r = rw (h, r) refl

  get_end :
      ltb block v.block_in_sectors ≡ false → get_loop (suc f) index block buf v ≡ (returns buf, v)
  unfolding get_loop
  get_end h = rw h refl

  put_step :
      ltb block v.block_in_sectors ≡ true
      → v.writable (position v index block) ≡ true
      → put_loop (suc f) index block buf v
        ≡ put_loop f index ((block + (2 ^ 32 - 1)) % 2 ^ 32) buf (record v {
          sectors =
              update v.sectors
                (position v index block)
                (take v.sector_size (drop (block * v.sector_size % 2 ^ 32) buf));
        })
  unfolding put_loop
  put_step h r = rw (h, r) refl

  put_end :
      ltb block v.block_in_sectors ≡ false → put_loop (suc f) index block buf v ≡ (returns tt, v)
  unfolding put_loop
  put_end h = rw h refl

take-length : (xs : List ℕ) (n : ℕ) → length xs ≡ n → take n xs ≡ xs
take-length [] zero e = refl
take-length [] (suc n) e = absurd (omega arith)
take-length (x ∷ xs) zero e = absurd (omega arith)
take-length (x ∷ xs) (suc n) e = ap (λ (ys : List ℕ). x ∷ ys) (take-length xs n (omega arith))

drop-length : (xs : List ℕ) (n : ℕ) → length xs ≤ n → drop n xs ≡ []
drop-length [] zero e = refl
drop-length [] (suc n) e = refl
drop-length (x ∷ xs) zero e = absurd (omega arith)
drop-length (x ∷ xs) (suc n) e = drop-length xs n (omega arith)

-- A sector of the buffer's size fills it.
filled :
    (bytes buf : List ℕ) (offset : ℕ)
    → offset ≡ 0
    → length bytes ≡ length buf
    → fill_sector offset bytes buf ≡ bytes
filled bytes buf offset z e =
    ap (λ (o : ℕ). fill_sector o bytes buf) z
    ∙ ap (λ (xs : List ℕ). bytes ++ xs) (drop-length buf (0 + length bytes) (omega arith))
    ∙ append-nil bytes

-- On such a disc, getBlock gives the contents of a block.
pub get_block-contents :
    (v : Volume) (i : ℕ) → IsSound v → i < v.blocks → get_block i v ≡ (returns (contents v i), v)
unfolding get_block
get_block-contents v i s h =
    let n = s.single in
    let p : position v i 0 ≡ i * v.block_size = position_lem v i s h in
    let r : v.readable (position v i 0) ≡ true = ap v.readable p ∙ s.reads i h in
    let w : length (v.sectors (position v i 0)) ≡ length v.fresh =
      ap (λ (q : ℕ). length (v.sectors q)) p ∙ s.full i h ∙ sym s.buffer in
    get_step 2 i 0 v.fresh v (lt→ltb _ _ (omega (arith, n))) r
    ∙ get_end 1 i _ _ v (ground (arith, n))
    ∙ ap (λ (xs : List ℕ). (returns xs, v)) (filled _ v.fresh _ (omega arith) w ∙ ap v.sectors p)

abbrev pub with_block : ℕ → List ℕ → Volume → Volume
with_block i buf v = record v { sectors = update v.sectors (i * v.block_size) buf }

-- On such a disc, putBlock of a buffer of a block's size changes that block, and nothing else.
pub put_block-with_block :
    (v : Volume) (i : ℕ) (buf : List ℕ)
    → IsSound v
    → i < v.blocks
    → length buf ≡ v.block_size
    → put_block i buf v ≡ (returns tt, with_block i buf v)
unfolding put_block
put_block-with_block v i buf s h e =
    let n = s.single in
    let se = s.sectored in
    let p : position v i 0 ≡ i * v.block_size = position_lem v i s h in
    let r : v.writable (position v i 0) ≡ true = ap v.writable p ∙ s.writes i h in
    let t : take v.sector_size buf ≡ buf = take-length buf v.sector_size (e ∙ sym se) in
    let z : 0 * v.sector_size % 2 ^ 32 ≡ 0 = omega arith in
    put_step 2 i 0 buf v (lt→ltb _ _ (omega (arith, n))) r
    ∙ put_end 1 i _ buf _ (ground (arith, n))
    ∙ ap
        (λ (o : ℕ). (
          returns tt,
          record v {
            sectors = update v.sectors (position v i 0) (take v.sector_size (drop o buf));
          },
        ))
        z
    ∙ ap
        (λ (q : ℕ).
          (returns tt, record v { sectors = update v.sectors q (take v.sector_size buf) }))
        p
    ∙ ap (λ (xs : List ℕ). (returns tt, with_block i xs v)) t

module _ (v : Volume) (i : ℕ) (buf : List ℕ) (s : IsSound v) where
  pub contents_same : contents (with_block i buf v) i ≡ buf
  contents_same = rw ((==_iff (i * v.block_size) (i * v.block_size)).1 refl) refl

  pub contents_other : (j : ℕ) → j ≢ i → contents (with_block i buf v) j ≡ contents v j
  contents_other j n =
      let z = s.sized in
      let d : i * v.block_size ≢ j * v.block_size = λ q. n (grind arith) in
      rw (==_false (i * v.block_size) (j * v.block_size) d) refl

  pub with_block-IsSound : i < v.blocks → length buf ≡ v.block_size → IsSound (with_block i buf v)
  with_block-IsSound h e = record {
    sectored = s.sectored;
    single = s.single;
    sized = s.sized;
    small = s.small;
    reads = s.reads;
    writes = s.writes;
    full = λ j l. ground (arith, e, s.full j l);
    buffer = s.buffer;
  }

-- On a disc whose blocks are one sector each, which is below 4 GB and fails no read or write: putBlock
-- of a buffer of a block's size to a block of the disc succeeds; getBlock of the block then gives the
-- buffer, and getBlock of any other block of the disc gives what it gave before.
pub put_block-get_block :
    (v : Volume) (i j : ℕ) (buf : List ℕ)
    → IsSound v
    → i < v.blocks
    → j < v.blocks
    → length buf ≡ v.block_size
    → j ≢ i
    → (put_block i buf v ≡ (returns tt, with_block i buf v))
      × (get_block i (with_block i buf v) ≡ (returns buf, with_block i buf v))
      × (get_block j (with_block i buf v) ≡ (returns (contents v j), with_block i buf v))
put_block-get_block v i j buf s h k e n =
    let w = with_block i buf v in
    let t : IsSound w = with_block-IsSound v i buf s h e in
    (
      put_block-with_block v i buf s h e,
      get_block-contents w i t h ∙ ap (λ (xs : List ℕ). (returns xs, w)) (contents_same v i buf s),
      get_block-contents w j t k
          ∙ ap (λ (xs : List ℕ). (returns xs, w)) (contents_other v i buf s j n),
    )
