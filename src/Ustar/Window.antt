-- ===== src/Ustar/Window.antt =====
-- What Iterator::read copies stays within the file and within what was asked for.
use cxx_kernel.Base.{
  ℕ, zero, suc, ◌+◌, ◌-◌, ◌/◌, ◌%◌, ◌^◌, ◌<◌, ◌≤◌, ◌≡◌, refl, List, [], ◌∷◌, ◌++◌, Bool, true,
  false, Bool-cases, inl, inr, Outcome, done, Ensures, leb, ◌==◌, length, length-append, take, drop,
  arith, ◌∙◌,
}
use cxx_kernel.Ustar.{Disc, Iterator, block_size, get_block}
use cxx_kernel.Ustar.Blocks.{get_block_Ends}
use cxx_kernel.Ustar.Reading.{chunk, read_loop, read}

-- A round copies at least a byte, no more than asked for, and stays in the block and in the file.
chunk_bounds :
    (cnt i size : ℕ)
    → 0 < cnt
    → i < size
    → (0 < chunk cnt i size)
      × (chunk cnt i size ≤ cnt)
      × (i + chunk cnt i size ≤ size)
      × (i % block_size + chunk cnt i size ≤ block_size)
unfolding chunk
chunk_bounds cnt i size h k = (ground arith, ground arith, ground arith, ground arith)

length-take : (n : ℕ) (xs : List ℕ) → length (take n xs) ≤ n
length-take zero xs = omega arith
length-take (suc n) [] = omega arith
length-take (suc n) (x ∷ xs) = omega (arith, length-take n xs)

-- The iterator has moved by at most `cnt` bytes, which stay in the file, and the bytes copied are
-- at most those.
abbrev pub Within : ℕ → Iterator → List ℕ → List ℕ × Iterator → Type 0
Within cnt it out r =
    (it.data_index ≤ r.1.data_index)
    × (r.1.data_index ≤ it.data_index + cnt)
    × (r.1.data_index ≤ it.size)
    × (r.1.size ≡ it.size)
    × (length r.0 ≤ length out + (r.1.data_index - it.data_index))

stay-Within :
    (cnt : ℕ) (it it' : Iterator) (out : List ℕ)
    → it.data_index ≤ it.size
    → it'.data_index ≡ it.data_index
    → it'.size ≡ it.size
    → Within cnt it out (out, it')
stay-Within cnt it it' out k e s = (omega arith, omega arith, omega arith, s, omega arith)

-- What a round does with the block it has read.
abbrev round : ℕ → Disc → ℕ → ℕ → Iterator → List ℕ → Bool × List ℕ → Outcome (List ℕ × Iterator)
round f disc cnt end_block it out (false, buf) = done (out, record it { content = buf })
round f disc cnt end_block it out (true, buf) =
    let b = chunk cnt it.data_index it.size in
    read_loop f disc (cnt - b) end_block
      (record it { data_index = (it.data_index + b) % 2 ^ 32; content = buf })
      (out ++ take b (drop (it.data_index % block_size) buf))

module _ (f : ℕ) (disc : Disc) (cnt end_block : ℕ) (it : Iterator) (out : List ℕ) where
  read_loop_done : (cnt == 0) ≡ true → read_loop (suc f) disc cnt end_block it out ≡ done (out, it)
  unfolding read_loop
  read_loop_done h = rw h refl

  read_loop_full :
      (cnt == 0) ≡ false
      → leb it.size it.data_index ≡ true
      → read_loop (suc f) disc cnt end_block it out ≡ done (out, it)
  unfolding read_loop
  read_loop_full h k = rw (h, k) refl

  read_loop_last :
      (cnt == 0) ≡ false
      → leb it.size it.data_index ≡ false
      → leb end_block ((it.data_block + it.data_index / block_size) % 2 ^ 32) ≡ true
      → read_loop (suc f) disc cnt end_block it out ≡ done (out, it)
  unfolding read_loop
  read_loop_last h k e = rw (h, k, e) refl

  read_loop-round :
      (r : Bool × List ℕ)
      → (cnt == 0) ≡ false
      → leb it.size it.data_index ≡ false
      → leb end_block ((it.data_block + it.data_index / block_size) % 2 ^ 32) ≡ false
      → get_block 3 disc ((it.data_block + it.data_index / block_size) % 2 ^ 32) it.content ≡ done r
      → read_loop (suc f) disc cnt end_block it out ≡ round f disc cnt end_block it out r
  unfolding read_loop
  read_loop-round (false, buf) h k e g = rw (h, k, e, g) refl
  read_loop-round (true, buf) h k e g = rw (h, k, e, g) refl

-- A round of `b` bytes, and what the later rounds do.
round-Within :
    (cnt b : ℕ) (it it' : Iterator) (out bytes : List ℕ) (r : List ℕ × Iterator)
    → b ≤ cnt
    → it'.data_index ≡ it.data_index + b
    → it'.size ≡ it.size
    → length bytes ≤ b
    → Within (cnt - b) it' (out ++ bytes) r
    → Within cnt it out r
round-Within cnt b it it' out bytes r h e s l (p, q, t, u, v) =
    (omega arith, omega arith, omega arith, omega arith, omega (arith, length-append out bytes))

-- The claim for the runs with fuel `f`.
abbrev Runs : ℕ → Type 0
Runs f =
    (disc : Disc) (cnt end_block : ℕ) (it : Iterator) (out : List ℕ)
    → cnt < f
    → it.size < 2 ^ 32
    → it.data_index ≤ it.size
    → Ensures (read_loop f disc cnt end_block it out) (Within cnt it out)

round_Ends :
    (f : ℕ) (disc : Disc) (cnt end_block : ℕ) (it : Iterator) (out : List ℕ) (r : Bool × List ℕ)
    → Runs f
    → cnt < suc f
    → it.size < 2 ^ 32
    → it.data_index ≤ it.size
    → 0 < cnt
    → it.data_index < it.size
    → Ensures (round f disc cnt end_block it out r) (Within cnt it out)
round_Ends f disc cnt end_block it out (false, buf) runs h w k c0 i =
    (_, refl, stay-Within cnt it (record it { content = buf }) out k refl refl)
round_Ends f disc cnt end_block it out (true, buf) runs h w k c0 i =
    let b = chunk cnt it.data_index it.size in
    let (pos, le, in_file, in_block) = chunk_bounds cnt it.data_index it.size c0 i in
    let it' = record it { data_index = (it.data_index + b) % 2 ^ 32; content = buf } in
    let e : it'.data_index ≡ it.data_index + b = omega arith in
    let bytes = take b (drop (it.data_index % block_size) buf) in
    let (o, q, p) =
      runs disc (cnt - b) end_block it' (out ++ bytes) (omega arith) w (omega arith) in
    (o, q, round-Within cnt b it it' out bytes o le e refl (length-take b _) p)

read_loop-Within : (f : ℕ) → Runs f
read_loop-Within zero disc cnt end_block it out h w k = absurd (omega arith)
read_loop-Within (suc f) disc cnt end_block it out h w k =
    let stay : Within cnt it out (out, it) = stay-Within cnt it it out k refl refl in
    let at = (it.data_block + it.data_index / block_size) % 2 ^ 32 in
    elim (Bool-cases (cnt == 0)) [
      | inl a ↦ (_, read_loop_done f disc cnt end_block it out a, stay)
      | inr a ↦ elim (Bool-cases (leb it.size it.data_index)) [
        | inl b ↦ (_, read_loop_full f disc cnt end_block it out a b, stay)
        | inr b ↦ elim (Bool-cases (leb end_block at)) [
          | inl c ↦ (_, read_loop_last f disc cnt end_block it out a b c, stay)
          | inr c ↦
              let (r, g) = get_block_Ends disc at it.content in
              let (o, e, p) =
                round_Ends f disc cnt end_block it out r (read_loop-Within f) h w k (ground arith)
                  (ground arith) in
              (o, read_loop-round f disc cnt end_block it out r a b c g ∙ e, p)
        ]
      ]
    ]

-- Iterator::read ends, after at most one round for each byte asked for and one more. It copies at
-- most `cnt` bytes, and the position moves by at least what is copied, by at most `cnt`, and never
-- past the end of the file, for a file of less than 4 GB.
pub read-Within :
    (fuel : ℕ) (disc : Disc) (cnt : ℕ) (it : Iterator)
    → cnt < fuel
    → it.size < 2 ^ 32
    → it.data_index ≤ it.size
    → Ensures (read fuel disc cnt it) (Within cnt it [])
unfolding read
read-Within fuel disc cnt it h w k = read_loop-Within fuel disc cnt _ it [] h w k
