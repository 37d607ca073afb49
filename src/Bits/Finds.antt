-- ===== src/Bits/Finds.antt =====
-- findUnset looks at the bits 0 to 30 of each word from m_last on.
use cxx_kernel.Base.{
  ℕ, zero, suc, ◌+◌, ◌-◌, ◌*◌, ◌/◌, ◌%◌, ◌^◌, ◌<◌, ◌≤◌, ◌≡◌, refl, ap, ◌∙◌, ◌≢◌, ◌⊎◌, inl, inr,
  true, false, ◌&&◌, Bool-cases, arith, Option, some, none, done, Ensures, ltb, leb, ltb→lt, ◌==◌,
  ==_iff,
}
use cxx_kernel.Bits.{Bits, bit, find_bit, find_in, find_loop, find_unset}
use cxx_kernel.Bits.Words.{bit_full}

-- What a search of `n` bits from `j` on finds.
abbrev pub Spots : ℕ → ℕ → ℕ → Option ℕ → Type 0
Spots n j w o =
    ((k : ℕ) × (o ≡ some k) × (bit w k ≡ 0) × (k < j + n))
    ⊎ ((o ≡ none) × ((k : ℕ) → j ≤ k → k < j + n → bit w k ≢ 0))

find_bit-Spots : (n j w : ℕ) → Spots n j w (find_bit n j w)
unfolding find_bit
find_bit-Spots zero j w = inr (refl, λ k a b e. omega arith)
find_bit-Spots (suc n) j w = elim (Bool-cases (bit w j == 0)) [
  | inl e ↦ rw e (inl (j, refl, (==_iff (bit w j) 0).0 e, omega arith))
  | inr e ↦ rw e (elim (find_bit-Spots n (j + 1) w) [
    | inl (k, s, z, l) ↦ inl (k, s, z, omega arith)
    | inr (s, all) ↦ inr (
      s,
      λ k a b. elim (Bool-cases (j == k)) [
        | inl q ↦ λ z.
            let same : j ≡ k = (==_iff j k).0 q in
            let y : bit w j ≡ 0 = ap (bit w) same ∙ z in ground arith
        | inr q ↦ all k (ground arith) (omega arith)
      ],
    )
  ])
]

find_in-Spots : (w : ℕ) → Spots 31 0 w (find_in w)
unfolding find_in
find_in-Spots w = elim (Bool-cases (w == 2 ^ 32 - 1)) [
  | inl e ↦ rw e (
      inr (
        refl,
        λ k a b z.
            let same : bit w k ≡ bit (2 ^ 32 - 1) k =
              ap (λ (x : ℕ). bit x k) ((==_iff w (2 ^ 32 - 1)).0 e) in
            let y = bit_full k (omega arith) in omega (arith, same, y, z),
      ))
  | inr e ↦ rw e (find_bit-Spots 31 0 w)
]

-- A number whose bit is 0, or none where the bits 0 to 30 of all words from `i` on are 1.
abbrev pub IsFound : ℕ → Bits → Option ℕ × Bits → Type 0
IsFound i b r =
    ((k : ℕ) × (r.0 ≡ some k)
      × (bit (b.words (k / 32)) (k % 32) ≡ 0)
      × (k < b.len * 32)
      × (r.1.words ≡ b.words)
      × (r.1.cnt ≡ b.cnt)
      × (r.1.len ≡ b.len))
    ⊎ ((r.0 ≡ none) × (r.1 ≡ b) × ((a j : ℕ) → i ≤ a → a < b.len → j < 31 → bit (b.words a) j ≢ 0))

module _ (f i : ℕ) (b : Bits) where
  ends : ltb i b.len ≡ false → find_loop (suc f) i 0 b ≡ done (none, b)
  unfolding find_loop
  ends h = rw h refl

  hits :
      (j : ℕ)
      → ltb i b.len ≡ true
      → find_in (b.words i) ≡ some j
      → find_loop (suc f) i 0 b ≡ done (some ((i * 32 + j) % 2 ^ 32), record b { last = i })
  unfolding find_loop
  hits j h e = rw (h, e) refl

  goes_on :
      ltb i b.len ≡ true
      → find_in (b.words i) ≡ none
      → find_loop (suc f) i 0 b ≡ find_loop f (i + 1) 0 b
  unfolding find_loop
  goes_on h e = let z : (ltb 0 b.last && leb b.len i) ≡ false = ground arith in rw (h, e, z) refl

-- The loop of findUnset from a word on.
find_loop-IsFound :
    (f i : ℕ) (b : Bits)
    → b.len - i < f
    → b.len * 32 ≤ 2 ^ 32
    → Ensures (find_loop f i 0 b) (IsFound i b)
find_loop-IsFound zero i b h w = absurd (omega arith)
find_loop-IsFound (suc f) i b h w = elim (Bool-cases (ltb i b.len)) [
  | inr e ↦ ((none, b), ends f i b e, inr (refl, refl, λ a j p q r. ground arith))
  | inl e ↦
      let l : i < b.len = ltb→lt i b.len e in
      elim (find_in-Spots (b.words i)) [
        | inl (j, s, z, t) ↦
            let k = (i * 32 + j) % 2 ^ 32 in
            let at : (k / 32 ≡ i) × (k % 32 ≡ j) = (omega arith, omega arith) in
            (
              (some k, record b { last = i }),
              hits f i b j e s,
              inl (k, refl, rw (at.0, at.1) z, omega arith, refl, refl, refl),
            )
        | inr (s, all) ↦
            let (r, run, found) = find_loop-IsFound f (i + 1) b (omega arith) w in
            (
              r,
              goes_on f i b e s ∙ run,
              elim found [
                | inl y ↦ inl y
                | inr (n, same, rest) ↦ inr (
                  n,
                  same,
                  λ a j p q t. elim (Bool-cases (i == a)) [
                    | inl y ↦
                        let x : i ≡ a = (==_iff i a).0 y in
                        λ zero_bit.
                          all j (omega arith) (omega arith)
                            (ap (λ (c : ℕ). bit (b.words c) j) x ∙ zero_bit)
                    | inr y ↦ rest a j (ground arith) q t
                  ],
                )
              ],
            )
      ]
]

-- With fuel for each word from m_last on and one more, findUnset returns: with a number whose bit is
-- not set, or with none, where the bits 0 to 30 of every word from m_last on are set.
pub find_unset-IsFound :
    (f : ℕ) (b : Bits)
    → b.len - b.last < f
    → b.len * 32 ≤ 2 ^ 32
    → Ensures (find_unset f b) (IsFound b.last b)
unfolding find_unset
find_unset-IsFound f b h w = find_loop-IsFound f b.last b h w
