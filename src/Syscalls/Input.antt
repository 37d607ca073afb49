-- ===== src/Syscalls/Input.antt =====
-- read on the keyboard ends with the count or a line feed, and writes at most one byte too many.
use mathlib.Core.Path.{subst}
use mathlib.Core.List.{append_assoc}
use cxx_kernel.Base.{
  ℕ, zero, suc, ◌+◌, ◌-◌, ◌/◌, ◌%◌, ◌<◌, ◌≤◌, ◌≡◌, refl, sym, ap, ◌∙◌, ◌⊎◌, inl, inr, Bool, true,
  false, Bool-cases, List, [], ◌∷◌, ◌++◌, length, length-append, take, arith, Outcome, done, ◌>>=◌,
  Ensures, ltb, ◌==◌, ==_iff, if◌then◌else◌,
}
use cxx_kernel.Keyboard.{Keyboard, get_key}
use cxx_kernel.Video.{set_origin}
use cxx_kernel.Syscalls.{
  ret, Kernel, FileCalls, read_input, Reading, more_bytes, text_of, type_keys, read_keys,
}

-- What read has done, from `c` bytes of `cnt` on.
pub record IsRead (cnt c : ℕ) (r : Reading) : Type 0 where
  pub bound : length r.bytes ≤ cnt + 1 - c
  pub ends :
      ((r.waits ≡ true) × (r.sleeps ≡ []))
      ⊎ (cnt ≤ c + length r.bytes)
      ⊎ ((bs : List ℕ) × (r.bytes ≡ bs ++ 10 ∷ []))

abbrev text : ℕ → ℕ → List ℕ
text cnt key = take cnt (text_of key)

two_at_most :
    (n : ℕ) (a b : ℕ) (w : Bool)
    → (1 ≤ length (take (suc n) (if w then a ∷ [] else a ∷ b ∷ [])))
      × (length (take (suc n) (if w then a ∷ [] else a ∷ b ∷ [])) ≤ 2)
two_at_most zero a b true = (omega arith, omega arith)
two_at_most zero a b false = (omega arith, omega arith)
two_at_most (suc n) a b true = (omega arith, omega arith)
two_at_most (suc zero) a b false = (omega arith, omega arith)
two_at_most (suc (suc n)) a b false = (omega arith, omega arith)

text-length : (cnt key : ℕ) → 0 < cnt → (1 ≤ length (text cnt key)) × (length (text cnt key) ≤ 2)
unfolding text_of
text-length zero key h = absurd (omega arith)
text-length (suc n) key h = elim (Bool-cases (ltb key 128)) [
  | inl e ↦
      subst
        (λ (b : Bool).
          (1
            ≤ length
                (take (suc n) (if b then key ∷ [] else (192 + key / 64) ∷ (128 + key % 64) ∷ [])))
          × (length
                (take (suc n) (if b then key ∷ [] else (192 + key / 64) ∷ (128 + key % 64) ∷ []))
              ≤ 2))
        (sym e) (two_at_most n key 0 true)
  | inr e ↦
      subst
        (λ (b : Bool).
          (1
            ≤ length
                (take (suc n) (if b then key ∷ [] else (192 + key / 64) ∷ (128 + key % 64) ∷ [])))
          × (length
                (take (suc n) (if b then key ∷ [] else (192 + key / 64) ∷ (128 + key % 64) ∷ []))
              ≤ 2))
        (sym e) (two_at_most n (192 + key / 64) (128 + key % 64) false)
]

newline_text : (n : ℕ) → text (suc n) 10 ≡ 10 ∷ []
unfolding text_of
newline_text zero = refl
newline_text (suc n) = refl

-- One round of the loop.
module _ (f cnt c : ℕ) (k : Keyboard) (sleeps : List (List ℕ)) where
  abbrev key : ℕ
  key = (get_key k).0

  abbrev k' : Keyboard
  k' = (get_key k).1

  abbrev woken : List (List ℕ) → Outcome Reading
  woken [] = done (record { bytes = []; keyboard = k'; sleeps = []; waits = true })
  woken (codes ∷ rest) = read_keys f cnt c (type_keys codes k') rest

  abbrev more : Outcome Reading
  more =
      read_keys f cnt (c + length (text cnt key)) k' sleeps
      >>= (λ r. done (more_bytes (text cnt key) r))

  abbrev round : Bool → Bool → Bool → Outcome Reading
  round go none_there newline = elim go [
    | false ↦ done (record { bytes = []; keyboard = k; sleeps = sleeps; waits = false })
    | true ↦ elim none_there [
      | true ↦ woken sleeps
      | false ↦ elim newline [
        | true ↦
            done (record { bytes = text cnt key; keyboard = k'; sleeps = sleeps; waits = false })
        | false ↦ more
      ]
    ]
  ]

round_lem :
    (f cnt c : ℕ) (k : Keyboard) (sleeps : List (List ℕ))
    → read_keys (suc f) cnt c k sleeps
      ≡ round f cnt c k sleeps (ltb c cnt) ((get_key k).0 == 0) ((get_key k).0 == 10)
unfolding read_keys
round_lem f cnt c k [] = refl
round_lem f cnt c k (s ∷ ss) = refl

-- What a further text adds to a reading.
more_bytes-IsRead :
    (cnt c : ℕ) (bs : List ℕ) (r : Reading)
    → c + length bs ≤ cnt + 1
    → IsRead cnt (c + length bs) r
    → IsRead cnt c (more_bytes bs r)
more_bytes-IsRead cnt c bs r l h =
    let len = length-append bs r.bytes in
    let b = h.bound in
    record {
      bound = omega (arith, len, b, l);
      ends = elim h.ends [
        | inl w ↦ inl w
        | inr (inl w) ↦ inr (inl (omega (arith, len, w)))
        | inr (inr (xs, e)) ↦
            inr (
              inr (bs ++ xs, ap (λ (ys : List ℕ). bs ++ ys) e ∙ sym (append_assoc bs xs (10 ∷ []))))
      ];
    }

then_more :
    (cnt c : ℕ) (bs : List ℕ) (o : Outcome Reading)
    → c + length bs ≤ cnt + 1
    → Ensures o (IsRead cnt (c + length bs))
    → Ensures (o >>= (λ r. done (more_bytes bs r))) (IsRead cnt c)
then_more cnt c bs o l (r, run, h) = (
  more_bytes bs r,
  ap (λ (x : Outcome Reading). x >>= (λ q. done (more_bytes bs q))) run,
  more_bytes-IsRead cnt c bs r l h,
)

newline-IsRead :
    (cnt c : ℕ) (k : Keyboard) (sleeps : List (List ℕ))
    → c < cnt
    → IsRead cnt c (record { bytes = text cnt 10; keyboard = k; sleeps = sleeps; waits = false })
newline-IsRead zero c k sleeps l = absurd (omega arith)
newline-IsRead (suc n) c k sleeps l =
    let e = newline_text n in
    let len : length (text (suc n) 10) ≡ 1 = ap length e in
    record { bound = omega (arith, len, l); ends = inr (inr ([], e)) }

woken-IsRead :
    (f cnt c : ℕ) (k : Keyboard) (sleeps : List (List ℕ))
    → ((k' : Keyboard) (rest : List (List ℕ))
        → length rest < length sleeps
        → Ensures (read_keys f cnt c k' rest) (IsRead cnt c))
    → Ensures (woken f cnt c k sleeps sleeps) (IsRead cnt c)
woken-IsRead f cnt c k [] ih = (
  record { bytes = []; keyboard = (get_key k).1; sleeps = []; waits = true },
  refl,
  record { bound = omega arith; ends = inl (refl, refl) },
)
woken-IsRead f cnt c k (codes ∷ rest) ih = ih (type_keys codes (get_key k).1) rest (omega arith)

read_keys-IsRead :
    (f cnt c : ℕ) (k : Keyboard) (sleeps : List (List ℕ))
    → cnt + 1 - c + length sleeps < f
    → c ≤ cnt + 1
    → Ensures (read_keys f cnt c k sleeps) (IsRead cnt c)
read_keys-IsRead zero cnt c k sleeps l h = absurd (omega arith)
read_keys-IsRead (suc f) cnt c k sleeps l h =
    let (key, k') = get_key k in
    let P = λ (o : Outcome Reading). Ensures o (IsRead cnt c) in
    let all = round f cnt c k sleeps in
    subst P (sym (round_lem f cnt c k sleeps)) (elim (Bool-cases (ltb c cnt)) [
      | inr e ↦
          let past : cnt ≤ c = ground arith in
          subst (λ (b : Bool). P (all b (key == 0) (key == 10))) (sym e)
            (
              record { bytes = []; keyboard = k; sleeps = sleeps; waits = false },
              refl,
              record { bound = omega arith; ends = inr (inl (omega (arith, past))) },
            )
      | inl e ↦
          let near : c < cnt = ground arith in
          let size = text-length cnt key (omega (arith, near)) in
          subst (λ (b : Bool). P (all b (key == 0) (key == 10))) (sym e)
            (elim (Bool-cases (key == 0)) [
              | inl z ↦
                  subst (λ (b : Bool). P (all true b (key == 10))) (sym z)
                    (woken-IsRead f cnt c k sleeps
                      (λ q rest m. read_keys-IsRead f cnt c q rest (omega (arith, l, m)) h))
              | inr z ↦
                  subst (λ (b : Bool). P (all true b (key == 10))) (sym z)
                    (elim (Bool-cases (key == 10)) [
                      | inl n ↦
                          let ten : key ≡ 10 = (==_iff key 10).0 n in
                          subst (λ (b : Bool). P (all true false b)) (sym n)
                            (
                              record {
                                bytes = text cnt key;
                                keyboard = k';
                                sleeps = sleeps;
                                waits = false;
                              },
                              refl,
                              subst
                                  (λ (x : ℕ). IsRead cnt c (record {
                                    bytes = text cnt x;
                                    keyboard = k';
                                    sleeps = sleeps;
                                    waits = false;
                                  }))
                                  (sym ten) (newline-IsRead cnt c k' sleeps near),
                            )
                      | inr n ↦
                          subst (λ (b : Bool). P (all true false b)) (sym n)
                            (then_more cnt c (text cnt key)
                              (read_keys f cnt (c + length (text cnt key)) k' sleeps)
                              (omega (arith, size, near))
                              (read_keys-IsRead f cnt (c + length (text cnt key)) k' sleeps
                                (omega (arith, size, near, l)) (omega (arith, size, near))))
                    ])
            ])
    ])

-- With fuel for each byte, each sleep and two more, read on the handle 0 terminates and returns the
-- number of the bytes that it wrote: at least `cnt`, or those up to a line feed, or it still waits for
-- a key when no more codes come; it writes at most one byte more than `cnt`.
pub read_input-IsRead :
    {S : Type 0} (calls : FileCalls S) (fuel cnt : ℕ) (sleeps : List (List ℕ)) (k : Kernel S)
    → cnt + 1 + length sleeps < fuel
    → Ensures
        (read_input calls fuel cnt sleeps k)
        (λ r. (r.0 ≡ ret (length r.1.bytes)) × IsRead cnt 0 r.1)
unfolding read_input
read_input-IsRead calls fuel cnt sleeps k l =
    let (r, run, h) =
      read_keys-IsRead fuel cnt 0 k.keyboard sleeps (omega (arith, l)) (omega arith) in
    (
      (ret (length r.bytes), r, record k { keyboard = r.keyboard; video = set_origin k.video }),
      ap
          (λ (o : Outcome Reading). o >>= (λ r. done (
            ret (length r.bytes),
            r,
            record k { keyboard = r.keyboard; video = set_origin k.video },
          )))
          run,
      (refl, h),
    )
