-- ===== src/Pci/Search.antt =====
-- findNextDevice finds a device that is wanted, if there is one.
use mathlib.Core.Path.{subst}
use cxx_kernel.Base.{
  ℕ, zero, suc, ◌+◌, ◌-◌, ◌<◌, ◌≡◌, refl, ap, ◌∙◌, ◌⊎◌, inl, inr, Bool, true, false, ◌&&◌, ◌||◌,
  not, Bool-cases, Option, some, none, zero_or_not, arith, ltb,
}
use cxx_kernel.Pci.{
  DeviceIterator, start_iter, Header, is_multi, Wanted, matches, is_device, get_header, find_func,
  find_dev, find_bus, find_next_device,
}

module _ (config : ℕ → ℕ) (w : Wanted) where
  abbrev pub at : ℕ → ℕ → ℕ → DeviceIterator
  at b d f = record { bus = b; dev = d; func = f }

  abbrev pub is_wanted : DeviceIterator → Bool
  is_wanted i = is_device config i.bus i.dev i.func && matches w (get_header config i)

  abbrev pub has_more : ℕ → ℕ → Bool
  has_more b d = is_device config b d 0 && is_multi (get_header config (at b d 0))

  -- A header that is wanted, of the place where it was read.
  pub record IsHit (h : Header) : Type 0 where
    pub read_there : h ≡ get_header config h.place
    pub wanted : is_wanted h.place ≡ true

  -- A result: a hit, or none, where `Missing` holds.
  abbrev pub Searched : Type 0 → Option Header → Type 0
  Searched Missing r = ((h : Header) × (r ≡ some h) × IsHit h) ⊎ ((r ≡ none) × Missing)

  -- Function 0 of the device is not wanted, and no function of a device of several functions is.
  pub record Lacks (b d : ℕ) : Type 0 where
    pub first : is_wanted (at b d 0) ≡ false
    pub others : (f : ℕ) → f < 8 → has_more b d ≡ true → is_wanted (at b d f) ≡ false

  hit : (i : DeviceIterator) → is_wanted i ≡ true → IsHit (get_header config i)
  unfolding get_header
  hit i e = record { read_there = refl; wanted = e }

  abbrev moved : DeviceIterator → DeviceIterator
  moved i = record i { func = i.func + 1 }

  -- One round of the loop over the functions.
  module _ (n : ℕ) (multi : Bool) (i : DeviceIterator)
      (runs : (ltb 0 i.func && not multi) ≡ false) where
    abbrev next : Option Header
    next =
        find_func config w n
          (multi || is_device config i.bus i.dev i.func && is_multi (get_header config i)) (moved i)

    abbrev round : Bool → Bool → Option Header
    round b c = elim b [
      | true ↦ none
      | false ↦ elim c [ true ↦ some (get_header config i) | false ↦ next ]
    ]

    pub round_hit :
        is_wanted i ≡ true → find_func config w (suc n) multi i ≡ some (get_header config i)
    unfolding find_func
    round_hit e = ap (λ (b : Bool). round b (is_wanted i)) runs ∙ ap (round false) e

    round_on : is_wanted i ≡ false → find_func config w (suc n) multi i ≡ next
    unfolding find_func
    round_on e = ap (λ (b : Bool). round b (is_wanted i)) runs ∙ ap (round false) e

  -- From a function on, where the device is known to have several.
  find_more :
      (n : ℕ) (i : DeviceIterator)
      → Searched
          ((k : ℕ) → k < n → is_wanted (at i.bus i.dev (i.func + k)) ≡ false)
          (find_func config w n true i)
  find_more zero i = inr (unfold find_func in refl, λ k l. absurd (omega arith))
  find_more (suc n) i =
      let z : (ltb 0 i.func && not true) ≡ false = ground arith in
      elim (Bool-cases (is_wanted i)) [
        | inl e ↦ inl (get_header config i, round_hit n true i z e, hit i e)
        | inr e ↦
            let here : is_wanted (at i.bus i.dev (i.func + 0)) ≡ false =
              ap (λ (f : ℕ). is_wanted (at i.bus i.dev f)) (omega arith) ∙ e in
            elim (find_more n (moved i)) [
              | inl (h, q, g) ↦ inl (h, round_on n true i z e ∙ q, g)
              | inr (q, all) ↦ inr (
                round_on n true i z e ∙ q,
                λ k l. elim (zero_or_not k) [
                  | inl y ↦ ap (λ (j : ℕ). is_wanted (at i.bus i.dev (i.func + j))) y ∙ here
                  | inr y ↦
                      ap (λ (f : ℕ). is_wanted (at i.bus i.dev f)) (omega arith)
                      ∙ all (k - 1) (omega arith)
                ],
              )
            ]
      ]

  -- A device from its function 0 on.
  find_func-Lacks : (b d : ℕ) → Searched (Lacks b d) (find_func config w 8 false (at b d 0))
  find_func-Lacks b d =
      let i = at b d 0 in
      let z : (ltb 0 0 && not false) ≡ false = refl in
      elim (Bool-cases (is_wanted i)) [
        | inl e ↦ inl (get_header config i, round_hit 7 false i z e, hit i e)
        | inr e ↦
            let go = λ (m : Bool). find_func config w 7 m (moved i) in
            elim (Bool-cases (has_more b d)) [
              | inr m ↦
                  let stop : go false ≡ none = unfold find_func in refl in
                  inr (
                    round_on 7 false i z e ∙ ap go m ∙ stop,
                    record { first = e; others = λ f l q. absurd cc },
                  )
              | inl m ↦ elim (find_more 7 (moved i)) [
                | inl (h, q, g) ↦ inl (h, round_on 7 false i z e ∙ ap go m ∙ q, g)
                | inr (q, all) ↦ inr (
                  round_on 7 false i z e ∙ ap go m ∙ q,
                  record {
                    first = e;
                    others = λ f l t. elim (zero_or_not f) [
                      | inl y ↦ ap (λ (j : ℕ). is_wanted (at b d j)) y ∙ e
                      | inr y ↦
                          ap (λ (j : ℕ). is_wanted (at b d j)) (omega arith)
                          ∙ all (f - 1) (omega arith)
                    ];
                  },
                )
              ]
            ]
      ]

  find_dev-Lacks :
      (n b d : ℕ) → Searched ((k : ℕ) → k < n → Lacks b (d + k)) (find_dev config w n (at b d 0))
  unfolding find_dev
  find_dev-Lacks zero b d = inr (refl, λ k l. absurd (omega arith))
  find_dev-Lacks (suc n) b d =
      let rest = find_dev config w n (at b (d + 1) 0) in
      let go =
        λ (r : Option Header). elim r as (λ _. Option Header) [ some h ↦ some h | none ↦ rest ] in
      elim (find_func-Lacks b d) [
        | inl (h, q, g) ↦ inl (h, ap go q, g)
        | inr (q, here) ↦ elim (find_dev-Lacks n b (d + 1)) [
          | inl (h, p, g) ↦ inl (h, ap go q ∙ p, g)
          | inr (p, all) ↦ inr (
            ap go q ∙ p,
            λ k l. elim (zero_or_not k) [
              | inl y ↦ subst (Lacks b) (omega (arith, y)) here
              | inr y ↦ subst (Lacks b) (omega (arith, y)) (all (k - 1) (omega arith))
            ],
          )
        ]
      ]

  find_bus-Lacks :
      (n b : ℕ)
      → Searched ((k d : ℕ) → k < n → d < 32 → Lacks (b + k) d) (find_bus config w n (at b 0 0))
  unfolding find_bus
  find_bus-Lacks zero b = inr (refl, λ k d l m. absurd (omega arith))
  find_bus-Lacks (suc n) b =
      let rest = find_bus config w n (at (b + 1) 0 0) in
      let go =
        λ (r : Option Header). elim r as (λ _. Option Header) [ some h ↦ some h | none ↦ rest ] in
      elim (find_dev-Lacks 32 b 0) [
        | inl (h, q, g) ↦ inl (h, ap go q, g)
        | inr (q, here) ↦ elim (find_bus-Lacks n (b + 1)) [
          | inl (h, p, g) ↦ inl (h, ap go q ∙ p, g)
          | inr (p, all) ↦ inr (
            ap go q ∙ p,
            λ k d l m. elim (zero_or_not k) [
              | inl y ↦
                  subst (λ (c : ℕ). Lacks c d) (omega (arith, y))
                    (subst (Lacks b) (omega arith) (here d m))
              | inr y ↦
                  subst (λ (c : ℕ). Lacks c d) (omega (arith, y)) (all (k - 1) d (omega arith) m)
            ],
          )
        ]
      ]

-- From a new iterator on, findNextDevice ends with a header that is wanted, read where the iterator
-- then stands, or with none, where no function 0 of a device is wanted, nor another function of a
-- device whose function 0 says that it has several.
pub find_next_device-Searched :
    (config : ℕ → ℕ) (w : Wanted)
    → ((h : Header) × (find_next_device config w start_iter ≡ (some h, h.place)) × IsHit config w h)
      ⊎ (((find_next_device config w start_iter).0 ≡ none)
          × ((b d : ℕ) → b < 256 → d < 32 → Lacks config w b d))
unfolding find_next_device start_iter
find_next_device-Searched config w =
    let behind : DeviceIterator = record { bus = 256; dev = 0; func = 0 } in
    let go = λ (r : Option Header). elim r as (λ _. Option Header × DeviceIterator) [
      | some h ↦ (some h, h.place)
      | none ↦ (none, behind)
    ] in
    elim (find_bus-Lacks config w 256 0) [
      | inl (h, q, g) ↦ inl (h, ap go q, g)
      | inr (q, all) ↦ inr (
        ap (λ (r : Option Header). (go r).0) q,
        λ b d l m. subst (λ (c : ℕ). Lacks config w c d) (omega arith) (all b d l m),
      )
    ]
