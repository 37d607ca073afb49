-- ===== src/Pci/Again.antt =====
-- A second search of a device.
use mathlib.Core.Path.{subst}
use cxx_kernel.Base.{
  ℕ, zero, suc, ◌+◌, ◌-◌, ◌<◌, ◌≡◌, refl, sym, ap, ◌∙◌, ◌⊎◌, inl, inr, Bool, true, false, ◌&&◌,
  ◌||◌, not, Bool-cases, Option, some, none, arith, ltb, if◌then◌else◌,
}
use cxx_kernel.Pci.{
  DeviceIterator, Header, Wanted, is_multi, is_device, get_header, find_func, find_dev, find_bus,
  find_next_device,
}
use cxx_kernel.Pci.Search.{IsHit, is_wanted, round_hit}

module _ (config : ℕ → ℕ) (w : Wanted) where
  -- A loop of `n` rounds from `k` on finds nothing, or a hit in one of its rounds.
  abbrev Near : Option Header → (Header → Type 0) → Type 0
  Near r P = (r ≡ none) ⊎ ((h : Header) × (r ≡ some h) × IsHit config w h × P h)

  find_func-Near :
      (n : ℕ) (multi : Bool) (i : DeviceIterator)
      → Near (find_func config w n multi i) (λ h. (h.place.bus ≡ i.bus) × (h.place.dev ≡ i.dev))
  unfolding find_func get_header
  find_func-Near zero multi i = inl refl
  find_func-Near (suc n) multi i =
      let next = multi || is_device config i.bus i.dev i.func && is_multi (get_header config i) in
      let rest = find_func config w n next (record i { func = i.func + 1 }) in
      let round = λ (b c : Bool). elim b as (λ _. Option Header) [
        | true ↦ none
        | false ↦ elim c as (λ _. Option Header) [
          | true ↦ some (get_header config i)
          | false ↦ rest
        ]
      ] in
      let P = λ (h : Header). (h.place.bus ≡ i.bus) × (h.place.dev ≡ i.dev) in
      elim (Bool-cases (ltb 0 i.func && not multi)) [
        | inl b ↦ inl (ap (λ (x : Bool). round x (is_wanted config w i)) b)
        | inr b ↦
            let at = ap (λ (x : Bool). round x (is_wanted config w i)) b in
            elim (Bool-cases (is_wanted config w i)) [
              | inl c ↦ inr (
                get_header config i,
                at ∙ ap (round false) c,
                record { read_there = refl; wanted = c },
                (refl, refl),
              )
              | inr c ↦
                  subst (λ (r : Option Header). Near r P) (sym (at ∙ ap (round false) c))
                    (find_func-Near n next (record i { func = i.func + 1 }))
            ]
      ]

  find_dev-Near :
      (n : ℕ) (i : DeviceIterator)
      → Near
          (find_dev config w n i)
          (λ h. (h.place.bus ≡ i.bus) × (0 < n) × (h.place.dev < i.dev + n))
  unfolding find_dev
  find_dev-Near zero i = inl refl
  find_dev-Near (suc n) i =
      let rest = find_dev config w n (record i { func = 0; dev = i.dev + 1 }) in
      let go =
        λ (r : Option Header). elim r as (λ _. Option Header) [ some h ↦ some h | none ↦ rest ] in
      elim (find_func-Near (8 - i.func) false i) [
        | inr (h, q, g, (x, y)) ↦ inr (h, ap go q, g, (x, omega arith, omega (arith, y)))
        | inl q ↦ elim (find_dev-Near n (record i { func = 0; dev = i.dev + 1 })) [
          | inl p ↦ inl (ap go q ∙ p)
          | inr (h, p, g, (x, y, z)) ↦ inr (h, ap go q ∙ p, g, (x, omega arith, omega (arith, z)))
        ]
      ]

  find_bus-Near :
      (n : ℕ) (i : DeviceIterator)
      → Near (find_bus config w n i) (λ h. (h.place.dev < 32) × (0 < n) × (h.place.bus < i.bus + n))
  unfolding find_bus
  find_bus-Near zero i = inl refl
  find_bus-Near (suc n) i =
      let rest = find_bus config w n (record i { dev = 0; bus = i.bus + 1 }) in
      let go =
        λ (r : Option Header). elim r as (λ _. Option Header) [ some h ↦ some h | none ↦ rest ] in
      elim (find_dev-Near (32 - i.dev) i) [
        | inr (h, q, g, (x, y, z)) ↦
            inr (h, ap go q, g, (omega (arith, y, z), omega arith, omega (arith, x)))
        | inl q ↦ elim (find_bus-Near n (record i { dev = 0; bus = i.bus + 1 })) [
          | inl p ↦ inl (ap go q ∙ p)
          | inr (h, p, g, (x, y, z)) ↦ inr (h, ap go q ∙ p, g, (x, omega arith, omega (arith, z)))
        ]
      ]

  -- Where function 0 of a device is wanted, findNextDevice from there on returns its header.
  again_at :
      (b d : ℕ)
      → b < 256
      → d < 32
      → is_wanted config w (record { bus = b; dev = d; func = 0 }) ≡ true
      → find_next_device config w (record { bus = b; dev = d; func = 0 }) ≡ (
        some (get_header config (record { bus = b; dev = d; func = 0 })),
        record { bus = b; dev = d; func = 0 },
      )
  unfolding find_next_device find_bus find_dev get_header
  again_at b d l m e =
      let i : DeviceIterator = record { bus = b; dev = d; func = 0 } in
      let h = get_header config i in
      let f : find_func config w 8 false i ≡ some h = round_hit config w 7 false i refl e in
      let dev : find_dev config w (suc (31 - d)) i ≡ some h =
        ap
          (λ (r : Option Header). elim r as (λ _. Option Header) [
            | some g ↦ some g
            | none ↦ find_dev config w (31 - d) (record { bus = b; dev = d + 1; func = 0 })
          ])
          f in
      let dev_count : suc (31 - d) ≡ 32 - d = omega arith in
      let bus_count : suc (255 - b) ≡ 256 - b = omega arith in
      let dev32 : find_dev config w (32 - d) i ≡ some h =
        ap (λ (n : ℕ). find_dev config w n i) (sym dev_count) ∙ dev in
      let bus : find_bus config w (suc (255 - b)) i ≡ some h =
        ap
          (λ (r : Option Header). elim r as (λ _. Option Header) [
            | some g ↦ some g
            | none ↦ find_bus config w (255 - b) (record { bus = b + 1; dev = 0; func = 0 })
          ])
          dev32 in
      let bus256 : find_bus config w (256 - b) i ≡ some h =
        ap (λ (n : ℕ). find_bus config w n i) (sym bus_count) ∙ bus in
      ap
        (λ (r : Option Header). elim r as (λ _. Option Header × DeviceIterator) [
          | some g ↦ (some g, g.place)
          | none ↦ (none, if ltb b 256 then record { bus = 256; dev = 0; func = 0 } else i)
        ])
        bus256

  -- The iterator stands where the header was read, which is wanted.
  stands :
      (i j : DeviceIterator) (h : Header)
      → find_next_device config w i ≡ (some h, j)
      → IsHit config w h × (j ≡ h.place) × (j.bus < 256) × (j.dev < 32)
  unfolding find_next_device
  stands i j h e =
      let go = λ (r : Option Header). elim r as (λ _. Option Header × DeviceIterator) [
        | some g ↦ (some g, g.place)
        | none ↦ (none, if ltb i.bus 256 then record { bus = 256; dev = 0; func = 0 } else i)
      ] in
      elim (find_bus-Near (256 - i.bus) i) [
        | inl q ↦
            let z : none ≡ some h =
              sym (ap (λ (r : Option Header). (go r).0) q)
              ∙ ap (λ (r : Option Header × DeviceIterator). r.0) e in
            absurd cc
        | inr (g, q, hit, (x, y, z)) ↦
            let both : (some g, g.place) ≡ (some h, j) = sym (ap go q) ∙ e in
            let first : some g ≡ some h = ap (λ (r : Option Header × DeviceIterator). r.0) both in
            let same : g ≡ h = cc in
            let place : g.place ≡ j = ap (λ (r : Option Header × DeviceIterator). r.1) both in
            let bus = ap (λ (k : DeviceIterator). k.bus) place in
            let dev = ap (λ (k : DeviceIterator). k.dev) place in
            (
              subst (IsHit config w) same hit,
              sym place ∙ ap (λ (k : Header). k.place) same,
              omega (arith, y, z, bus),
              omega (arith, x, dev),
            )
      ]

-- After any call of findNextDevice that returns a header of function 0, the next call with the same
-- iterator returns the same header again and does not move the iterator.
pub find_next_device-again :
    (config : ℕ → ℕ) (w : Wanted) (i j : DeviceIterator) (h : Header)
    → find_next_device config w i ≡ (some h, j)
    → j.func ≡ 0
    → find_next_device config w j ≡ (some h, j)
find_next_device-again config w i j h e z =
    let (hit, place, bus, dev) = stands config w i j h e in
    let Again =
      λ (k : DeviceIterator). find_next_device config w k ≡ (some (get_header config k), k) in
    let zero_func : record { bus = j.bus; dev = j.dev; func = 0 } ≡ j =
      ap (λ (f : ℕ). record { bus = j.bus; dev = j.dev; func = f }) (sym z) in
    let wanted : is_wanted config w j ≡ true =
      subst (λ (k : DeviceIterator). is_wanted config w k ≡ true) (sym place) hit.wanted in
    let there =
      subst (λ (k : DeviceIterator). is_wanted config w k ≡ true) (sym zero_func) wanted in
    let read : get_header config j ≡ h = ap (get_header config) place ∙ sym hit.read_there in
    subst Again zero_func (again_at config w j.bus j.dev bus dev there)
    ∙ ap (λ (g : Header). (some g, j)) read
