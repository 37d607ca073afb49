-- ===== src/Storage/Devices.antt =====
-- addDevice puts a device at the end, and numDevices counts them.
use mathlib.Core.List.{append_assoc}
use mathlib.Core.Path.{subst}
use cxx_kernel.Base.{
  ℕ, zero, suc, ◌+◌, ◌%◌, ◌^◌, ◌<◌, ◌≤◌, ◌≡◌, refl, sym, ap, ◌∙◌, ◌≢◌, Bool, true, false, List, [],
  ◌∷◌, ◌++◌, length, length-append, count, count-append, arith, Outcome, done, ◌>>=◌, Ensures, ◌==◌,
  ==_iff, ==_false, if◌then◌else◌, update,
}
use cxx_kernel.LinkedList.Chain.{Chain, last_of, split_last, Chain-relink}
use cxx_kernel.Storage.{Storage, last_device, add_device, count_devices, num_devices}

last_device_lem :
    (f : ℕ) (next : ℕ → ℕ) (p a : ℕ) (ns : List ℕ)
    → length ns < f
    → Chain next p (a ∷ ns)
    → last_device f next p ≡ done (last_of (a ∷ ns))
unfolding last_device
last_device_lem zero next p a ns l h = absurd (omega arith)
last_device_lem (suc f) next p a [] l h =
    let e : (next p == 0) ≡ true = rw h.0 ((==_iff _ _).1 h.2) in rw e (ap done h.0)
last_device_lem (suc f) next p a (b ∷ ns) l h =
    let e : (next p == 0) ≡ false = rw h.0 (ground (arith, h.2.0, h.2.1)) in
    rw e (last_device_lem f next (next p) b ns (omega arith) (rw h.0 h.2))

count_devices-length :
    (f : ℕ) (next : ℕ → ℕ) (p a n : ℕ) (ns : List ℕ)
    → length ns < f
    → n + length ns < 2 ^ 32
    → Chain next p (a ∷ ns)
    → count_devices f next p n ≡ done (n + length ns)
unfolding count_devices
count_devices-length zero next p a n ns l b h = absurd (omega arith)
count_devices-length (suc f) next p a n [] l b h =
    let e : (next p == 0) ≡ true = rw h.0 ((==_iff _ _).1 h.2) in rw e (ap done (omega arith))
count_devices-length (suc f) next p a n (c ∷ ns) l b h =
    let e : (next p == 0) ≡ false = rw h.0 (ground (arith, h.2.0, h.2.1)) in
    let m : (n + 1) % 2 ^ 32 ≡ n + 1 = omega arith in
    rw (e, m)
      (count_devices-length f next (next p) c (n + 1) ns (omega arith) (omega arith) (rw h.0 h.2)
        ∙ ap done (omega arith))

num_devices-length :
    (f : ℕ) (s : Storage) (xs : List ℕ)
    → length xs ≤ f
    → length xs < 2 ^ 32
    → Chain s.next s.devices xs
    → num_devices f s ≡ done (length xs)
unfolding num_devices
num_devices-length f s [] l b h = let e : (s.devices == 0) ≡ true = (==_iff _ _).1 h in rw e refl
num_devices-length f s (a ∷ ns) l b h =
    let e : (s.devices == 0) ≡ false = ==_false _ _ (λ z. h.1 (sym h.0 ∙ z)) in
    let count = if s.devices == 0 then done 0 else count_devices f s.next s.devices 1 in
    subst
      (λ (t : Bool).
        (if t then done 0 else count_devices f s.next s.devices 1) ≡ done (suc (length ns)))
      (sym e)
      (count_devices-length f s.next s.devices a 1 ns (omega arith) (omega arith) h
        ∙ ap done (omega arith))

-- The devices `xs` of a Storage, each once, and a further one: addDevice terminates with the further
-- one at the end, and then numDevices counts it too.
pub add_device-append :
    (f dev : ℕ) (s : Storage) (xs : List ℕ)
    → length xs < f
    → length xs + 1 < 2 ^ 32
    → Chain s.next s.devices xs
    → ((a : ℕ) → count a xs ≤ 1)
    → dev ≢ 0
    → s.next dev ≡ 0
    → count dev xs ≡ 0
    → Ensures
        (add_device f dev s)
        (λ t. Chain t.next t.devices (xs ++ dev ∷ []) × (num_devices f t ≡ done (length xs + 1)))
unfolding add_device
add_device-append f dev s [] l b h o n z c =
    let e : (dev == 0) ≡ false = ==_false _ _ n in
    let d : (s.devices == 0) ≡ true = (==_iff _ _).1 h in
    let t = record s { devices = dev } in
    let go = λ (x y : Bool).
      if x
      then done s
      else if y
      then done t
      else last_device f s.next s.devices
        >>= (λ p. done (record s { next = update s.next p dev })) in
    let chain : Chain t.next t.devices (dev ∷ []) = (refl, n, z) in
    (
      t,
      ap (λ (x : Bool). go x (s.devices == 0)) e ∙ ap (go false) d,
      (chain, num_devices-length f t (dev ∷ []) (omega arith) (omega arith) chain),
    )
add_device-append f dev s (a ∷ ns) l b h o n z c =
    let e : (dev == 0) ≡ false = ==_false _ _ n in
    let d : (s.devices == 0) ≡ false = ==_false _ _ (λ q. h.1 (sym h.0 ∙ q)) in
    let k = last_of (a ∷ ns) in
    let t = record s { next = update s.next k dev } in
    let after = λ (p : ℕ). done (record s { next = update s.next p dev }) in
    let go = λ (x y : Bool).
      if x
      then done s
      else if y
      then done (record s { devices = dev })
      else last_device f s.next s.devices >>= after in
    let run =
      ap (λ (x : Bool). go x (s.devices == 0)) e
      ∙ ap (go false) d
      ∙ ap (λ (r : Outcome ℕ). r >>= after)
          (last_device_lem f s.next s.devices a ns (omega arith) h) in
    let (ys, split) = split_last a ns in
    let counts = λ (x : ℕ). ap (count x) split ∙ count-append x ys (k ∷ []) in
    let once : count k ys ≡ 0 = ground (arith, counts k, o k) in
    let apart : count k (dev ∷ []) ≡ 0 = ground (arith, counts dev, c) in
    let old = subst (Chain s.next s.devices) split h in
    let new = Chain-relink s.next s.devices k dev ys [] (dev ∷ []) once apart old (refl, n, z) in
    let whole : ys ++ k ∷ dev ∷ [] ≡ (a ∷ ns) ++ dev ∷ [] =
      sym (ap (λ (l : List ℕ). l ++ dev ∷ []) split ∙ append_assoc ys (k ∷ []) (dev ∷ [])) in
    let chain = subst (Chain t.next t.devices) whole new in
    let len = length-append (a ∷ ns) (dev ∷ []) in
    (
      t,
      run,
      (
        chain,
        num_devices-length f t ((a ∷ ns) ++ dev ∷ []) (omega (arith, len, l))
              (omega (arith, len, b)) chain
            ∙ ap done len,
      ),
    )
