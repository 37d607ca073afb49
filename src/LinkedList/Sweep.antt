-- ===== src/LinkedList/Sweep.antt =====
-- deleteAll against lists of items.
use mathlib.Core.List.{map-append, append_assoc, append-nil}
use mathlib.Core.Path.{ap₂, subst}
use cxx_kernel.Base.{
  ℕ, zero, suc, ◌+◌, ◌<◌, ◌≡◌, refl, sym, ap, ◌∙◌, ◌≢◌, inl, inr, List, [], ◌∷◌, ◌++◌, map, arith,
  length, Bool-cases, ==_iff, ==_false, ◌==◌, if◌then◌else◌, length-map, Outcome, done, fault,
  Ensures, cons-injective,
}
use cxx_kernel.LinkedList.{LinkedList, unlink, delete_loop, delete_all}
use cxx_kernel.LinkedList.Chain.{Chain-behind}
use cxx_kernel.LinkedList.Holds.{Holds, Represents}
use cxx_kernel.LinkedList.Unlink.{unlink-Holds, behind}

-- What the loop makes of the items behind the first: it removes `v`, and then passes over the item
-- that follows without a test.
pub sweep : ℕ → List ℕ → List ℕ
sweep v [] = []
sweep v (x ∷ []) = if x == v then [] else x ∷ []
sweep v (x ∷ y ∷ xs) =
    let tested = x ∷ sweep v (y ∷ xs) in
    let passed = y ∷ sweep v xs in if x == v then passed else tested

sweep_keep : (v x : ℕ) (xs : List ℕ) → x ≢ v → sweep v (x ∷ xs) ≡ x ∷ sweep v xs
unfolding sweep
sweep_keep v x [] h = rw (==_false x v h)
sweep_keep v x (y ∷ xs) h = rw (==_false x v h)

sweep_drop : (v x y : ℕ) (xs : List ℕ) → x ≡ v → sweep v (x ∷ y ∷ xs) ≡ y ∷ sweep v xs
unfolding sweep
sweep_drop v x y xs h = rw ((==_iff x v).1 h)

sweep_drop_last : (v x : ℕ) → x ≡ v → sweep v (x ∷ []) ≡ []
unfolding sweep
sweep_drop_last v x h = rw ((==_iff x v).1 h)

-- The ways through one round.
step_end : (f v prev obj : ℕ) (l : LinkedList) → obj ≡ 0 → delete_loop (suc f) v prev obj l ≡ done l
unfolding delete_loop
step_end f v prev obj l e = rw (e, delete_loop)

step_keep :
    (f v prev obj : ℕ) (l : LinkedList)
    → obj ≢ 0
    → l.ptr obj ≢ v
    → delete_loop (suc f) v prev obj l ≡ delete_loop f v obj (l.next obj) l
unfolding delete_loop
step_keep f v prev obj l e n = rw (delete_loop, ==_false obj 0 e, ==_false (l.ptr obj) v n)

step_drop :
    (f v prev obj o : ℕ) (l t : LinkedList)
    → obj ≢ 0
    → l.ptr obj ≡ v
    → unlink prev obj l ≡ done (o, t)
    → delete_loop (suc f) v prev obj l ≡ delete_loop f v o (if o == 0 then 0 else t.next o) t
unfolding delete_loop
step_drop f v prev obj o l t e n u =
    rw (delete_loop, ==_false obj 0 e, (==_iff (l.ptr obj) v).1 n, u)

regroup :
    (p : ℕ → ℕ) (xs s : List ℕ) (prev z : ℕ)
    → map p ((xs ++ prev ∷ []) ++ z ∷ []) ++ s ≡ map p (xs ++ prev ∷ []) ++ p z ∷ s
regroup p xs s prev z = simp (map-append, append_assoc)

-- The loop stands before the nodes `ys`, with `prev` the node before them.
abbrev Swept : ℕ → (ℕ → ℕ) → List ℕ → ℕ → List ℕ → Outcome LinkedList → Type 0
Swept v p xs prev ys r = Ensures r λ t. Represents t (map p (xs ++ prev ∷ []) ++ sweep v (map p ys))

advance :
    (v : ℕ) (l : LinkedList) (xs ys ws : List ℕ) (prev z : ℕ) (r s : Outcome LinkedList)
    → r ≡ s
    → sweep v (map l.ptr ws) ≡ l.ptr z ∷ sweep v (map l.ptr ys)
    → Swept v l.ptr (xs ++ prev ∷ []) z ys s
    → Swept v l.ptr xs prev ws r
advance v l xs ys ws prev z r s e k (t, run, h) = (
  t,
  e ∙ run,
  subst (Represents t)
      (regroup l.ptr xs (sweep v (map l.ptr ys)) prev z
        ∙ ap (λ (m : List ℕ). map l.ptr (xs ++ prev ∷ []) ++ m) (sym k))
      h,
)

hit_last :
    (f v : ℕ) (l : LinkedList) (xs : List ℕ) (prev y obj : ℕ)
    → Holds l (xs ++ prev ∷ y ∷ [])
    → obj ≡ y
    → l.ptr y ≡ v
    → Swept v l.ptr xs prev (y ∷ []) (delete_loop (suc (suc f)) v prev obj l)
hit_last f v l xs prev y obj h oy n =
    let b = behind l xs [] prev y h in
    let (r, run, (eo, ht, ep)) = unlink-Holds l xs [] prev y h in
    let z : r.0 ≡ 0 = eo ∙ (Chain-behind r.1.next r.1.first prev xs [] ht.chained).1 in
    let w : (if r.0 == 0 then 0 else r.1.next r.0) ≡ 0 = ground (arith, z) in
    (
      r.1,
      step_drop (suc f) v prev obj r.0 l r.1 (λ q. b.2 (sym oy ∙ q)) (ap l.ptr oy ∙ n)
            (ap (λ (x : ℕ). unlink prev x l) oy ∙ run)
          ∙ step_end f v r.0 _ r.1 w,
      (
        xs ++ prev ∷ [],
        ht,
        ap (λ (p : ℕ → ℕ). map p (xs ++ prev ∷ [])) ep
            ∙ sym (append-nil (map l.ptr (xs ++ prev ∷ [])))
            ∙ ap (λ (m : List ℕ). map l.ptr (xs ++ prev ∷ []) ++ m)
                (sym (sweep_drop_last v (l.ptr y) n)),
      ),
    )

hit_next :
    (f v : ℕ) (l : LinkedList) (xs ys : List ℕ) (prev y z obj : ℕ)
    → Holds l (xs ++ prev ∷ y ∷ z ∷ ys)
    → obj ≡ y
    → l.ptr y ≡ v
    → ((t : LinkedList)
        → Holds t ((xs ++ prev ∷ []) ++ z ∷ ys)
        → Swept v t.ptr (xs ++ prev ∷ []) z ys (delete_loop f v z (t.next z) t))
    → Swept v l.ptr xs prev (y ∷ z ∷ ys) (delete_loop (suc f) v prev obj l)
hit_next f v l xs ys prev y z obj h oy n later =
    let b = behind l xs (z ∷ ys) prev y h in
    let (r, run, (eo, ht, ep)) = unlink-Holds l xs (z ∷ ys) prev y h in
    let c = (Chain-behind r.1.next r.1.first prev xs (z ∷ ys) ht.chained).1 in
    let w : (if r.0 == 0 then 0 else r.1.next r.0) ≡ r.1.next r.0 = ground (arith, eo, c.0, c.1) in
    let h' = subst (Holds r.1) (sym (append_assoc xs (prev ∷ []) (z ∷ ys))) ht in
    let k =
      subst (λ (p : ℕ → ℕ). Swept v p (xs ++ prev ∷ []) z ys (delete_loop f v z (r.1.next z) r.1))
        ep (later r.1 h') in
    advance v l xs ys (y ∷ z ∷ ys) prev z _ _
      (step_drop f v prev obj r.0 l r.1 (λ q. b.2 (sym oy ∙ q)) (ap l.ptr oy ∙ n)
          (ap (λ (x : ℕ). unlink prev x l) oy ∙ run)
        ∙ ap (λ (x : ℕ). delete_loop f v r.0 x r.1) w
        ∙ ap (λ (x : ℕ). delete_loop f v x (r.1.next x) r.1) (eo ∙ c.0))
      (sweep_drop v (l.ptr y) (l.ptr z) (map l.ptr ys) n) k

hit :
    (f v : ℕ) (l : LinkedList) (xs ys : List ℕ) (prev y obj : ℕ)
    → length (y ∷ ys) < suc f
    → Holds l (xs ++ prev ∷ y ∷ ys)
    → obj ≡ y
    → l.ptr y ≡ v
    → ((z : ℕ) (zs : List ℕ) (t : LinkedList)
        → ys ≡ z ∷ zs
        → Holds t ((xs ++ prev ∷ []) ++ z ∷ zs)
        → Swept v t.ptr (xs ++ prev ∷ []) z zs (delete_loop f v z (t.next z) t))
    → Swept v l.ptr xs prev (y ∷ ys) (delete_loop (suc f) v prev obj l)
hit zero v l xs ys prev y obj lt h oy n later = absurd (omega arith)
hit (suc f) v l xs [] prev y obj lt h oy n later = hit_last f v l xs prev y obj h oy n
hit (suc f) v l xs (z ∷ zs) prev y obj lt h oy n later =
    hit_next (suc f) v l xs zs prev y z obj h oy n (λ t. later z zs t refl)

miss :
    (f v : ℕ) (l : LinkedList) (xs ys : List ℕ) (prev y obj : ℕ)
    → Holds l (xs ++ prev ∷ y ∷ ys)
    → obj ≡ y
    → l.ptr y ≢ v
    → Swept v l.ptr (xs ++ prev ∷ []) y ys (delete_loop f v y (l.next y) l)
    → Swept v l.ptr xs prev (y ∷ ys) (delete_loop (suc f) v prev obj l)
miss f v l xs ys prev y obj h oy n later =
    let b = behind l xs ys prev y h in
    advance v l xs ys (y ∷ ys) prev y _ _
      (step_keep f v prev obj l (λ q. b.2 (sym oy ∙ q)) (λ q. n (ap l.ptr (sym oy) ∙ q))
        ∙ ap (λ (x : ℕ). delete_loop f v x (l.next x) l) oy)
      (sweep_keep v (l.ptr y) (map l.ptr ys) n) later

-- One round for each node is enough, and one for the test at the end.
delete_loop-Swept :
    (fuel v : ℕ) (l : LinkedList) (xs ys : List ℕ) (prev obj : ℕ)
    → length ys < fuel
    → Holds l (xs ++ prev ∷ ys)
    → obj ≡ l.next prev
    → Swept v l.ptr xs prev ys (delete_loop fuel v prev obj l)
delete_loop-Swept zero v l xs ys prev obj lt h o = absurd (omega arith)
delete_loop-Swept (suc f) v l xs [] prev obj lt h o =
    let c = Chain-behind l.next l.first prev xs [] h.chained in
    (
      l,
      step_end f v prev obj l (o ∙ c.1),
      (xs ++ prev ∷ [], h, unfold sweep in sym (append-nil (map l.ptr (xs ++ prev ∷ [])))),
    )
delete_loop-Swept (suc f) v l xs (y ∷ ys) prev obj lt h o =
    let oy : obj ≡ y = o ∙ (behind l xs ys prev y h).1 in
    let h' = subst (Holds l) (sym (append_assoc xs (prev ∷ []) (y ∷ ys))) h in
    elim (Bool-cases (l.ptr y == v)) [
      | inl t ↦ hit f v l xs ys prev y obj lt h oy ((==_iff (l.ptr y) v).0 t) (λ z zs t e k.
          delete_loop-Swept f v t (xs ++ prev ∷ []) zs z (t.next z) (omega (arith, ap length e)) k
            refl)
      | inr t ↦
          miss f v l xs ys prev y obj h oy (ground (arith, t))
            (delete_loop-Swept f v l (xs ++ prev ∷ []) ys y (l.next y) (omega arith) h' refl)
    ]

-- On a well-formed list, and with fuel for each item and one more round, deleteAll of a value that is
-- not the first item returns, keeps the first item, and sweeps the rest.
pub delete_all-Represents :
    (fuel v x : ℕ) (l : LinkedList) (xs : List ℕ)
    → length xs + 1 < fuel
    → x ≢ v
    → Represents l (x ∷ xs)
    → Ensures (delete_all fuel v l) (λ t. Represents t (x ∷ sweep v xs))
unfolding delete_all
delete_all-Represents fuel v x l xs lt n ([], h, e) = cc
delete_all-Represents zero v x l xs lt n (a ∷ ms, h, e) = absurd (omega arith)
delete_all-Represents (suc f) v x l xs lt n (a ∷ ms, h, e) =
    let i = cons-injective e in
    let c = h.chained in
    let len : length ms ≡ length xs = sym (length-map l.ptr ms) ∙ ap length i.1 in
    let ne : l.first ≢ 0 = λ q. c.1 (sym c.0 ∙ q) in
    let (t, run, r) = delete_loop-Swept f v l [] ms a (l.next a) (omega arith) h refl in
    (
      t,
      rw (==_false l.first 0 ne) (
          step_keep f v 0 l.first l ne (λ q. n (sym i.0 ∙ ap l.ptr (sym c.0) ∙ q))
          ∙ ap (λ (b : ℕ). delete_loop f v b (l.next b) l) c.0
          ∙ run),
      subst (Represents t) (ap₂ (λ (b : ℕ) (m : List ℕ). b ∷ sweep v m) i.0 i.1) r,
    )

-- deleteAll of the first item of a well-formed list goes through the null pointer `prev`, with any
-- fuel at all.
pub delete_all_first :
    (fuel v : ℕ) (l : LinkedList) (xs : List ℕ)
    → 0 < fuel
    → Represents l (v ∷ xs)
    → delete_all fuel v l ≡ fault
unfolding delete_all delete_loop unlink
delete_all_first fuel v l xs lt ([], h, e) = cc
delete_all_first zero v l xs lt (a ∷ ms, h, e) = absurd (omega arith)
delete_all_first (suc f) v l xs lt (a ∷ ms, h, e) =
    let c = h.chained in
    let ne : l.first ≢ 0 = λ q. c.1 (sym c.0 ∙ q) in
    let hit : l.ptr l.first ≡ v = ap l.ptr c.0 ∙ (cons-injective e).0 in
    rw (==_false l.first 0 ne, delete_loop, (==_iff (l.ptr l.first) v).1 hit)
