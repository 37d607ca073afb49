-- ===== src/Keyboard/Buffer.antt =====
-- The ring of keys is a queue of at most 31 keys; the key that would be the 32nd empties it.
use mathlib.Core.Path.{subst}
use cxx_kernel.Base.{
  ℕ, ◌+◌, ◌-◌, ◌%◌, ◌<◌, ◌≤◌, ◌≡◌, refl, sym, ap, ◌∙◌, inl, inr, Bool, true, false, Bool-cases,
  List, [], ◌∷◌, ◌++◌, length, length-append, arith, ==_iff, ==_false, leb, ◌==◌, if◌then◌else◌,
  update, update_same, update_other,
}
use cxx_kernel.Keyboard.{
  Keyboard, is_release, release_mods, press_mods, put_key, mapped_key, run, get_key, run_all, Event,
  code, read_key,
}
use cxx_kernel.Keyboard.Layouts.{LayoutCode}

-- The keys `xs` stand in the ring from position `i` on.
abbrev pub Stands : (ℕ → ℕ) → ℕ → List ℕ → Type 0
Stands buffer i [] = Unit
Stands buffer i (x ∷ xs) = (buffer i ≡ x) × Stands buffer ((i + 1) % 32) xs

-- The keys that wait, first the one that getKey returns next.
pub record Holds (k : Keyboard) (xs : List ℕ) : Type 0 where
  pub stands : Stands k.keybuffer k.read xs
  pub ends : k.write ≡ (k.read + length xs) % 32
  pub fits : length xs < 32
  pub inside : k.read < 32

-- The keyboard as its modifiers and the keys that wait.
pub record Abstract : Type 0 where
  pub mods : ℕ
  pub keys : List ℕ

-- A key behind the others; the 32nd takes all of them away.
abbrev pub push : ℕ → List ℕ → List ℕ
push x xs = if x == 0 then xs else if leb 31 (length xs) then [] else xs ++ x ∷ []

abbrev pub spec_run : LayoutCode → ℕ → Abstract → Abstract
spec_run layout c a =
    if is_release c then record a { mods = release_mods (c - 128) a.mods } else record {
      mods = press_mods c a.mods;
      keys = push (mapped_key layout (press_mods c a.mods) c) a.keys;
    }

abbrev pub spec_read : List ℕ → ℕ × List ℕ
spec_read [] = (0, [])
spec_read (x ∷ xs) = (x, xs)

unfoldable pub spec_all : LayoutCode → List Event → Abstract → List ℕ × Abstract
spec_all layout [] a = ([], a)
spec_all layout (code c ∷ es) a = spec_all layout es (spec_run layout c a)
spec_all layout (read_key ∷ es) a =
    let (key, keys) = spec_read a.keys in
    let (all, last) = spec_all layout es (record a { keys = keys }) in (key ∷ all, last)

-- A position that the keys do not stand on may be written.
Stands-update :
    (buffer : ℕ → ℕ) (i j v : ℕ) (xs : List ℕ)
    → i < 32
    → j + length xs < 32
    → Stands buffer ((i + j) % 32) xs
    → (n : ℕ) → n ≡ (i + j + length xs) % 32
    → Stands (update buffer n v) ((i + j) % 32) xs
Stands-update buffer i j v [] b l s n e = tt
Stands-update buffer i j v (x ∷ xs) b l (s, t) n e =
    let q : ((i + j) % 32 + 1) % 32 ≡ (i + (j + 1)) % 32 = omega arith in
    let t' = subst (λ (a : ℕ). Stands buffer a xs) q t in
    let u = Stands-update buffer i (j + 1) v xs b (omega arith) t' n (omega arith) in
    (
      update_other buffer n v ((i + j) % 32) (omega arith) ∙ s,
      subst (λ (a : ℕ). Stands (update buffer n v) a xs) (sym q) u,
    )

Stands-append :
    (buffer : ℕ → ℕ) (i j v : ℕ) (xs : List ℕ)
    → i < 32
    → Stands buffer ((i + j) % 32) xs
    → buffer ((i + j + length xs) % 32) ≡ v
    → Stands buffer ((i + j) % 32) (xs ++ v ∷ [])
Stands-append buffer i j v [] b s e = (ap buffer (omega arith) ∙ e, tt)
Stands-append buffer i j v (x ∷ xs) b (s, t) e =
    let q : ((i + j) % 32 + 1) % 32 ≡ (i + (j + 1)) % 32 = omega arith in
    let t' = subst (λ (a : ℕ). Stands buffer a xs) q t in
    (
      s,
      subst (λ (a : ℕ). Stands buffer a (xs ++ v ∷ [])) (sym q)
          (Stands-append buffer i (j + 1) v xs b t' (ap buffer (omega arith) ∙ e)),
    )

abbrev pub viewed : ℕ → List ℕ → Abstract
viewed m xs = record { mods = m; keys = xs }

abbrev pub view : Keyboard → List ℕ → Abstract
view k xs = viewed k.mods xs

-- A step of the keyboard is one of the abstract state.
record Follows (layout : LayoutCode) (a : Abstract) (k : Keyboard) : Type 0 where
  same_mods : k.mods ≡ a.mods
  same_layout : k.layout_code ≡ layout
  holds : Holds k a.keys

put_key-Holds : (x : ℕ) (k : Keyboard) (xs : List ℕ) → Holds k xs → Holds (put_key x k) (push x xs)
unfolding put_key
put_key-Holds x k xs h =
    let at : (k.read + 0) % 32 ≡ k.read = let w = h.inside in omega (arith, w) in
    let next = record k {
      printed = x ∷ k.printed;
      keybuffer = update k.keybuffer k.write x;
      write = (k.write + 1) % 32;
    } in
    let ends = h.ends in
    let fits = h.fits in
    let inside = h.inside in
    let branch = λ (b : Bool).
      Holds (if b then k else next)
        (if b then xs else if leb 31 (length xs) then [] else xs ++ x ∷ []) in
    let rest = λ (b : Bool). Holds next (if b then [] else xs ++ x ∷ []) in
    elim (Bool-cases (x == 0)) [
      | inl e ↦ subst branch (sym e) h
      | inr e ↦ subst branch (sym e) (elim (Bool-cases (leb 31 (length xs))) [
        | inl q ↦ subst rest (sym q) (record {
          stands = tt;
          ends = let w : 31 ≤ length xs = ground arith in omega (arith, ends, fits, inside, w);
          fits = omega arith;
          inside = inside;
        })
        | inr q ↦
            let w : length xs < 31 = ground arith in
            let len = length-append xs (x ∷ []) in
            let here : k.write ≡ (k.read + 0 + length xs) % 32 = omega (arith, ends) in
            let start = subst (λ (a : ℕ). Stands k.keybuffer a xs) (sym at) h.stands in
            let old =
              Stands-update k.keybuffer k.read 0 x xs inside (omega (arith, fits)) start k.write
                here in
            let new =
              Stands-append next.keybuffer k.read 0 x xs inside old
                (ap next.keybuffer (sym here) ∙ update_same k.keybuffer k.write x) in
            subst rest (sym q) (record {
              stands = subst (λ (a : ℕ). Stands next.keybuffer a (xs ++ x ∷ [])) at new;
              ends = omega (arith, ends, len);
              fits = omega (arith, len, w);
              inside = inside;
            })
      ])
    ]

put_key-Follows :
    (x : ℕ) (k : Keyboard) (xs : List ℕ)
    → Holds k xs
    → Follows k.layout_code (view k (push x xs)) (put_key x k)
put_key-Follows x k xs h = record {
  same_mods = unfold put_key in ground arith;
  same_layout = unfold put_key in ground arith;
  holds = put_key-Holds x k xs h;
}

run-Follows :
    (c : ℕ) (k : Keyboard) (xs : List ℕ)
    → Holds k xs
    → Follows k.layout_code (spec_run k.layout_code c (view k xs)) (run c k)
unfolding run
run-Follows c k xs h =
    let released = record k { mods = release_mods (c - 128) k.mods } in
    let pressed = record k { mods = press_mods c k.mods } in
    let x = mapped_key k.layout_code (press_mods c k.mods) c in
    let same : (m : ℕ) → Holds (record k { mods = m }) xs =
      λ m. record { stands = h.stands; ends = h.ends; fits = h.fits; inside = h.inside } in
    let branch = λ (b : Bool).
      Follows k.layout_code (if b then view released xs else view pressed (push x xs))
        (if b then released else put_key x pressed) in
    elim (Bool-cases (is_release c)) [
      | inl e ↦ subst branch (sym e) (record {
        same_mods = refl;
        same_layout = refl;
        holds = same (release_mods (c - 128) k.mods);
      })
      | inr e ↦ subst branch (sym e) (put_key-Follows x pressed xs (same (press_mods c k.mods)))
    ]

-- getKey takes the first key.
get_key-Holds :
    (k : Keyboard) (xs : List ℕ)
    → Holds k xs
    → ((get_key k).0 ≡ (spec_read xs).0) × Holds (get_key k).1 (spec_read xs).1
unfolding get_key
get_key-Holds k [] h =
    let w = h.ends in
    let v = h.inside in
    let e : k.write ≡ k.read = omega (arith, w, v) in
    let t : (k.write == k.read) ≡ true = (==_iff k.write k.read).1 e in
    let branch = λ (b : Bool).
      ((if◌then◌else◌ {A = ℕ × Keyboard} b (0, k)
          (k.keybuffer k.read, record k { read = (k.read + 1) % 32 })).0
        ≡ 0)
      × Holds
          (if◌then◌else◌ {A = ℕ × Keyboard} b (0, k)
            (k.keybuffer k.read, record k { read = (k.read + 1) % 32 })).1
          [] in
    subst branch (sym t) (refl, h)
get_key-Holds k (x ∷ xs) h =
    let w = h.ends in
    let v = h.inside in
    let l = h.fits in
    let t : (k.write == k.read) ≡ false =
      ==_false k.write k.read (λ e. omega (arith, w, v, l, e)) in
    let branch = λ (b : Bool).
      ((if◌then◌else◌ {A = ℕ × Keyboard} b (0, k)
          (k.keybuffer k.read, record k { read = (k.read + 1) % 32 })).0
        ≡ x)
      × Holds
          (if◌then◌else◌ {A = ℕ × Keyboard} b (0, k)
            (k.keybuffer k.read, record k { read = (k.read + 1) % 32 })).1
          xs in
    subst branch (sym t) (
      h.stands.0,
      record {
        stands = h.stands.1;
        ends = omega (arith, w, v, l);
        fits = omega (arith, l);
        inside = omega arith;
      },
    )

get_key_same :
    (k : Keyboard) → ((get_key k).1.mods ≡ k.mods) × ((get_key k).1.layout_code ≡ k.layout_code)
unfolding get_key
get_key_same k = (ground arith, ground arith)

-- What a run returns and leaves, against the abstract state.
pub record Agrees (r : List ℕ × Keyboard) (a : List ℕ × Abstract) : Type 0 where
  pub same_keys : r.0 ≡ a.0
  pub same_mods : r.1.mods ≡ a.1.mods
  pub holds : Holds r.1 a.1.keys

-- Whatever the order of the codes and of the calls of getKey is, the calls return what the abstract
-- queue gives: the keys in the order of their codes under the modifiers of then, 0 where none waits,
-- and none of the 32 where a 32nd key comes before one is read.
pub run_all-Agrees :
    (es : List Event) (k : Keyboard) (xs : List ℕ)
    → Holds k xs
    → Agrees (run_all es k) (spec_all k.layout_code es (view k xs))
unfolding run_all spec_all
run_all-Agrees [] k xs h = record { same_keys = refl; same_mods = refl; holds = h }
run_all-Agrees (code c ∷ es) k xs h =
    let f = run-Follows c k xs h in
    let a = spec_run k.layout_code c (view k xs) in
    let next = run_all-Agrees es (run c k) a.keys f.holds in
    let same_view : view (run c k) a.keys ≡ a = ap (λ (m : ℕ). viewed m a.keys) f.same_mods in
    subst (λ (l : LayoutCode). Agrees (run_all es (run c k)) (spec_all l es a)) f.same_layout
      (subst (λ (b : Abstract). Agrees (run_all es (run c k)) (spec_all (run c k).layout_code es b))
        same_view next)
run_all-Agrees (read_key ∷ es) k xs h =
    let (e, g) = get_key-Holds k xs h in
    let k' = (get_key k).1 in
    let ys = (spec_read xs).1 in
    let next = run_all-Agrees es k' ys g in
    let same = get_key_same k in
    let same_view : view k' ys ≡ view k ys = ap (λ (m : ℕ). viewed m ys) same.0 in
    let there =
      subst (λ (l : LayoutCode). Agrees (run_all es k') (spec_all l es (view k ys))) same.1
        (subst (λ (b : Abstract). Agrees (run_all es k') (spec_all k'.layout_code es b)) same_view
          next) in
    record {
      same_keys =
          ap (λ (x : ℕ). x ∷ (run_all es k').0) e
          ∙ ap (λ (ks : List ℕ). (spec_read xs).0 ∷ ks) there.same_keys;
      same_mods = there.same_mods;
      holds = there.holds;
    }
