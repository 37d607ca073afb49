-- ===== src/LinkedList/Holds.antt =====
-- What a well-formed List is: the addresses of its nodes, in order, and of its free nodes.
use cxx_kernel.Base.{
  Bool-cases, leb, inl, inr, ℕ, ◌+◌, ◌%◌, ◌^◌, ◌≤◌, ◌<◌, ◌≡◌, refl, ap, ◌≢◌, inl, inr, List, [],
  ◌∷◌, map, arith, length, count, Bool-cases, ◌==◌, true, if◌then◌else◌, leb,
}
use cxx_kernel.LinkedList.{LinkedList, new_list, take_node, get_free, free_node, assign, max_freed}
use cxx_kernel.LinkedList.Chain.{Chain, last_of, Chain-update, map-update}

-- `l` links the nodes `ns`: they are chained from m_first to nullptr, m_size counts them modulo
-- 2^32, no node is listed twice or free as well, the cache has at most 31, and every node is a
-- non-null address that was handed out.
pub record Linked (l : LinkedList) (ns : List ℕ) : Type 0 where
  pub chained : Chain l.next l.first ns
  pub counted : l.size ≡ length ns % 2 ^ 32
  pub once : (a : ℕ) → count a ns + count a l.freed ≤ 1
  pub owned : (a : ℕ) → 0 < count a ns + count a l.freed → (0 < a) × (a < l.brk)
  pub cached : length l.freed < max_freed
  pub started : 0 < l.brk

-- Besides, m_last is the last of the nodes.
pub record Holds (l : LinkedList) (ns : List ℕ) : Type 0 where
  pub linked : Linked l ns
  pub open linked use *
  pub tail : l.last ≡ last_of ns

-- The items, first to last.
abbrev pub items : LinkedList → List ℕ → List ℕ
items l ns = map l.ptr ns

pub new_list-Holds : (brk : ℕ) → 0 < brk → Holds (new_list brk) []
unfolding new_list
new_list-Holds brk h = record {
  linked = record {
    chained = refl;
    counted = refl;
    once = λ a. omega arith;
    owned = λ a k. omega arith;
    cached = omega arith;
    started = h;
  };
  tail = refl;
}

-- What getFree gives: a node outside the list and the cache, with its fields set, and a list that
-- is otherwise as it was.
pub record Fresh (l : LinkedList) (ns : List ℕ) (val : ℕ) (o : ℕ) (t : LinkedList) : Type 0 where
  pub nonnull : o ≢ 0
  pub outside : count o ns ≡ 0
  pub uncached : count o t.freed ≡ 0
  pub below : o < t.brk
  pub cut : t.next o ≡ 0
  pub valued : t.ptr o ≡ val
  pub kept : items t ns ≡ items l ns
  pub holds : Linked t ns
  pub same_first : t.first ≡ l.first
  pub same_last : t.last ≡ l.last
  pub same_size : t.size ≡ l.size

module _ (l : LinkedList) (ns : List ℕ) (val : ℕ) (h : Linked l ns) where
  -- A node taken out of the cache, or beyond every node.
  assign-Fresh :
      (o brk : ℕ) (rest : List ℕ)
      → ((a : ℕ) → count a ns + count a rest + (if o == a then 1 else 0) ≤ 1)
      → ((a : ℕ) → 0 < count a ns + count a rest → (0 < a) × (a < brk))
      → 0 < o
      → o < brk
      → length rest < max_freed
      → Fresh l ns val o (assign o val (record l { freed = rest; brk = brk }))
  assign-Fresh o brk rest once owned pos lt small =
      let here : (o == o) ≡ true = ground arith in
      let out : count o ns + count o rest ≡ 0 = ground (arith, once o) in
      record {
        nonnull = omega arith;
        outside = omega arith;
        uncached = omega arith;
        below = lt;
        cut = rw here;
        valued = rw here;
        kept = map-update l.ptr o val ns (omega arith);
        holds = record {
          chained = Chain-update l.next o 0 l.first ns (omega arith) h.chained;
          counted = h.counted;
          once = λ a. omega (arith, once a);
          owned = owned;
          cached = small;
          started = omega arith;
        };
        same_first = refl;
        same_last = refl;
        same_size = refl;
      }

  take_node-Fresh :
      (fs : List ℕ) → l.freed ≡ fs → Fresh l ns val (take_node fs val l).0 (take_node fs val l).1
  unfolding take_node
  take_node-Fresh [] e =
      assign-Fresh l.brk (l.brk + 1) l.freed (λ a. ground (arith, h.once a, h.owned a))
        (λ a k. ground (arith, h.owned a k)) h.started (omega arith) h.cached
  take_node-Fresh (o ∷ rest) e =
      let c = λ (a : ℕ). let r : count a l.freed ≡ count a (o ∷ rest) = ap (count a) e in r in
      let len : length l.freed ≡ length (o ∷ rest) = ap length e in
      let pos : (0 < o) × (o < l.brk) = h.owned o (ground (arith, c o)) in
      assign-Fresh o l.brk rest (λ a. omega (arith, h.once a, c a))
        (λ a k. h.owned a (omega (arith, c a))) pos.0 pos.1 (omega (arith, h.cached))

  pub get_free-Fresh : Fresh l ns val (get_free val l).0 (get_free val l).1
  unfolding get_free
  get_free-Fresh = take_node-Fresh l.freed refl

-- Giving a node back to the cache, or deleting it where the cache is full.
pub free_node-Linked :
    (l : LinkedList) (ns : List ℕ) (o : ℕ)
    → Linked l ns
    → count o ns + count o l.freed ≡ 0
    → 0 < o
    → o < l.brk
    → Linked (free_node o l) ns
      × ((free_node o l).last ≡ l.last)
      × (items (free_node o l) ns ≡ items l ns)
unfolding free_node
free_node-Linked l ns o h out pos lt = elim (Bool-cases (leb max_freed (length l.freed + 1))) [
  | inl full ↦ rw full (h, refl, refl)
  | inr room ↦ rw room (
    record {
      chained = h.chained;
      counted = h.counted;
      once = λ a. ground (arith, h.once a);
      owned = λ a k. ground (arith, h.owned a);
      cached = ground arith;
      started = h.started;
    },
    refl,
    refl,
  )
]

-- What a client sees: the items, in order.
abbrev pub Represents : LinkedList → List ℕ → Type 0
Represents l xs = (ns : List ℕ) × Holds l ns × (items l ns ≡ xs)

pub new_list-Represents : (brk : ℕ) → 0 < brk → Represents (new_list brk) []
new_list-Represents brk h = ([], new_list-Holds brk h, refl)
