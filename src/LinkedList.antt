-- ===== src/LinkedList.antt =====
-- The kernel's List (inc/list.hh, src/list.cpp): a singly linked list with a cache of at most 31
-- freed nodes. A node is an address, 0 is nullptr, and the fields of the nodes are two maps from
-- addresses. `operator new` hands out the address `brk`, which no node had before; `delete`
-- forgets a node. The counter m_size is a uint32_t and wraps.
pub mod Chain
pub mod Holds
pub mod Link
pub mod Insert
pub mod Unlink
pub mod Remove
pub mod DeleteAt
pub mod Sweep
pub mod AddAt
use cxx_kernel.Base.{
  ℕ, zero, suc, ◌+◌, ◌-◌, ◌%◌, ◌^◌, Bool, true, false, not, ◌||◌, ◌&&◌, List, [], ◌∷◌, Outcome,
  done, fault, no_fuel, ltb, leb, ◌==◌, if◌then◌else◌, update, length,
}

pub record LinkedList : Type 0 where
  pub next : ℕ → ℕ
  pub ptr : ℕ → ℕ
  pub brk : ℕ
  pub first : ℕ
  pub last : ℕ
  pub size : ℕ
  pub freed : List ℕ

abbrev pub max_freed : ℕ
max_freed = 32

abbrev pub increment : ℕ → ℕ
increment n = (n + 1) % 2 ^ 32

abbrev pub decrement : ℕ → ℕ
decrement n = (n + (2 ^ 32 - 1)) % 2 ^ 32

unfoldable pub new_list : ℕ → LinkedList
new_list brk = record {
  next = λ _. 0;
  ptr = λ _. 0;
  brk = brk;
  first = 0;
  last = 0;
  size = 0;
  freed = [];
}

-- A node with its fields set: `assign`, or the constructor.
abbrev pub assign : ℕ → ℕ → LinkedList → LinkedList
assign o val l = record l { ptr = update l.ptr o val; next = update l.next o 0 }

unfoldable pub take_node : List ℕ → ℕ → LinkedList → ℕ × LinkedList
take_node [] val l = (l.brk, assign l.brk val (record l { brk = l.brk + 1 }))
take_node (o ∷ rest) val l = (o, assign o val (record l { freed = rest }))

unfoldable pub get_free : ℕ → LinkedList → ℕ × LinkedList
unfolding take_node
get_free val l = take_node l.freed val l

unfoldable pub free_node : ℕ → LinkedList → LinkedList
free_node o l = if leb max_freed (length l.freed + 1) then l else record l { freed = o ∷ l.freed }

-- addFirst once the node is there.
unfoldable pub push_front : ℕ → LinkedList → LinkedList
push_front o t =
    if t.first == 0
    then record t { last = o; first = o; size = increment t.size }
    else record t { next = update t.next o t.first; first = o; size = increment t.size }

unfoldable pub add_first : ℕ → LinkedList → LinkedList
add_first val l = let (o, t) = get_free val l in push_front o t

-- append once the node is there.
unfoldable pub push_back : ℕ → LinkedList → LinkedList
push_back o t = record t { next = update t.next t.last o; last = o; size = increment t.size }

unfoldable pub append : ℕ → LinkedList → LinkedList
append val l = let (o, t) = get_free val l in if l.last == 0 then add_first val l else push_back o t

unfoldable pub first_item : LinkedList → ℕ
first_item l = if l.first == 0 then 0 else l.ptr l.first

unfoldable pub last_item : LinkedList → ℕ
last_item l = if l.last == 0 then 0 else l.ptr l.last

-- `m_last->next = tmp` is not guarded.
unfoldable pub rotate_first_last : LinkedList → Outcome LinkedList
rotate_first_last l =
    if l.first == 0
    then done l
    else if l.first == l.last
    then done l
    else if l.last == 0
    then fault
    else done (record l {
      first = l.next l.first;
      next = update (update l.next l.last l.first) l.first 0;
      last = l.first;
    })

unfoldable pub take_first : LinkedList → ℕ × LinkedList
take_first l =
    let tmp = l.first in
    if tmp == 0
    then (0, l)
    else if l.next tmp == 0
    then (l.ptr tmp, free_node tmp (record l { first = 0; last = 0; size = decrement l.size }))
    else (l.ptr tmp, free_node tmp (record l { first = l.next tmp; size = decrement l.size }))

-- The removal inside the loop of deleteAll, with `obj` the node and `prev` the one before it. It
-- returns the `obj` that it ends with. With no node before, `prev->next` faults.
unfoldable pub unlink : ℕ → ℕ → LinkedList → Outcome (ℕ × LinkedList)
unlink prev obj l =
    let at_end = l.last == obj in
    let next = update l.next prev (l.next obj) in
    let t = record l {
      next = (if at_end then update next prev 0 else next);
      last = (if at_end then prev else l.last);
      size = decrement l.size;
    } in
    let u = free_node obj t in if prev == 0 then fault else done (u.next prev, u)

-- `prev = obj; if (obj != nullptr) obj = obj->next;`, and back to the test of the loop.
unfoldable pub delete_loop : ℕ → ℕ → ℕ → ℕ → LinkedList → Outcome LinkedList
delete_loop zero val prev obj l = no_fuel
delete_loop (suc f) val prev obj l = elim (obj == 0) [
  | true ↦ done l
  | false ↦ elim (l.ptr obj == val) [
    | false ↦ delete_loop f val obj (l.next obj) l
    | true ↦ elim (unlink prev obj l) [
      | done (o, t) ↦ delete_loop f val o (if o == 0 then 0 else t.next o) t
      | fault ↦ fault
      | no_fuel ↦ no_fuel
    ]
  ]
]

unfoldable pub delete_all : ℕ → ℕ → LinkedList → Outcome LinkedList
delete_all fuel val l = if l.first == 0 then done l else delete_loop fuel val 0 l.first l

-- begin, next and item
unfoldable pub begin : LinkedList → ℕ
begin l = l.first

unfoldable pub next_of : LinkedList → ℕ → ℕ
next_of l iter = if iter == 0 then 0 else l.next iter

unfoldable pub item : LinkedList → ℕ → ℕ
item l iter = if iter == 0 then 0 else l.ptr iter

-- `while (c < i && obj->next != nullptr) { ++c; obj = obj->next; }` with `n = i - c` rounds left.
unfoldable pub walk : (ℕ → ℕ) → ℕ → ℕ → ℕ → ℕ × ℕ
walk next zero obj c = (obj, c)
walk next (suc n) obj c =
    let rest = walk next n (next obj) (c + 1) in if next obj == 0 then (obj, c) else rest

-- The item where the walk stopped, if it made its `i` rounds.
unfoldable pub item_at : ℕ → ℕ × ℕ → LinkedList → ℕ
item_at i r l = if r.1 == i then l.ptr r.0 else 0

unfoldable pub at : ℕ → LinkedList → ℕ
at i l = if l.first == 0 then 0 else item_at i (walk l.next i l.first 0) l

-- The new node `o` linked behind `obj`; `moves_tail` is whether m_last follows at the end.
unfoldable pub link_node : Bool → ℕ → ℕ → LinkedList → LinkedList
link_node moves_tail obj o t =
    if t.next obj == 0
    then record t {
      next = update t.next obj o;
      last = (if moves_tail then o else t.last);
      size = increment t.size;
    }
    else record t { next = update (update t.next o (t.next obj)) obj o; size = increment t.size }

unfoldable pub link_after : Bool → ℕ → ℕ → LinkedList → LinkedList
link_after moves_tail obj val l = let (o, t) = get_free val l in link_node moves_tail obj o t

unfoldable pub append_after : ℕ → ℕ → LinkedList → Bool × LinkedList
append_after i val l =
    if val == 0
    then (false, l)
    else if l.first == 0
    then (true, add_first val l)
    else (true, link_after true (walk l.next i l.first 0).0 val l)

unfoldable pub add_at : ℕ → ℕ → LinkedList → Bool × LinkedList
add_at i val l =
    if val == 0
    then (false, l)
    else if l.first == 0 || i == 0
    then (true, add_first val l)
    else (true, link_after false (walk l.next (i - 1) l.first 0).0 val l)

abbrev pub clear : LinkedList → LinkedList
clear l = record l { first = 0; last = 0; size = 0 }

unfoldable pub delete_first : LinkedList → LinkedList
delete_first l =
    if l.next l.first == 0
    then clear l
    else record l { first = l.next l.first; size = decrement l.size }

-- The node behind `obj` goes; where there is none, the source clears the whole list.
unfoldable pub delete_behind : ℕ → LinkedList → LinkedList
delete_behind obj l =
    let tmp = l.next obj in
    let next = update l.next obj (l.next tmp) in
    let last = if tmp == l.last then next obj else l.last in
    let last' = if next tmp == 0 then obj else last in
    if tmp == 0
    then free_node obj (clear l)
    else free_node tmp (record l { next = next; last = last'; size = decrement l.size })

-- The end of deleteAt, where its loop stopped at the node `r.0` after `r.1` rounds.
unfoldable pub delete_from : ℕ → ℕ × ℕ → LinkedList → Bool × LinkedList
delete_from i r l = if r.1 + 1 == i then (true, delete_behind r.0 l) else (false, l)

unfoldable pub delete_at : ℕ → LinkedList → Bool × LinkedList
delete_at i l =
    if l.first == 0
    then (false, l)
    else if i == 0
    then (true, delete_first l)
    else delete_from i (walk l.next (i - 1) l.first 0) l
