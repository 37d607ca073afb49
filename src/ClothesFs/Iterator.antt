-- ===== src/ClothesFs/Iterator.antt =====
-- ClothesFS::Iterator: a walk through the entries of a directory, and the reading of a file. Its
-- three buffers are lists. A method that reads blocks takes and returns the iterator.
use cxx_kernel.Base.{
  ℕ, zero, suc, ◌+◌, ◌-◌, ◌*◌, ◌%◌, ◌^◌, Bool, true, false, ◌&&◌, ◌||◌, List, [], ◌∷◌, ltb, leb,
  ◌==◌, if◌then◌else◌, take, drop, min, get_or,
}
use cxx_kernel.Text.{Text}
use cxx_kernel.ClothesFs.Bytes.{data_to_num}
use cxx_kernel.ClothesFs.Volume.{
  Volume, Method, returns, out_of_fuel, pure, then_do, ◌>>=◌, attempt, or_do, get_block, link_at,
  payload_id,
}
use cxx_kernel.ClothesFs.Chain.{add_free_block}
use cxx_kernel.ClothesFs.Meta.{base_type, align, meta_file, meta_dir, payload_used}

pub record Iterator : Type 0 where
  pub ok : Bool
  pub block : ℕ
  pub index : ℕ
  pub pos : ℕ
  pub data_block : ℕ
  pub data_index : ℕ
  pub parent : List ℕ
  pub table : List ℕ
  pub content : List ℕ

unfoldable pub new_iterator : ℕ → List ℕ → Iterator
new_iterator block fresh = record {
  ok = false;
  block = block;
  index = 0;
  pos = 0;
  data_block = 0;
  data_index = 0;
  parent = fresh;
  table = fresh;
  content = fresh;
}

-- Where the entries of a table begin, to a reader: behind the name, for a type that has one.
unfoldable pub entries_start : List ℕ → Bool → ℕ
entries_start buf named = if named then align ((16 + data_to_num buf 12 4) % 2 ^ 32) else 4

abbrev pub is_named : ℕ → Bool
is_named kind = kind == meta_file || kind == meta_dir

-- The end of getCurrent: the block entered at `pos`.
unfoldable pub load_entry : ℕ → Iterator → Method (Bool × Iterator)
load_entry pos it v =
    let block = data_to_num it.parent pos 4 in
    let it' = record it { block = block } in
    if block == 0
    then (returns (false, it'), v)
    else attempt (false, it') (get_block block >>= (λ buf. pure (true, record it' { table = buf })))
        v

-- getCurrent; beyond the last entry of a block it goes on at the first place of the next one.
unfoldable pub get_current : Iterator → Method (Bool × Iterator)
get_current it v =
    let kind = data_to_num it.parent 2 1 in
    let pos = (4 * it.index + entries_start it.parent (is_named kind)) % 2 ^ 32 in
    let next = data_to_num it.parent (link_at v) 4 in
    let go_on : List ℕ → Method (Bool × Iterator) =
      λ buf. load_entry 0 (record it { parent = buf; index = 0 }) in
    if kind == 0
    then (returns (false, it), v)
    else if ltb pos (link_at v)
    then load_entry pos it v
    else if next == 0
    then (returns (false, it), v)
    else attempt (false, it) (get_block next >>= go_on) v

unfoldable pub list : ℕ → Method Iterator
list parent v =
    let it = new_iterator parent v.fresh in
    let load : List ℕ → Method Iterator =
      λ buf. get_current (record it { parent = buf }) >>= (λ r. pure (record r.1 { ok = r.0 })) in
    if parent == 0 then (returns it, v) else attempt it (get_block parent >>= load) v

unfoldable pub next : Iterator → Method (Bool × Iterator)
next it =
    get_current (record it { index = (it.index + 1) % 2 ^ 32 })
    >>= (λ r. pure (r.0, record r.1 { ok = r.0; pos = 0; data_block = 0; data_index = 0 }))

unfoldable pub name_len : Iterator → ℕ
name_len it = data_to_num it.table 12 4

unfoldable pub name_loop : ℕ → List ℕ → ℕ → Text
name_loop zero buf i = []
name_loop (suc n) buf i = get_or buf (16 + i) 0 ∷ name_loop n buf (i + 1)

unfoldable pub name : Iterator → Text
name it = name_loop (name_len it) it.table 0

unfoldable pub size : Iterator → ℕ
size it = data_to_num it.table 4 8

unfoldable pub kind : Iterator → ℕ
kind it = base_type (data_to_num it.table 2 1)

-- The payload block of read at `pos` of the table; `none` is the result 0.
unfoldable pub load_payload : ℕ → Iterator → Method (Bool × Iterator)
load_payload pos it v =
    let block = data_to_num it.table pos 4 in
    let it' = record it { data_block = block } in
    let check : List ℕ → Method (Bool × Iterator) = λ buf.
      let it'' = record it' { content = buf } in
      if data_to_num buf 0 2 == payload_id && data_to_num buf 2 1 == payload_used
      then pure (true, record it'' { pos = 4 })
      else pure (false, it'') in
    if block == 0
    then (returns (false, it'), v)
    else attempt (false, it') (get_block block >>= check) v

-- What read does before it copies, where it has no payload or is at its end.
unfoldable pub refill : Iterator → Method (Bool × Iterator)
refill it v =
    let named = data_to_num it.table 2 1 == meta_file in
    let pos = (4 * it.data_index + entries_start it.table named) % 2 ^ 32 in
    let link = data_to_num it.table (link_at v) 4 in
    if ltb pos (link_at v)
    then load_payload pos it v
    else if link == 0
    then (returns (false, it), v)
    else attempt (false, it)
        (get_block link >>= (λ buf. load_payload 4 (record it { table = buf; data_index = 0 }))) v

abbrev pub needs_payload : Volume → Iterator → Bool
needs_payload v it = (it.pos == 0 && it.data_block == 0) || leb v.block_size it.pos

-- while (m_pos < blockSize && cnt > 0) *dest++ = m_content[m_pos++];
unfoldable pub copy_out : Volume → ℕ → Iterator → List ℕ × Iterator
copy_out v cnt it =
    let n = min cnt (v.block_size - it.pos) in
    (take n (drop it.pos it.content), record it { pos = it.pos + n })

unfoldable pub read : ℕ → Iterator → Method (List ℕ × Iterator)
read cnt it v =
    let copy : Bool × Iterator → Method (List ℕ × Iterator) =
      λ r w. if r.0 then (returns (copy_out w cnt r.1), w) else (returns ([], r.1), w) in
    if needs_payload v it then (refill it >>= copy) v else (returns (copy_out v cnt it), v)

-- The loop of remove, at the place `pos` of the table in `the_block`.
unfoldable pub remove_loop : ℕ → ℕ → ℕ → Iterator → Method (ℕ × Iterator)
remove_loop zero the_block pos it v = (out_of_fuel, v)
remove_loop (suc f) the_block pos it v =
    let free_entry : ℕ → Iterator → ℕ → Method (ℕ × Iterator) = λ p t b.
      let block = data_to_num t.table p 4 in
      let t' = record t { data_block = block } in
      if block == 0
      then pure (b, t')
      else attempt tt (add_free_block block) >>= (λ _. remove_loop f b (p + 4) t') in
    let link = data_to_num it.table (link_at v) 4 in
    let stop : Method (ℕ × Iterator) = pure (the_block, it) in
    let follow : Method (ℕ × Iterator) = λ w.
      or_do (get_block link w)
        (λ buf. free_entry 4 (record it { table = buf; data_index = 0 }) link) stop in
    if ltb pos (link_at v)
    then free_entry pos it the_block v
    else then_do (attempt tt (add_free_block the_block) v) (λ _. if link == 0 then stop else follow)

-- remove gives the blocks of the entry back, and the block of its table at the end.
unfoldable pub remove : ℕ → Iterator → Method Iterator
remove fuel it =
    let start = record it { pos = 0; data_block = 0; data_index = 0 } in
    let pos = entries_start it.table (is_named (data_to_num it.table 2 1)) in
    remove_loop fuel it.block pos start
    >>= (λ r. attempt tt (add_free_block r.0) >>= (λ _. pure r.1))
