-- ===== src/Syscalls/Output.antt =====
-- writev on the screen is write of its buffers, one behind the other.
use cxx_kernel.Base.{
  ℕ, ◌+◌, ◌^◌, ◌<◌, ◌≡◌, refl, sym, ap, ◌∙◌, Bool, true, false, List, [], ◌∷◌, ◌++◌, length,
  length-append, arith, leb, if◌then◌else◌,
}
use cxx_kernel.Video.{Video}
use cxx_kernel.Syscalls.{
  Code, ret, err, einval, Kernel, FileCalls, is_screen, show_bytes, show_buffers, syscall_write,
  syscall_writev,
}

abbrev pub join : List (List ℕ) → List ℕ
join [] = []
join (b ∷ bs) = b ++ join bs

-- The lengths of the buffers are not negative as ssize_t.
abbrev pub IsShort : List (List ℕ) → Type 0
IsShort [] = Unit
IsShort (b ∷ bs) = (length b < 2 ^ 31) × IsShort bs

show_bytes-append :
    (cs bs : List ℕ) (v : Video) → show_bytes (cs ++ bs) v ≡ show_bytes bs (show_bytes cs v)
unfolding show_bytes
show_bytes-append [] bs v = refl
show_bytes-append (a ∷ cs) bs v = show_bytes-append cs bs _

show_buffers-join :
    (bs : List (List ℕ)) (cnt : ℕ) (v : Video)
    → IsShort bs
    → show_buffers bs cnt v ≡ (ret (cnt + length (join bs)), show_bytes (join bs) v)
unfolding show_buffers show_bytes
show_buffers-join [] cnt v h = ap (λ (n : ℕ). (ret n, v)) (omega arith)
show_buffers-join (b ∷ bs) cnt v (l, h) =
    let z : leb (2 ^ 31) (length b) ≡ false = ground (arith, l) in
    let len = length-append b (join bs) in
    let sum : cnt + length b + length (join bs) ≡ cnt + length (b ++ join bs) =
      omega (arith, len) in
    let rest = show_buffers bs (cnt + length b) (show_bytes b v) in
    ap (λ (t : Bool). if◌then◌else◌ {A = Code × Video} t (err einval, v) rest) z
    ∙ show_buffers-join bs (cnt + length b) (show_bytes b v) h
    ∙ ap (λ (n : ℕ). (ret n, show_bytes (join bs) (show_bytes b v))) sum
    ∙ ap (λ (w : Video). (ret (cnt + length (b ++ join bs)), w))
        (sym (show_bytes-append b (join bs) v))

-- On the handles 1 and 2, with buffers whose lengths are below 2 ^ 31, writev returns what write of
-- the joined buffers returns, and leaves the same kernel.
pub syscall_writev-syscall_write :
    {S : Type 0} (calls : FileCalls S) (fd : ℕ) (bs : List (List ℕ)) (k : Kernel S)
    → is_screen fd ≡ true
    → IsShort bs
    → syscall_writev calls fd bs k ≡ syscall_write calls fd (join bs) k
unfolding syscall_writev syscall_write
syscall_writev-syscall_write calls fd bs k e h = rw e (
    ap (λ (r : Code × Video). (r.0, record k { video = r.1 })) (show_buffers-join bs 0 k.video h)
    ∙ ap (λ (n : ℕ). (ret n, record k { video = show_bytes (join bs) k.video })) (omega arith))
