-- ===== src/Paging/Wrong.antt =====
-- unmap divides the address twice: the number that it gives to getPage is that of a page already.
use cxx_kernel.Base.{
  ℕ, zero, suc, ◌+◌, ◌/◌, ◌%◌, ◌^◌, ◌<◌, ◌≤◌, ◌≡◌, refl, ap, ◌∙◌, ◌≢◌, inl, inr, true, false,
  Bool-cases, Option, some, none, arith, update_other,
}
use cxx_kernel.Paging.{Paging, get_page, unmap, unmap_page, free_page, free_pages}

get_page-some :
    (a : ℕ) (s : Paging)
    → s.tables (a / 4096 / 1024) ≡ true
    → get_page a false s ≡ (some (a / 4096), s)
unfolding get_page
get_page-some a s e = rw e refl

get_page-none :
    (a : ℕ) (s : Paging) → s.tables (a / 4096 / 1024) ≡ false → get_page a false s ≡ (none, s)
unfolding get_page
get_page-none a s e = rw e refl

-- Only the entry of the page of `ptr / 4096` is written.
unmap-pages :
    (ptr : ℕ) (s : Paging) (n : ℕ) → n ≢ ptr / 4096 / 4096 → (unmap ptr s).1.pages n ≡ s.pages n
unfolding unmap unmap_page
unmap-pages ptr s n h =
    let after = λ (q : Option ℕ × Paging). (unmap_page q.0 q.1).1.pages n in
    elim (Bool-cases (s.tables (ptr / 4096 / 4096 / 1024))) [
      | inl e ↦
          ap after (get_page-some (ptr / 4096) s e) ∙ update_other s.pages (ptr / 4096 / 4096) _ n h
      | inr e ↦ ap after (get_page-none (ptr / 4096) s e)
    ]

-- Paging::free leaves the entry of every page from 1 MB on as it was, so also those of the pages that
-- it is called with.
pub free_pages-pages :
    (cnt ptr : ℕ) (s : Paging) (n : ℕ)
    → ptr < 2 ^ 32
    → 256 ≤ n
    → (free_pages cnt ptr s).pages n ≡ s.pages n
unfolding free_pages free_page
free_pages-pages zero ptr s n l h = refl
free_pages-pages (suc cnt) ptr s n l h =
    free_pages-pages cnt ((ptr + 4096) % 2 ^ 32) (free_page (unmap ptr s).0 (unmap ptr s).1) n
      (omega arith) h
    ∙ unmap-pages ptr s n (λ e. omega arith)
