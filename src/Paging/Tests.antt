-- ===== src/Paging/Tests.antt =====
-- Runs of the kern/page_tables.c theorems.
use dumboss.Base.{
  ◌*◌, ◌/◌, ◌≡◌, refl, inr, arith, ok, ◌>>=◌, ℕ, ◌+◌, ◌==◌, ◌&&◌, if◌then◌else◌, [], ◌∷◌, sym, Bool,
  true,
}
use dumboss.Paging.Map.{Paging, map_page}
use dumboss.Memory.FiveHeap.{five_pages, five_pages-Releases, last_taken}
use dumboss.Paging.Grown.{IsUnmapped, map_page-maps}
use dumboss.Paging.Grow.{Ends, map_page-Ends}
use dumboss.Paging.Apart.{Grows, HasPath}
use dumboss.Paging.Walk.{Walk, IsPage, map_page-translate}
use dumboss.Paging.{
  Tables, set_entry, translate, make_pte, pte_address, pte_kernel, page_table_indices,
  indices_to_address, sign_extend,
}
use dumboss.Memory.Address.{kernel_ptr}
use dumboss.Paging.Canonical.{indices_to_address-page_table_indices}
use dumboss.Paging.Entry.{IsFlags, pte_address-make_pte, ok-injective}

kernel-IsFlags : IsFlags pte_kernel
kernel-IsFlags = record { fits = omega arith; some_flag = omega arith; apart = refl }

pte_address-make_pte_example :
    (make_pte 0xffff_8000_0020_0000 pte_kernel >>= pte_address) ≡ ok 0xffff_8000_0020_0000
pte_address-make_pte_example =
    pte_address-make_pte 0xffff_8000_0020_0000 pte_kernel (omega arith) (omega arith) refl
      kernel-IsFlags

indices_to_address-page_table_indices_example :
    indices_to_address (page_table_indices 0xffff_ffff_ffe0_2123)
    ≡ 0xffff_ffff_ffe0_2123 / 4096 * 4096
indices_to_address-page_table_indices_example =
    indices_to_address-page_table_indices 0xffff_ffff_ffe0_2123 (inr (omega arith, omega arith))

abbrev at : ℕ → ℕ
at page = 0xffff_8000_0000_0000 + page * 4096

-- Tables in pages 1 to 4, which map page 5 to page 9.
abbrev tables : Tables
tables =
    set_entry
      (set_entry (set_entry (set_entry (λ t i. 0) (at 1) 0 0x2203) (at 2) 0 0x3203) (at 3) 0 0x4203)
      (at 4) 5 0x9203

abbrev state : Paging
state = record {
  memory = record {
    free_memory = 0;
    usable_pages = record { words = []; count = 0 };
    free_pages = record { words = []; count = 0 };
    classes = [];
    blocks = λ p. record { next = 0; prev = 0; size_class = 0 };
  };
  tables = tables;
}

at_seven-Walk : Walk tables (at 1) 0x7000 (at 2) (at 3) (at 4)
unfolding pte_address page_table_indices kernel_ptr sign_extend
at_seven-Walk = record {
  third = refl;
  second = refl;
  first = refl;
  third_ne = omega arith;
  second_ne = omega arith;
  first_ne = omega arith;
  small = refl;
}

eight-IsPage : IsPage (at 8)
eight-IsPage = record { low = omega arith; high = omega arith; start = refl }

map_page-translate_example :
    (s' : Paging) × (map_page state (at 1) 0x7000 (at 8) pte_kernel ≡ ok (true, s'))
    × (translate s'.tables (at 1) (0x7000 + 0x123) ≡ ok (at 8 + 0x123))
    × (s'.memory ≡ state.memory)
    × ((t k : ℕ)
        → s'.tables t k ≡ (
            if t == at 4 && k == (page_table_indices 0x7000).p1
            then s'.tables (at 4) (page_table_indices 0x7000).p1
            else tables t k))
unfolding page_table_indices
map_page-translate_example =
    map_page-translate state (at 1) 0x7000 (at 8) pte_kernel (at 2) (at 3) (at 4) (omega arith) refl
      eight-IsPage (omega arith) refl at_seven-Walk 0x123 (omega arith) kernel-IsFlags refl

-- The first table stands on the page that is in use, and the other three are missing.
abbrev bare : Paging
bare = record { memory = five_pages; tables = λ t i. 0 }

bare-Grows : Grows 5 4 bare
bare-Grows = record {
  lists = five_pages-Releases.lists;
  buddies = five_pages-Releases.buddies;
  heap = five_pages-Releases.heap;
  sum = five_pages-Releases.sum;
}

bare-HasPath :
    let i = page_table_indices 0x7000 in
    HasPath five_pages bare.tables (at 4) (i.p4 ∷ i.p3 ∷ i.p2 ∷ [])
unfolding pte_address
bare-HasPath = ((4, refl, last_taken), refl, (0, refl, λ none_there. absurd (none_there refl)))

bare-IsUnmapped :
    let i = page_table_indices 0x7000 in
    IsUnmapped bare.tables (at 4) (i.p4 ∷ i.p3 ∷ i.p2 ∷ []) i.p1
unfolding pte_address
bare-IsUnmapped = λ next e ne. absurd (ne (sym (ok-injective 0 next e)))

map_page-Ends_example : Ends Bool 5 4 3 bare (map_page bare (at 4) 0x7000 (at 8) pte_kernel)
map_page-Ends_example =
    map_page-Ends (at 4) 0x7000 (at 8) pte_kernel bare-Grows bare-HasPath eight-IsPage
      kernel-IsFlags

map_page-maps_example :
    (s' : Paging) × (map_page bare (at 4) 0x7000 (at 8) pte_kernel ≡ ok (true, s'))
    × (translate s'.tables (at 4) (0x7000 + 0x123) ≡ ok (at 8 + 0x123))
map_page-maps_example =
    map_page-maps (at 4) 0x7000 (at 8) pte_kernel bare-Grows (omega arith) bare-HasPath
      bare-IsUnmapped eight-IsPage (omega arith) refl kernel-IsFlags refl 0x123 (omega arith)
