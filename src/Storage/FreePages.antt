-- ===== src/Storage/FreePages.antt =====
-- The free pages of an entity in core/storage/storage.cpp.
use csql.Base.{ℕ, zero, suc, ◌≡◌, ◌<◌, refl, ap, ◌∙◌, arith, false, ◌==◌, some, List}
use csql.Base.Assoc.{lookup, assign, nat_eq, lookup-assign, beq_refl}
use csql.Base.Result.{ok}
use csql.Types.Size.{u32}
use csql.Page.{PageType, SlottedPage}
use csql.Storage.{
  Store, new_page, read_page, read_node, refreshed, cache_page, pop_free_page,
  add_page_into_free_zone,
}

module _ {ℓ} {V : Type ℓ} where
  lookup-assign_same : (k : ℕ) (v : V) (m : List (ℕ × V)) → lookup k (assign k v m) ≡ some v
  lookup-assign_same k v m = rw (lookup-assign k k v m, beq_refl k) refl

pop_first :
    (i n : ℕ) (st : Store)
    → st.first_free_page ≡ suc i
    → lookup (suc i) st.pages ≡ some (new_page PageType.free_page (suc i) 0)
    → lookup (suc i) st.free_links ≡ some n
    → pop_free_page st
      ≡ ok (new_page PageType.free_page (suc i) 0, record st { first_free_page = n })
unfolding pop_free_page read_node read_page refreshed
pop_first i n st first page link =
    let some_page : (st.first_free_page == 0) ≡ false = ground (arith, first) in
    let read : read_node st (suc i) ≡ ok (new_page PageType.free_page (suc i) 0) = rw page refl in
    let got : read_node st st.first_free_page ≡ ok (new_page PageType.free_page (suc i) 0) =
      ap (read_node st) first ∙ read in
    rw (some_page, got, link, pop_free_page) refl

freed :
    (i : ℕ) (p : SlottedPage) (st : Store)
    → p.page_index ≡ suc i
    → add_page_into_free_zone p st ≡ record st {
      pages = assign (suc i) (new_page PageType.free_page (suc i) 0) st.pages;
      free_links = assign (suc i) (u32 st.first_free_page) st.free_links;
      first_free_page = suc i;
    }
unfolding add_page_into_free_zone cache_page
freed i p st e = let some_page : (suc i == 0) ≡ false = ground arith in rw (e, some_page) refl

-- A page with an index that is put into the free zone is the next one that popFreePage gives; the
-- page that was the first free one is that again, as a number of 32 bits, and no new index is used.
pub pop_free_page-add_page_into_free_zone :
    (p : SlottedPage) (st : Store)
    → 0 < p.page_index
    → (st' : Store) × (pop_free_page (add_page_into_free_zone p st)
        ≡ ok (new_page PageType.free_page p.page_index 0, st'))
      × (st'.first_free_page ≡ u32 st.first_free_page)
      × (st'.n_page ≡ st.n_page)
pop_free_page-add_page_into_free_zone p st h = go p.page_index refl h
  where
    go :
        (i : ℕ)
        → p.page_index ≡ i
        → 0 < i
        → (st' : Store) × (pop_free_page (add_page_into_free_zone p st)
            ≡ ok (new_page PageType.free_page p.page_index 0, st'))
          × (st'.first_free_page ≡ u32 st.first_free_page)
          × (st'.n_page ≡ st.n_page)
    go zero e z = absurd (omega (arith, z))
    go (suc i) e z = (
      record st {
        pages = assign (suc i) (new_page PageType.free_page (suc i) 0) st.pages;
        free_links = assign (suc i) (u32 st.first_free_page) st.free_links;
        first_free_page = u32 st.first_free_page;
      },
      rw (freed i p st e, e)
          (pop_first i (u32 st.first_free_page)
            (record st {
              pages = assign (suc i) (new_page PageType.free_page (suc i) 0) st.pages;
              free_links = assign (suc i) (u32 st.first_free_page) st.free_links;
              first_free_page = suc i;
            })
            refl (lookup-assign_same (suc i) (new_page PageType.free_page (suc i) 0) st.pages)
            (lookup-assign_same (suc i) (u32 st.first_free_page) st.free_links)),
      refl,
      refl,
    )
