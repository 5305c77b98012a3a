-- ===== src/Share/Paging.antt =====
-- src/FileShare.cpp: the loop that fills a page, and the entries that a share shows.
use ii_server_host.Prelude.{
  ltb, if◌then◌else◌, length, take, drop, ℕ, zero, suc, ◌+◌, ◌≤◌, ◌≡◌, refl, ◌&&◌, List, [], ◌∷◌,
  arith,
}
use ii_server_host.Share.{page_size, Entry, Disk, relative, page}

-- The entries that a share shows.
unfoldable pub visible : Disk → List Entry → List Entry
visible disk [] = []
visible disk (e ∷ es) =
    let rest = visible disk es in if relative disk e.name && e.listable then e ∷ rest else rest

-- From the offset on, what is left of a page is filled.
page-full :
    (disk : Disk) (offset index count room : ℕ) (es : List Entry)
    → offset ≤ index
    → count + room ≡ page_size
    → page disk offset index count es
      ≡ (take room (visible disk es), ltb room (length (visible disk es)))
unfolding page visible
page-full disk offset index count zero [] i r = refl
page-full disk offset index count (suc room) [] i r = ground arith
page-full disk offset index count zero (e ∷ es) i r =
    ground (arith, page-full disk offset index count zero es)
page-full disk offset index count (suc room) (e ∷ es) i r = ground (
  arith,
  page-full disk offset index count (suc room) es,
  page-full disk offset (index + 1) (count + 1) room es,
)

-- Before the offset, entries are passed over.
page-early :
    (disk : Disk) (offset index ahead : ℕ) (es : List Entry)
    → index + ahead ≡ offset
    → page disk offset index 0 es ≡ (
      take page_size (drop ahead (visible disk es)),
      ltb page_size (length (drop ahead (visible disk es))),
    )
unfolding page visible
page-early disk offset index zero es i =
    page-full disk offset index 0 page_size es (omega (arith, i)) refl
page-early disk offset index (suc ahead) [] i = refl
page-early disk offset index (suc ahead) (e ∷ es) i = ground (
  arith,
  page-early disk offset index (suc ahead) es,
  page-early disk offset (index + 1) ahead es,
)

-- A page of a directory is the next 256 of the visible entries from its offset on, and says that
-- there are more exactly if there are.
pub page_slice :
    (disk : Disk) (offset : ℕ) (es : List Entry)
    → page disk offset 0 0 es ≡ (
      take page_size (drop offset (visible disk es)),
      ltb page_size (length (drop offset (visible disk es))),
    )
page_slice disk offset es = page-early disk offset 0 offset es (omega arith)
