-- ===== src/Catalog/Listing/Complete.antt =====
-- adapters/postgres/catalog.go and core/provision/provision.go: what the loop over the pages of the
-- catalog collects.
use mathlib.Core.Path.{subst}
use mathlib.Core.List.{Perm}
use fabriq.Prelude.{
  ℕ, zero, suc, ◌≤◌, ◌<◌, ◌≡◌, refl, sym, ap, ◌∙◌, inl, inr, Bool, true, false, List, [], ◌∷◌, ◌++◌,
  Option, some, GoString, arith, Bool-cases, beq, length, length-take, take, take_of_length-le,
  take-drop, length-drop, drop, leb, ◌⊎◌, filter, last?, Result, ok,
}
use fabriq.Query.Value.{pos}
use fabriq.Catalog.Entry.{Entry, Error}
use fabriq.Catalog.Listing.{last_id, sort, after, select, next_cursor, list, paged, collect}
use fabriq.Catalog.Listing.Sorted.{
  IsOrder, IsKeyed, sort-Perm, IsAbove, IsSorted, sort-IsSorted, sort-filter, sort-IsAbove_first,
  length-sort,
}
use fabriq.Catalog.Listing.Behind.{
  filter-IsAbove, filter-IsSorted, filter-filter, filter-last, last-above, IsAbove-filter,
  above-nonempty,
}

module _ (lt : GoString → GoString → Bool) (o : IsOrder lt) where
  module _ (rows : List Entry) (keyed : IsKeyed rows) (limit : ℕ) where
    abbrev page : GoString → List Entry
    page c = filter (after lt c) (sort lt rows)

    abbrev answer : GoString → Result Error (List Entry × GoString)
    answer c = ok (list lt rows c (pos (suc limit)))

    turn :
        (fuel : ℕ) (c : GoString) (out : List Entry) (next : GoString)
        → select lt c (suc limit) rows ≡ out
        → next_cursor lt (suc limit) out ≡ next
        → collect (suc fuel) answer c ≡ paged (ok (out, next)) (collect fuel answer)
    unfolding collect list
    turn fuel c out next p q =
        ap (λ x. paged (ok (x, next_cursor lt (suc limit) x)) (collect fuel answer)) p
        ∙ ap (λ x. paged (ok (out, x)) (collect fuel answer)) q

    select-page : (c : GoString) → select lt c (suc limit) rows ≡ take (suc limit) (page c)
    unfolding select
    select-page c = ap (take (suc limit)) (sort-filter lt o c rows)

    pages-append :
        (out es : List Entry) (next : GoString)
        (again : GoString → Option (Result Error (List Entry)))
        → beq next [] ≡ false
        → again next ≡ some (ok es)
        → paged (ok (out, next)) again ≡ some (ok (out ++ es))
    pages-append out es next again n e = rw (n, e) refl

    last_page :
        (out : List Entry) (again : GoString → Option (Result Error (List Entry)))
        → paged (ok (out, [])) again ≡ some (ok out)
    unfolding beq
    last_page out again = refl

    -- The last page is not full.
    collect-short :
        (fuel : ℕ) (c : GoString)
        → length (page c) ≤ limit
        → collect (suc fuel) answer c ≡ some (ok (page c))
    collect-short fuel c l =
        turn fuel c (page c) []
          (select-page c ∙ take_of_length-le (suc limit) (page c) (omega arith)) (ground arith)
        ∙ last_page (page c) (collect fuel answer)

    -- A full page is followed by what stands behind its last row.
    collect-full :
        (fuel : ℕ) (c : GoString) (e : Entry) (es : List Entry)
        → page c ≡ e ∷ es
        → IsSorted lt o (e ∷ es)
        → limit ≤ length es
        → ((d : GoString) → page d ≡ drop limit es → collect fuel answer d ≡ some (ok (page d)))
        → collect (suc fuel) answer c ≡ some (ok (e ∷ es))
    collect-full fuel c e es p s l ih =
        turn fuel c out next (select-page c ∙ ap (take (suc limit)) p) full
        ∙ pages-append out (page next) next (collect fuel answer) (above-nonempty lt o c next above)
            (ih next rest)
        ∙ ap (λ x. some (ok (out ++ x))) rest
        ∙ ap (λ x. some (ok x)) (take-drop (suc limit) (e ∷ es))
      where
        out : List Entry
        out = e ∷ take limit es

        next : GoString
        next = last_id (last? (e ∷ take limit es))

        full : next_cursor lt (suc limit) (e ∷ take limit es) ≡ next
        full = ground (arith, length-take limit es)

        above : lt c next ≡ true
        above =
            last-above lt o c e es limit
              (subst (IsAbove lt o c) p (IsAbove-filter lt o c (sort lt rows)))

        rest : page next ≡ drop limit es
        rest =
            sym (filter-filter lt o c next (sort lt rows) above)
            ∙ ap (filter (after lt next)) p
            ∙ filter-last lt o limit e es l s

    collect-page :
        (fuel : ℕ) (c : GoString)
        → length (page c) < fuel
        → collect fuel answer c ≡ some (ok (page c))
    collect-page zero c h = absurd (omega arith)
    collect-page (suc fuel) c h =
        by_length (page c) refl (filter-IsSorted lt o c _ (sort-IsSorted lt o rows keyed))
          (Bool-cases (leb (length (page c)) limit)) (λ d. collect-page fuel d)
      where
        shorter :
            {e : Entry} {es : List Entry}
            → page c ≡ e ∷ es
            → leb (length (page c)) limit ≡ false
            → limit ≤ length es
        shorter p l = ground (arith, ap length p)

        by_length :
            (f : List Entry)
            → page c ≡ f
            → IsSorted lt o f
            → (leb (length (page c)) limit ≡ true) ⊎ (leb (length (page c)) limit ≡ false)
            → ((d : GoString) → length (page d) < fuel → collect fuel answer d ≡ some (ok (page d)))
            → collect (suc fuel) answer c ≡ some (ok (page c))
        by_length f p s (inl l) ih = collect-short fuel c (ground arith)
        by_length [] p s (inr l) ih = absurd (ground (arith, ap length p))
        by_length (e ∷ es) p s (inr l) ih =
            collect-full fuel c e es p s (shorter p l) (λ d q.
              ih d (omega (arith, ap length q, length-drop limit es (shorter p l), ap length p, h)))
            ∙ ap (λ x. some (ok x)) (sym p)

    -- Once the fuel exceeds the number of rows, the loop over the pages of a catalog that answers and
    -- does not change ends, and has collected every row once, in the order of the tenant ids.
    pub collect_complete :
        (fuel : ℕ)
        → length rows < fuel
        → (es : List Entry) × (collect fuel answer [] ≡ some (ok es))
          × Perm es rows
          × IsSorted lt o es
    collect_complete fuel h = (sort lt rows, all, sort-Perm lt rows, sort-IsSorted lt o rows keyed)
      where
        first : page [] ≡ sort lt rows
        first = filter-IsAbove lt o [] (sort lt rows) (sort-IsAbove_first lt o rows keyed)

        all : collect fuel answer [] ≡ some (ok (sort lt rows))
        all =
            collect-page fuel [] (omega (arith, ap length first, length-sort lt rows))
            ∙ ap (λ x. some (ok x)) first
