-- ===== src/Slots/Sorted.antt =====
-- Sorting the records of a registry: what `sorted` in `as_list` of
-- custom_components/nimly_manager/slots.py keeps.
use nimly_manager.Base.{◌≡◌, refl, ap, ◌∙◌, true, none, some, [], ◌∷◌, arith, if◌then◌else◌}
use nimly_manager.Base.Int.{ℤ, ◌==ℤ◌, ==ℤ_iff, within_ℤ}
use nimly_manager.Dict.{lookup}
use nimly_manager.Slots.{FingerprintSlot, Records, sort, insert_sorted}
use nimly_manager.Slots.Invariant.{IsRecords}

lookup_sorted :
    (k j : ℤ) (s : FingerprintSlot) (d : Records)
    → lookup k d ≡ none
    → lookup j (insert_sorted (k, s) d) ≡ (if k ==ℤ j then some s else lookup j d)
unfolding lookup insert_sorted
lookup_sorted k j s [] h = refl
lookup_sorted k j s ((i, t) ∷ d) h =
    ground (arith, ==ℤ_iff k j, ==ℤ_iff i k, ==ℤ_iff i j, lookup_sorted k j s d)

sorted-IsRecords :
    (k : ℤ) (s : FingerprintSlot) (d : Records)
    → within_ℤ 3 199 k ≡ true
    → s.slot ≡ k
    → lookup k d ≡ none
    → IsRecords d
    → IsRecords (insert_sorted (k, s) d)
unfolding lookup insert_sorted
sorted-IsRecords k s [] h e n v = (h, e, refl, tt)
sorted-IsRecords k s ((j, t) ∷ d) h e n v =
    ground (arith, ==ℤ_iff j k, ==ℤ_iff k j, lookup_sorted k j s d, sorted-IsRecords k s d h e)

pub sort-IsRecords :
    (d : Records) → IsRecords d → IsRecords (sort d) × ((j : ℤ) → lookup j (sort d) ≡ lookup j d)
unfolding sort lookup
sort-IsRecords [] v = (tt, λ j. refl)
sort-IsRecords ((k, s) ∷ d) (h, e, n, v) =
    let (sorted, same) = sort-IsRecords d v in
    let absent = same k ∙ n in
    (
      sorted-IsRecords k s (sort d) h e absent sorted,
      λ j. lookup_sorted k j s (sort d) absent ∙ ap (λ o. if k ==ℤ j then some s else o) (same j),
    )
