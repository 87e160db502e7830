-- ===== src/Engine/Listing/Tests.antt =====
-- Runs over a directory of two directories and a file.
use project_apex.Prelude.{
  suc, ◌≡◌, refl, Bool, true, false, none, some, List, [], ◌∷◌, map, arith, length, codes,
}
use project_apex.Prelude.Int.{pos}
use project_apex.Engine.Exclusions.{RawEntry}
use project_apex.Engine.Listing.{
  to_wire, sort, place, entry_order, read_directory, last, page_cursor,
}
use project_apex.Engine.Listing.Sorted.{AreApart}
use project_apex.Engine.Listing.Pages.{collect, collect-sort}
use Prim.Native.String.{String}

abbrev entry : String → Bool → RawEntry
entry n d = record { name = codes n; is_directory = d; size = 0; modified = pos 0 }

abbrev listed : List RawEntry
listed = entry "b" false ∷ entry "z" true ∷ entry "a" true ∷ []

apart : AreApart (map to_wire listed)
unfolding to_wire page_cursor
apart = ((refl, (refl, tt)), ((refl, tt), (tt, tt)))

collect-sort_example :
    collect (suc (length (sort (map to_wire listed)))) (λ n. some 1) listed none
    ≡ some (sort (map to_wire listed))
collect-sort_example = collect-sort (λ n. some 1) listed (λ n. omega arith) apart

-- A limit of 0 gives an empty page without a cursor.
no_room : read_directory listed none (some 0) ≡ ([], none)
unfolding read_directory sort place entry_order to_wire last
no_room = refl
