-- ===== src/Diversity/Examples.antt =====
-- The theorems on src/road/diversity-evaluator.js at concrete routes.
use gps_device_virtual_farm.Prelude.{ℕ, ◌≡◌, refl, [], ◌∷◌, ◌++◌, if◌then◌else◌}
use gps_device_virtual_farm.Prelude.Sets.{has, insert, count_shared, insert_all}
use gps_device_virtual_farm.Diversity.{local, Route, novelty, create_novelty_index, check}
use gps_device_virtual_farm.Diversity.Index.{checks, adds, index_after, added, check-novelty}
use gps_device_virtual_farm.Diversity.Summary.{
  summarize_diversity, is_covered, some_passes, summarize_diversity-append,
}

abbrev north : Route
north = record {
  digest = 1;
  region_id = 1;
  family = local;
  cells = 1 ∷ 2 ∷ 3 ∷ [];
  directed_edges = 12 ∷ 23 ∷ [];
}

-- The same road, in the other direction.
abbrev south : Route
south = record {
  digest = 2;
  region_id = 1;
  family = local;
  cells = 3 ∷ 2 ∷ 1 ∷ [];
  directed_edges = 32 ∷ 21 ∷ [];
}

-- A part of the first route.
abbrev part : Route
part = record {
  digest = 3;
  region_id = 1;
  family = local;
  cells = 1 ∷ 2 ∷ [];
  directed_edges = 12 ∷ [];
}

check-novelty_example :
    (check
      (index_after (create_novelty_index (north ∷ [])) (checks south ∷ adds south ∷ []))
      part).0
    ≡ novelty part ((north ∷ []) ++ added (checks south ∷ adds south ∷ []))
check-novelty_example = check-novelty (north ∷ []) (checks south ∷ adds south ∷ []) part

summarize_diversity-append_example :
    let kept = (summarize_diversity (north ∷ south ∷ [])).routes in
    ((summarize_diversity (north ∷ south ∷ part ∷ [])).routes
      ≡ (if is_covered kept part then kept else kept ++ part ∷ []))
    × ((c : ℕ)
        → has (summarize_diversity (north ∷ south ∷ [])).footprint_cells c ≡ some_passes kept c)
summarize_diversity-append_example = summarize_diversity-append (north ∷ south ∷ []) part

-- The way back is kept, the part and the duplicate are not.
kept : (summarize_diversity (north ∷ south ∷ part ∷ north ∷ [])).routes ≡ north ∷ south ∷ []
unfolding summarize_diversity has insert count_shared insert_all
kept = refl
