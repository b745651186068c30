-- ===== src/Diversity.antt =====
-- src/road/diversity-evaluator.js: how new a route is against the routes that there are. The cells that
-- a route passes and the directed steps between them come with the route, as sets of numbers that stand
-- for their names; ratios are kept as their parts, and kilometres as counts of cells of 50 m.

pub mod Index
pub mod Summary
mod Examples
use gps_device_virtual_farm.Prelude.{
  ℕ, suc, ◌+◌, ◌-◌, ◌*◌, Bool, true, false, not, ◌&&◌, ◌||◌, Option, none, some, List, [], ◌∷◌,
  ◌++◌, ltb, leb, ◌==◌, if◌then◌else◌, length,
}
use gps_device_virtual_farm.Prelude.Sets.{has, insert, insert_all, count_shared}

-- The families of routes.
pub data Family : Type 0 where
  local urban suburban peripheral regional intercity depot delivery : Family

-- `['local', 'urban', 'depot'].includes(family)`
abbrev pub is_city : Family → Bool
is_city local = true
is_city urban = true
is_city depot = true
is_city _ = false

-- What is read of a route; `cells` and `directed_edges` are what `signatures` returns.
pub record Route : Type 0 where
  pub digest : ℕ
  pub region_id : ℕ
  pub family : Family
  pub cells : List ℕ
  pub directed_edges : List ℕ

pub record Ratio : Type 0 where
  pub part : ℕ
  pub whole : ℕ

pub data Reason : Type 0 where
  exact_duplicate overlapping_corridor : Reason

-- What `novelty` and `check` return. There is no directed ratio for a duplicate.
pub record Novelty : Type 0 where
  pub accepted : Bool
  pub reason : Option Reason
  pub overlap_ratio : Ratio
  pub directed_overlap_ratio : Option Ratio
  pub new_cells : ℕ

-- `existingRoutes.some((existing) => existing.digest === digest)`
unfoldable pub some_digest : List Route → ℕ → Bool
some_digest [] digest = false
some_digest (r ∷ rs) digest = r.digest == digest || some_digest rs digest

-- The loop that collects the cells, or the edges, of the routes of a region.
unfoldable pub region_cells : ℕ → List Route → List ℕ → List ℕ
region_cells region [] found = found
region_cells region (r ∷ rs) found =
    region_cells region rs (if r.region_id == region then insert_all found r.cells else found)

unfoldable pub region_edges : ℕ → List Route → List ℕ → List ℕ
region_edges region [] found = found
region_edges region (r ∷ rs) found =
    region_edges region rs
      (if r.region_id == region then insert_all found r.directed_edges else found)

-- The verdict, from the counts of shared cells and of shared edges. `0.9`, and 0.5 km or 2 km.
unfoldable pub verdict : Route → ℕ → ℕ → Novelty
verdict route shared same_direction =
    let size = length route.cells in
    let overlap =
      if size == 0
      then record { part = 1; whole = 1 }
      else record { part = shared; whole = size } in
    let edges = length route.directed_edges in
    let directed =
      if edges == 0 then overlap else record { part = same_direction; whole = edges } in
    let fresh = size - shared in
    let accepted =
      ltb (10 * directed.part) (9 * directed.whole)
      || leb (if is_city route.family then 10 else 40) fresh in
    record {
      accepted = accepted;
      reason = if accepted then none else some overlapping_corridor;
      overlap_ratio = overlap;
      directed_overlap_ratio = some directed;
      new_cells = fresh;
    }

abbrev pub duplicate : Novelty
duplicate = record {
  accepted = false;
  reason = some exact_duplicate;
  overlap_ratio = record { part = 1; whole = 1 };
  directed_overlap_ratio = none;
  new_cells = 0;
}

-- `novelty(route, existingRoutes)`
unfoldable pub novelty : Route → List Route → Novelty
novelty route existing =
    if some_digest existing route.digest
    then duplicate
    else verdict route (count_shared route.cells (region_cells route.region_id existing []))
        (count_shared route.directed_edges (region_edges route.region_id existing []))

-- An entry of `byRegion`.
pub record RegionIndex : Type 0 where
  pub region : ℕ
  pub known_cells : List ℕ
  pub known_edges : List ℕ

pub record NoveltyIndex : Type 0 where
  pub digests : List ℕ
  pub by_region : List RegionIndex

-- `regionIndex(id)`: the map, with an entry for the region.
unfoldable pub with_region : List RegionIndex → ℕ → List RegionIndex
with_region [] region = record { region = region; known_cells = []; known_edges = [] } ∷ []
with_region (e ∷ es) region = if e.region == region then e ∷ es else e ∷ with_region es region

unfoldable pub cells_of : List RegionIndex → ℕ → List ℕ
cells_of [] region = []
cells_of (e ∷ es) region = if e.region == region then e.known_cells else cells_of es region

unfoldable pub edges_of : List RegionIndex → ℕ → List ℕ
edges_of [] region = []
edges_of (e ∷ es) region = if e.region == region then e.known_edges else edges_of es region

-- The loops of `add` on the entry of the route's region.
unfoldable pub add_route : Route → List RegionIndex → List RegionIndex
add_route r [] = []
add_route r (e ∷ es) =
    if e.region == r.region_id
    then record e {
      known_cells = insert_all e.known_cells r.cells;
      known_edges = insert_all e.known_edges r.directed_edges;
    }
      ∷ es
    else e ∷ add_route r es

-- `add(route)`
unfoldable pub add : NoveltyIndex → Route → NoveltyIndex
add index r = record {
  digests = insert index.digests r.digest;
  by_region = add_route r (with_region index.by_region r.region_id);
}

unfoldable pub add_routes : NoveltyIndex → List Route → NoveltyIndex
add_routes index [] = index
add_routes index (r ∷ rs) = add_routes (add index r) rs

-- `createNoveltyIndex(existingRoutes)`
unfoldable pub create_novelty_index : List Route → NoveltyIndex
create_novelty_index existing = add_routes (record { digests = []; by_region = [] }) existing

-- `check(route)`, and the index that it leaves: it may have a new entry for the region.
unfoldable pub check : NoveltyIndex → Route → Novelty × NoveltyIndex
check index route =
    let entries = with_region index.by_region route.region_id in
    if has index.digests route.digest then (duplicate, index) else (
      verdict route (count_shared route.cells (cells_of entries route.region_id))
          (count_shared route.directed_edges (edges_of entries route.region_id)),
      record index { by_region = entries },
    )
