-- ===== src/Diversity/Index.antt =====
-- src/road/diversity-evaluator.js: the incremental index gives the verdicts of the one-off check.
use mathlib.Core.List.{append_assoc, append-nil}
use mathlib.Core.Path.{subst}
use gps_device_virtual_farm.Prelude.{
  ℕ, ◌≡◌, refl, sym, ◌||◌, List, [], ◌∷◌, ◌++◌, arith, ◌==◌, if◌then◌else◌,
}
use gps_device_virtual_farm.Prelude.Sets.{
  has, insert_all, has-insert, has-insert_all, count_shared-ext,
}
use gps_device_virtual_farm.Diversity.{
  Route, some_digest, region_cells, region_edges, novelty, RegionIndex, NoveltyIndex, with_region,
  cells_of, edges_of, add_route, add, add_routes, create_novelty_index, check,
}

pub some_digest-append :
    (rs : List Route) (r : Route) (d : ℕ)
    → some_digest (rs ++ r ∷ []) d ≡ some_digest rs d || r.digest == d
unfolding some_digest
some_digest-append [] r d = ground arith
some_digest-append (q ∷ rs) r d = ground (arith, some_digest-append rs r d)

region_cells-append :
    (g : ℕ) (rs : List Route) (r : Route) (found : List ℕ)
    → region_cells g (rs ++ r ∷ []) found ≡ (
        if r.region_id == g
        then insert_all (region_cells g rs found) r.cells
        else region_cells g rs found)
unfolding region_cells
region_cells-append g [] r found = refl
region_cells-append g (q ∷ rs) r found = region_cells-append g rs r _

region_edges-append :
    (g : ℕ) (rs : List Route) (r : Route) (found : List ℕ)
    → region_edges g (rs ++ r ∷ []) found ≡ (
        if r.region_id == g
        then insert_all (region_edges g rs found) r.directed_edges
        else region_edges g rs found)
unfolding region_edges
region_edges-append g [] r found = refl
region_edges-append g (q ∷ rs) r found = region_edges-append g rs r _

-- A new entry is empty, as a missing one reads.
with_region_lem :
    (es : List RegionIndex) (g h : ℕ)
    → (cells_of (with_region es g) h ≡ cells_of es h)
      × (edges_of (with_region es g) h ≡ edges_of es h)
unfolding with_region cells_of edges_of
with_region_lem [] g h = ground arith
with_region_lem (e ∷ es) g h = ground (arith, with_region_lem es g h)

add_route_lem :
    (es : List RegionIndex) (r : Route) (h : ℕ)
    → (cells_of (add_route r (with_region es r.region_id)) h
        ≡ (if r.region_id == h then insert_all (cells_of es h) r.cells else cells_of es h))
      × (edges_of (add_route r (with_region es r.region_id)) h ≡ (
          if r.region_id == h then insert_all (edges_of es h) r.directed_edges else edges_of es h))
unfolding with_region cells_of edges_of add_route
add_route_lem [] r h = ground arith
add_route_lem (e ∷ es) r h = ground (arith, add_route_lem es r h)

-- The index knows the digests, and for each region the cells and edges, of the routes.
pub record Represents (index : NoveltyIndex) (rs : List Route) : Type 0 where
  pub same_digests : (d : ℕ) → has index.digests d ≡ some_digest rs d
  pub same_cells : (g c : ℕ) → has (cells_of index.by_region g) c ≡ has (region_cells g rs []) c
  pub same_edges : (g c : ℕ) → has (edges_of index.by_region g) c ≡ has (region_edges g rs []) c

Represents-add :
    (index : NoveltyIndex) (rs : List Route) (r : Route)
    → Represents index rs
    → Represents (add index r) (rs ++ r ∷ [])
unfolding add
Represents-add index rs r h = record {
  same_digests = λ d.
      ground
        (arith, h.same_digests d, has-insert index.digests r.digest d, some_digest-append rs r d);
  same_cells = λ g c. ground (
    arith,
    h.same_cells g c,
    (add_route_lem index.by_region r g).0,
    region_cells-append g rs r [],
    has-insert_all (cells_of index.by_region g) r.cells c,
    has-insert_all (region_cells g rs []) r.cells c,
  );
  same_edges = λ g c. ground (
    arith,
    h.same_edges g c,
    (add_route_lem index.by_region r g).1,
    region_edges-append g rs r [],
    has-insert_all (edges_of index.by_region g) r.directed_edges c,
    has-insert_all (region_edges g rs []) r.directed_edges c,
  );
}

Represents-check :
    (index : NoveltyIndex) (rs : List Route) (r : Route)
    → Represents index rs
    → Represents (check index r).1 rs
unfolding check
Represents-check index rs r h = record {
  same_digests = λ d. ground (arith, h.same_digests d);
  same_cells =
      λ g c. ground (arith, h.same_cells g c, with_region_lem index.by_region r.region_id g);
  same_edges =
      λ g c. ground (arith, h.same_edges g c, with_region_lem index.by_region r.region_id g);
}

Represents-add_routes :
    (index : NoveltyIndex) (rs qs : List Route)
    → Represents index rs
    → Represents (add_routes index qs) (rs ++ qs)
unfolding add_routes
Represents-add_routes index rs [] h = subst (Represents index) (sym (append-nil rs)) h
Represents-add_routes index rs (q ∷ qs) h =
    subst (Represents (add_routes (add index q) qs)) (append_assoc rs (q ∷ []) qs)
      (Represents-add_routes (add index q) (rs ++ q ∷ []) qs (Represents-add index rs q h))

Represents-create : (rs : List Route) → Represents (create_novelty_index rs) rs
unfolding create_novelty_index
Represents-create rs =
    Represents-add_routes (record { digests = []; by_region = [] }) [] rs
      (record {
        same_digests = λ d. unfold has some_digest in refl;
        same_cells = λ g c. unfold has cells_of region_cells in refl;
        same_edges = λ g c. unfold has edges_of region_edges in refl;
      })

check_lem :
    (index : NoveltyIndex) (rs : List Route) (r : Route)
    → Represents index rs
    → (check index r).0 ≡ novelty r rs
unfolding check novelty
check_lem index rs r h =
    let same = with_region_lem index.by_region r.region_id r.region_id in
    ground (
      arith,
      h.same_digests r.digest,
      same,
      count_shared-ext r.cells (cells_of index.by_region r.region_id)
          (region_cells r.region_id rs []) (h.same_cells r.region_id),
      count_shared-ext r.directed_edges (edges_of index.by_region r.region_id)
          (region_edges r.region_id rs []) (h.same_edges r.region_id),
    )

-- The calls that a preparation makes of the index.
pub data IndexCall : Type 0 where
  checks adds : Route → IndexCall

pub index_after : NoveltyIndex → List IndexCall → NoveltyIndex
index_after index [] = index
index_after index (checks r ∷ calls) = index_after (check index r).1 calls
index_after index (adds r ∷ calls) = index_after (add index r) calls

-- The routes that they add.
pub added : List IndexCall → List Route
added [] = []
added (checks r ∷ calls) = added calls
added (adds r ∷ calls) = r ∷ added calls

Represents-index_after :
    (index : NoveltyIndex) (rs : List Route) (calls : List IndexCall)
    → Represents index rs
    → Represents (index_after index calls) (rs ++ added calls)
unfolding index_after added
Represents-index_after index rs [] h = subst (Represents index) (sym (append-nil rs)) h
Represents-index_after index rs (checks r ∷ calls) h =
    Represents-index_after (check index r).1 rs calls (Represents-check index rs r h)
Represents-index_after index rs (adds r ∷ calls) h =
    subst (Represents (index_after (add index r) calls)) (append_assoc rs (r ∷ []) (added calls))
      (Represents-index_after (add index r) (rs ++ r ∷ []) calls (Represents-add index rs r h))

-- The incremental index agrees with the one-off check: after an index is created from routes, and after
-- any calls of `check` and `add`, its verdict on a route is that of `novelty` against the routes that it
-- was created from and those that were added.
pub check-novelty :
    (existing : List Route) (calls : List IndexCall) (route : Route)
    → (check (index_after (create_novelty_index existing) calls) route).0
      ≡ novelty route (existing ++ added calls)
check-novelty existing calls route =
    check_lem (index_after (create_novelty_index existing) calls) (existing ++ added calls) route (
      Represents-index_after (create_novelty_index existing) existing calls
        (Represents-create existing))
