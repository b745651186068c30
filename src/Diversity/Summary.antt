-- ===== src/Diversity/Summary.antt =====
-- src/road/diversity-evaluator.js: the summary of a catalog, which keeps the routes that are new against
-- those kept before them.
use gps_device_virtual_farm.Prelude.{
  ℕ, ◌+◌, ◌-◌, ◌*◌, ◌≡◌, refl, ap, ◌∙◌, Bool, true, false, not, ◌&&◌, ◌||◌, List, [], ◌∷◌, ◌++◌,
  ltb, leb, ◌==◌, if◌then◌else◌, length, holds_if, arith,
}
use gps_device_virtual_farm.Prelude.Sets.{
  has, insert, insert_all, count_shared, has-insert, has-insert_all,
}
use gps_device_virtual_farm.Diversity.{Route, Ratio, is_city, some_digest}
use gps_device_virtual_farm.Diversity.Index.{some_digest-append}

-- The variables of the loop.
record SummaryState : Type 0 where
  unique : List Route
  all_cells : List ℕ
  all_edges : List ℕ
  digests : List ℕ
  sampled_cells : ℕ

-- What `summarizeDiversity` returns; `uniqueFootprintKm` is a count of cells.
pub record DiversitySummary : Type 0 where
  pub routes : List Route
  pub distinct_route_count : ℕ
  pub unique_footprint : ℕ
  pub overlap_ratio : Ratio
  pub footprint_cells : List ℕ

unfoldable count_new : List ℕ → List ℕ → ℕ
count_new [] set = 0
count_new (x ∷ xs) set = let rest = count_new xs set in if has set x then rest else rest + 1

unfoldable is_empty : List Route → Bool
is_empty [] = true
is_empty (r ∷ rs) = false

-- `directedOverlap >= 0.9`
unfoldable same_corridor : SummaryState → Route → Bool
same_corridor s r =
    let size = length r.directed_edges in
    if size == 0 then true else leb (9 * size) (10 * count_shared r.directed_edges s.all_edges)

-- The two tests that leave a route out.
unfoldable left_out : SummaryState → Route → Bool
left_out s r =
    has s.digests r.digest
    || (not (is_empty s.unique)
        && (same_corridor s r
            && ltb (count_new r.cells s.all_cells) (if is_city r.family then 10 else 40)))

unfoldable keep : SummaryState → Route → SummaryState
keep s r = record {
  unique = s.unique ++ r ∷ [];
  all_cells = insert_all s.all_cells r.cells;
  all_edges = insert_all s.all_edges r.directed_edges;
  digests = insert s.digests r.digest;
  sampled_cells = s.sampled_cells + length r.cells;
}

unfoldable summary_loop : SummaryState → List Route → SummaryState
summary_loop s [] = s
summary_loop s (r ∷ rs) = summary_loop (if left_out s r then s else keep s r) rs

-- `overlapRatio`, as `sampledCells - allCells.size` in `sampledCells`.
unfoldable summary_of : SummaryState → DiversitySummary
summary_of s = record {
  routes = s.unique;
  distinct_route_count = length s.unique;
  unique_footprint = length s.all_cells;
  overlap_ratio =
      if s.sampled_cells == 0
      then record { part = 0; whole = 1 }
      else record { part = s.sampled_cells - length s.all_cells; whole = s.sampled_cells };
  footprint_cells = s.all_cells;
}

abbrev no_routes : SummaryState
no_routes = record { unique = []; all_cells = []; all_edges = []; digests = []; sampled_cells = 0 }

-- `summarizeDiversity(routes)`
unfoldable pub summarize_diversity : List Route → DiversitySummary
unfolding summary_of summary_loop left_out keep is_empty same_corridor count_new
summarize_diversity routes = summary_of (summary_loop no_routes routes)

-- How many numbers pass a test.
unfoldable pub count_where : (ℕ → Bool) → List ℕ → ℕ
count_where p [] = 0
count_where p (x ∷ xs) = let rest = count_where p xs in if p x then rest + 1 else rest

-- Does one of the routes pass the cell, or have the directed edge?
unfoldable pub some_passes : List Route → ℕ → Bool
some_passes [] c = false
some_passes (r ∷ rs) c = some_passes rs c || has r.cells c

unfoldable pub some_drives : List Route → ℕ → Bool
some_drives [] e = false
some_drives (r ∷ rs) e = some_drives rs e || has r.directed_edges e

-- A route adds nothing to those that are kept, told from these routes alone: one of them has its digest,
-- or there are such routes, nine tenths of its directed edges are edges of theirs, and fewer than 10 of
-- its cells in a city, or 40 elsewhere, are none of theirs.
unfoldable pub is_covered : List Route → Route → Bool
unfolding is_empty count_where some_passes some_drives
is_covered kept r =
    some_digest kept r.digest
    || (not (is_empty kept)
        && (leb (9 * length r.directed_edges) (10 * count_where (some_drives kept) r.directed_edges)
            && ltb (count_where (λ c. not (some_passes kept c)) r.cells)
                (if is_city r.family then 10 else 40)))

count_shared-where :
    (xs set : List ℕ) (p : ℕ → Bool)
    → ((x : ℕ) → has set x ≡ p x)
    → count_shared xs set ≡ count_where p xs
unfolding count_shared count_where
count_shared-where [] set p h = refl
count_shared-where (x ∷ xs) set p h = ground (arith, h x, count_shared-where xs set p h)

count_new-where :
    (xs set : List ℕ) (p : ℕ → Bool)
    → ((x : ℕ) → has set x ≡ p x)
    → count_new xs set ≡ count_where (λ x. not (p x)) xs
unfolding count_new count_where
count_new-where [] set p h = refl
count_new-where (x ∷ xs) set p h = ground (arith, h x, count_new-where xs set p h)

some_passes-append :
    (rs : List Route) (r : Route) (c : ℕ)
    → some_passes (rs ++ r ∷ []) c ≡ some_passes rs c || has r.cells c
unfolding some_passes
some_passes-append [] r c = refl
some_passes-append (q ∷ rs) r c = ground (arith, some_passes-append rs r c)

some_drives-append :
    (rs : List Route) (r : Route) (e : ℕ)
    → some_drives (rs ++ r ∷ []) e ≡ some_drives rs e || has r.directed_edges e
unfolding some_drives
some_drives-append [] r e = refl
some_drives-append (q ∷ rs) r e = ground (arith, some_drives-append rs r e)

-- The sets of the loop are those of the routes that it keeps.
record Follows (s : SummaryState) : Type 0 where
  same_digests : (d : ℕ) → has s.digests d ≡ some_digest s.unique d
  same_cells : (c : ℕ) → has s.all_cells c ≡ some_passes s.unique c
  same_edges : (e : ℕ) → has s.all_edges e ≡ some_drives s.unique e

Follows-keep : (s : SummaryState) (r : Route) → Follows s → Follows (keep s r)
unfolding keep
Follows-keep s r h = record {
  same_digests = λ d.
      ground
        (arith, h.same_digests d, has-insert s.digests r.digest d, some_digest-append s.unique r d);
  same_cells = λ c. ground (
    arith,
    h.same_cells c,
    has-insert_all s.all_cells r.cells c,
    some_passes-append s.unique r c,
  );
  same_edges = λ e. ground (
    arith,
    h.same_edges e,
    has-insert_all s.all_edges r.directed_edges e,
    some_drives-append s.unique r e,
  );
}

Follows-summary_loop :
    (s : SummaryState) (rs : List Route) → Follows s → Follows (summary_loop s rs)
unfolding summary_loop
Follows-summary_loop s [] h = h
Follows-summary_loop s (r ∷ rs) h =
    Follows-summary_loop (if left_out s r then s else keep s r) rs
      (holds_if Follows (left_out s r) h (Follows-keep s r h))

left_out-is_covered :
    (s : SummaryState) (r : Route) → Follows s → left_out s r ≡ is_covered s.unique r
unfolding left_out same_corridor is_covered
left_out-is_covered s r h = ground (
  arith,
  h.same_digests r.digest,
  count_shared-where r.directed_edges s.all_edges (some_drives s.unique) h.same_edges,
  count_new-where r.cells s.all_cells (some_passes s.unique) h.same_cells,
)

summary_loop-append :
    (s : SummaryState) (rs : List Route) (r : Route)
    → summary_loop s (rs ++ r ∷ [])
      ≡ (let t = summary_loop s rs in if left_out t r then t else keep t r)
unfolding summary_loop
summary_loop-append s [] r = refl
summary_loop-append s (q ∷ rs) r = summary_loop-append (if left_out s q then s else keep s q) rs r

kept_after :
    (s : SummaryState) (r : Route)
    → (if left_out s r then s else keep s r).unique
      ≡ (if left_out s r then s.unique else s.unique ++ r ∷ [])
unfolding keep
kept_after s r = ground arith

no_routes-Follows : Follows no_routes
unfolding has some_digest some_passes some_drives
no_routes-Follows = record {
  same_digests = λ d. refl;
  same_cells = λ c. refl;
  same_edges = λ e. refl;
}

-- The summary of a catalog leaves a route out exactly if it adds nothing to the routes that were kept
-- before it: one of them has its digest, or there are some, and they have nine tenths of its directed
-- edges and all of its cells but fewer than 10 in a city, or 40 elsewhere. Any other route is kept, in order. A cell is in the
-- footprint exactly if a route that is kept passes it.
pub summarize_diversity-append :
    (routes : List Route) (r : Route)
    → let kept = (summarize_diversity routes).routes in
      ((summarize_diversity (routes ++ r ∷ [])).routes
        ≡ (if is_covered kept r then kept else kept ++ r ∷ []))
      × ((c : ℕ) → has (summarize_diversity routes).footprint_cells c ≡ some_passes kept c)
unfolding summarize_diversity summary_of
summarize_diversity-append routes r =
    let s = summary_loop no_routes routes in
    let h = Follows-summary_loop no_routes routes no_routes-Follows in
    (
      ap (λ t. t.unique) (summary_loop-append no_routes routes r)
          ∙ kept_after s r
          ∙ ap (λ b. if b then s.unique else s.unique ++ r ∷ []) (left_out-is_covered s r h),
      h.same_cells,
    )
