-- ===== src/BaseCluster/Again.antt =====
-- A manifest that is prepared again.
use Prim.Native.Char.{Char}
use Prim.Native.String.{String, [], ◌∷◌}
use mathlib.Core.List.{List, [], ◌∷◌}
use karlon.Base.{
  ℕ, zero, suc, ◌/◌, ◌%◌, ◌≡◌, refl, ap, ◌∙◌, arith, Bool, false, ◌==◌, ◌!=◌, ◌&&◌, Option, some,
  if◌then◌else◌, eq_iff,
}
use karlon.Base.Path.Joined.{cons_filled}
use karlon.Base.Dict.{Dict, get, insert, get-insert, or_empty}
use karlon.Base.Number.{ℤ, pos, negsuc, itoa, write_digits, digit}
use karlon.Base.Result.{Result, ok, err}
use karlon.BaseCluster.Prepare.{
  Prepared, add_missing, add_cas_annotations, without_namespace, with_annotations, prepare_resource,
  put_first, prepare_all, prepare, cas_max_annotation, cas_min_annotation,
}
use karlon.BaseCluster.Prepared.{prepare_resource_lem}
use karlon.Services.{Resource}

written_filled :
    (fuel n : ℕ) (c : Char) (out : String) → (write_digits fuel n (c ∷ out) == "") ≡ false
unfolding write_digits
written_filled zero n c out = cons_filled c out
written_filled (suc fuel) n c out = ground (
  arith,
  cons_filled (digit n) (c ∷ out),
  written_filled fuel (n / 10) (digit (n % 10)) (c ∷ out),
)

itoa_filled : (n : ℤ) → (itoa n == "") ≡ false
unfolding itoa write_digits
itoa_filled (pos n) =
    ground (arith, cons_filled (digit n) [], written_filled n (n / 10) (digit (n % 10)) [])
itoa_filled (negsuc n) = cons_filled "-" (write_digits (suc (suc n)) (suc n) [])

-- both annotations have a value
abbrev HasBoth : Dict String → Type 0
HasBoth m = ((get cas_max_annotation m == "") ≡ false) × ((get cas_min_annotation m == "") ≡ false)

added-HasBoth :
    (notes : Option (Dict String)) (cas_max cas_min : ℤ)
    → HasBoth (add_cas_annotations notes cas_max cas_min).0
unfolding add_cas_annotations add_missing
added-HasBoth notes cas_max cas_min =
    let full = itoa_filled cas_max in
    let full' = itoa_filled cas_min in
    let notes' : Dict String = or_empty notes in
    let first = insert cas_max_annotation (itoa cas_max) notes' in
    ground (
      arith,
      full,
      full',
      get-insert cas_max_annotation cas_max_annotation (itoa cas_max) notes',
      get-insert cas_max_annotation cas_min_annotation (itoa cas_max) notes',
      get-insert cas_min_annotation cas_max_annotation (itoa cas_min) first,
      get-insert cas_min_annotation cas_min_annotation (itoa cas_min) first,
      get-insert cas_min_annotation cas_max_annotation (itoa cas_min) notes',
      get-insert cas_min_annotation cas_min_annotation (itoa cas_min) notes',
    )

settled_annotations :
    (notes : Dict String) (cas_max cas_min : ℤ)
    → HasBoth notes
    → add_cas_annotations (some notes) cas_max cas_min ≡ (notes, false)
unfolding add_cas_annotations add_missing
settled_annotations notes cas_max cas_min h = ground arith

annotated_again :
    (cas_max cas_min : ℤ) (p : Resource × Bool)
    → with_annotations cas_max cas_min ((with_annotations cas_max cas_min p).0, false)
      ≡ ((with_annotations cas_max cas_min p).0, false)
unfolding with_annotations
annotated_again cas_max cas_min (r, modified) = ground (
  arith,
  settled_annotations (add_cas_annotations r.annotations cas_max cas_min).0 cas_max cas_min
      (added-HasBoth r.annotations cas_max cas_min),
)

bare_annotated :
    (cas_max cas_min : ℤ) (r : Resource)
    → (with_annotations cas_max cas_min (without_namespace r)).0.namespace ≡ ""
unfolding with_annotations without_namespace
bare_annotated cas_max cas_min r = ground (arith, eq_iff r.namespace "")

bare_kept : (r : Resource) → r.namespace ≡ "" → without_namespace r ≡ (r, false)
unfolding without_namespace
bare_kept r h = ground (arith, eq_iff r.namespace "")

prepare_resource_again :
    (cas_max cas_min : ℤ) (r : Resource)
    → prepare_resource cas_max cas_min (prepare_resource cas_max cas_min r).0
      ≡ ((prepare_resource cas_max cas_min r).0, false)
unfolding prepare_resource
prepare_resource_again cas_max cas_min r =
    ap (with_annotations cas_max cas_min) (
      bare_kept (with_annotations cas_max cas_min (without_namespace r)).0
        (bare_annotated cas_max cas_min r))
    ∙ annotated_again cas_max cas_min (without_namespace r)

module _ (encode : Resource → Result String) (cas_max cas_min : ℤ) where
  -- a preparation of what was prepared changes nothing
  abbrev Settles : String → Result Prepared → Type 0
  Settles cluster (err e) = Unit
  Settles cluster (ok p) =
      prepare_all encode cas_max cas_min p.resources cluster ≡ ok (record p { dirty = false })

  settle_first :
      (r : Resource) (modified : Bool) (cluster text : String) (rest : Result Prepared)
      → prepare_resource cas_max cas_min r ≡ (r, false)
      → encode r ≡ ok text
      → (r.kind == "Cluster" && cluster != "") ≡ false
      → Settles (if r.kind == "Cluster" then r.name else cluster) rest
      → Settles cluster (put_first r modified rest)
  unfolding prepare_all
  settle_first r modified cluster text (err e) same coded first settled = tt
  settle_first r modified cluster text (ok p) same coded first settled = ground arith

  prepare_all-Settles :
      (rs : List Resource) (cluster : String)
      → Settles cluster (prepare_all encode cas_max cas_min rs cluster)
  unfolding prepare_all
  prepare_all-Settles [] cluster = refl
  prepare_all-Settles (r ∷ rs) cluster =
      let first : Resource × Bool = prepare_resource cas_max cas_min r in
      grind (
        arith,
        prepare_resource_lem cas_max cas_min r,
        prepare_resource_again cas_max cas_min r,
        prepare_all-Settles rs r.name,
        prepare_all-Settles rs cluster,
        λ (text : String).
            settle_first first.0 first.1 cluster text
              (prepare_all encode cas_max cas_min rs r.name),
        λ (text : String).
            settle_first first.0 first.1 cluster text
              (prepare_all encode cas_max cas_min rs cluster),
      )

  -- If a manifest is prepared, a second preparation with the same bounds of the autoscaler ends
  -- well with the same resources and the same name of the cluster, and has nothing to write.
  pub prepare_again :
      (rs : List Resource) (p : Prepared)
      → prepare encode cas_max cas_min rs ≡ ok p
      → prepare encode cas_max cas_min p.resources ≡ ok (record p { dirty = false })
  unfolding prepare
  prepare_again rs p h =
      let settled : Settles "" (prepare_all encode cas_max cas_min rs "") =
        prepare_all-Settles rs "" in
      ground arith
