-- ===== src/Center/Catalog/Listed.antt =====
-- The listings lose nothing and are in order.
use warp_insight.Prelude.{
  ℕ, ◌≡◌, ◌≤◌, refl, sym, ap, true, false, List, [], ◌∷◌, ◌++◌, arith, Bool-cases, inl, inr,
  if◌then◌else◌,
}
use warp_insight.Prelude.Text.{Text, text, text_eq, text_eq_iff}
use warp_insight.Prelude.Assoc.{get, get-insert}
use warp_insight.Prelude.Results.{ok}
use warp_insight.Prelude.Sorting.{
  sort, IsSorted, sort-perm, sort-IsSorted, text_le_total, text_le_trans,
}
use warp_insight.Snapshots.{works, load, update}
use warp_insight.Center.Store.{ReleaseRecord, CenterStoreSnapshot}
use warp_insight.Center.Gateways.{or_default}
use warp_insight.Center.Catalog.{
  values, id_le, sorted_gateways, release_le, publish_release, list_releases,
}
use mathlib.Core.List.{Perm, Pairwise, append_assoc, append-nil}
use mathlib.Core.List.Pairwise

release_le_total : (x y : ReleaseRecord) → release_le x y ≡ false → release_le y x ≡ true
release_le_total x y h = ground arith

release_le_trans :
    (x y z : ReleaseRecord) → release_le x y ≡ true → release_le y z ≡ true → release_le x z ≡ true
release_le_trans x y z h k = ground arith

-- All gateways are listed, each as often as it is stored, by ascending identifiers.
sorted_gateways-lists :
    (s : CenterStoreSnapshot)
    → Perm (sorted_gateways s) (values s.gateways) × IsSorted id_le (sorted_gateways s)
unfolding sorted_gateways
sorted_gateways-lists s = (
  sort-perm id_le (values s.gateways),
  sort-IsSorted id_le (λ x y. text_le_total x.gateway_id y.gateway_id)
      (λ x y z. text_le_trans x.gateway_id y.gateway_id z.gateway_id) (values s.gateways),
)

-- Each release was published no later than those before it.
unfoldable pub NewestFirst : List ReleaseRecord → Type 0
NewestFirst = Pairwise (λ earlier later. later.published_at ≤ earlier.published_at)

sort-NewestFirst : (releases : List ReleaseRecord) → NewestFirst (sort release_le releases)
unfolding NewestFirst
sort-NewestFirst releases =
    Pairwise.imp (λ x y h. ground (arith, h))
      (sort-IsSorted release_le release_le_total release_le_trans releases)

-- A publication, with the time at which it is stored.
pub record Published : Type 0 where
  pub now : ℕ
  pub component : Text
  pub version : Text
  pub artifact_url : Text

unfoldable pub publish_all : List Published → CenterStoreSnapshot → CenterStoreSnapshot
publish_all [] s = s
publish_all (p ∷ ps) s =
    publish_all ps (publish_release p.now works p.component p.version p.artifact_url s).0

-- The releases of one component among the publications, as they were made.
unfoldable pub releases_of : Text → List Published → List ReleaseRecord
releases_of component [] = []
releases_of component (p ∷ ps) =
    let rest = releases_of component ps in
    if text_eq p.component component
    then record {
      version = p.version;
      artifact_url = p.artifact_url;
      status = text "published";
      published_at = p.now;
    }
      ∷ rest
    else rest

abbrev stored_releases : Text → CenterStoreSnapshot → List ReleaseRecord
stored_releases component s = or_default (get component s.releases)

publish_release-stores :
    (component : Text) (p : Published) (s : CenterStoreSnapshot)
    → stored_releases component
        (publish_release p.now works p.component p.version p.artifact_url s).0
      ≡ stored_releases component s ++ releases_of component (p ∷ [])
unfolding publish_release releases_of update
publish_release-stores component p s = elim (Bool-cases (text_eq p.component component)) [
  | inl e ↦
      let same : p.component ≡ component = (text_eq_iff p.component component).0 e in
      rw (get-insert component p.component _ s.releases, e, same) refl
  | inr e ↦
      rw (get-insert component p.component _ s.releases, e)
        (sym (append-nil (stored_releases component s)))
]

releases_of-cons :
    (component : Text) (p : Published) (ps : List Published)
    → releases_of component (p ∷ []) ++ releases_of component ps ≡ releases_of component (p ∷ ps)
unfolding releases_of
releases_of-cons component p ps = ground arith

publish_all-stores :
    (component : Text) (ps : List Published) (s : CenterStoreSnapshot)
    → stored_releases component (publish_all ps s)
      ≡ stored_releases component s ++ releases_of component ps
unfolding publish_all releases_of
publish_all-stores component [] s = sym (append-nil (stored_releases component s))
publish_all-stores component (p ∷ ps) s =
    rw
      (
        publish_all-stores component ps
            (publish_release p.now works p.component p.version p.artifact_url s).0,
        publish_release-stores component p s,
        append_assoc (stored_releases component s) (releases_of component (p ∷ []))
            (releases_of component ps),
      )
      (ap (λ l. stored_releases component s ++ l) (releases_of-cons component p ps))

-- After any publications, of this and other components, the listing of a component holds the releases
-- that were stored for it and those that were published for it, each as often as it was, and nothing
-- else, the latest published first. The store works.
pub list_releases-publish_all :
    (component : Text) (ps : List Published) (s : CenterStoreSnapshot)
    → (listed : List ReleaseRecord) × (list_releases works component (publish_all ps s) ≡ ok listed)
      × Perm listed (or_default (get component s.releases) ++ releases_of component ps)
      × NewestFirst listed
unfolding list_releases load
list_releases-publish_all component ps s = (
  sort release_le (stored_releases component (publish_all ps s)),
  refl,
  rw (publish_all-stores component ps s) (sort-perm release_le _),
  sort-NewestFirst (stored_releases component (publish_all ps s)),
)
