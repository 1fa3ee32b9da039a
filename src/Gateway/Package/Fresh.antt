-- ===== src/Gateway/Package/Fresh.antt =====
-- The cache of the hash of the agent package over a history of calls.
use warp_insight.Prelude.{
  ℕ, ◌==◌, ◌≡◌, refl, Bool-cases, inl, inr, ◌&&◌, Option, none, some, List, [], ◌∷◌, map, arith,
}
use warp_insight.Prelude.Text.{Text}
use warp_insight.Prelude.Results.{Result, ok}
use warp_insight.Secret.{sha256_hex}
use warp_insight.Gateway.Package.{
  PackageHashCacheEntry, Metadata, or_epoch, cached_hash, hash_package, agent_package_sha256,
}

-- The hash of the file that has the time and the size of the metadata.
unfoldable pub current_hash : (List ℕ → List ℕ) → (ℕ → ℕ → List ℕ) → Metadata → Text
current_hash digest contents m = sha256_hex digest (contents (or_epoch m.modified) m.len)

-- One call after the other, each on the file as it is then.
unfoldable pub run :
    (List ℕ → List ℕ)
    → (ℕ → ℕ → List ℕ)
    → List Metadata
    → Option PackageHashCacheEntry
    → List (Result Text Text)
run digest contents [] cache = []
run digest contents (m ∷ calls) cache =
    let read = ok (contents (or_epoch m.modified) m.len) in
    let next = agent_package_sha256 digest (ok m) read cache in
    next.1 ∷ run digest contents calls next.0

unfoldable Fresh : (List ℕ → List ℕ) → (ℕ → ℕ → List ℕ) → Option PackageHashCacheEntry → Type 0
Fresh digest contents none = Unit {0}
Fresh digest contents (some entry) =
    entry.hash ≡ sha256_hex digest (contents entry.modified entry.len)

agent_package_sha256-Fresh :
    (digest : List ℕ → List ℕ) (contents : ℕ → ℕ → List ℕ) (m : Metadata)
    (cache : Option PackageHashCacheEntry)
    → Fresh digest contents cache
    → ((agent_package_sha256 digest (ok m) (ok (contents (or_epoch m.modified) m.len)) cache).1
        ≡ ok (current_hash digest contents m))
      × Fresh digest contents
          (agent_package_sha256 digest (ok m) (ok (contents (or_epoch m.modified) m.len)) cache).0
unfolding agent_package_sha256 hash_package cached_hash current_hash Fresh
agent_package_sha256-Fresh digest contents m none h = (refl, refl)
agent_package_sha256-Fresh digest contents m (some entry) h =
    elim (Bool-cases (entry.modified == or_epoch m.modified && entry.len == m.len)) [
      | inl y ↦ rw (agent_package_sha256, y) ground (arith, h)
      | inr n ↦ rw (agent_package_sha256, n) (refl, refl)
    ]

run-Fresh :
    (digest : List ℕ → List ℕ) (contents : ℕ → ℕ → List ℕ) (calls : List Metadata)
    (cache : Option PackageHashCacheEntry)
    → Fresh digest contents cache
    → run digest contents calls cache ≡ map (λ m. ok (current_hash digest contents m)) calls
unfolding run
run-Fresh digest contents [] cache h = refl
run-Fresh digest contents (m ∷ calls) cache h =
    let step = agent_package_sha256-Fresh digest contents m cache h in
    rw (step.0, run-Fresh digest contents calls _ step.1) refl

-- As long as two files of the package with the same time and size are the same, every call of a
-- history that starts with an empty cache answers the hash of the file as it is at that call.
pub run-current_hash :
    (digest : List ℕ → List ℕ) (contents : ℕ → ℕ → List ℕ) (calls : List Metadata)
    → run digest contents calls none ≡ map (λ m. ok (current_hash digest contents m)) calls
unfolding Fresh
run-current_hash digest contents calls = run-Fresh digest contents calls none tt
