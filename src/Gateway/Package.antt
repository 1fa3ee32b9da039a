-- ===== src/Gateway/Package.antt =====
-- crates/warp-gateway/src/api/install.rs, `agent_package_sha256` and its cache. The digest and what
-- the file system answers are arguments; a poisoned lock of the cache is left out.
pub mod Fresh
use warp_insight.Prelude.{
  ℕ, ◌==◌, ◌≡◌, refl, Bool, true, false, Bool-cases, inl, inr, ◌&&◌, Option, none, some, List, [],
  ◌∷◌, if◌then◌else◌, arith, ==_iff,
}
use warp_insight.Prelude.Text.{Text}
use warp_insight.Prelude.Results.{Result, ok, err}
use warp_insight.Secret.{sha256_hex}

pub record PackageHashCacheEntry : Type 0 where
  pub modified : ℕ
  pub len : ℕ
  pub hash : Text

pub record Metadata : Type 0 where
  pub modified : Option ℕ
  pub len : ℕ

-- `unwrap_or(SystemTime::UNIX_EPOCH)`, with the epoch as 0.
abbrev pub or_epoch : Option ℕ → ℕ
or_epoch none = 0
or_epoch (some t) = t

-- The hash in the cache, if it is that of a file with this time and this size.
unfoldable pub cached_hash : ℕ → ℕ → Option PackageHashCacheEntry → Option Text
cached_hash modified len none = none
cached_hash modified len (some entry) =
    if entry.modified == modified && entry.len == len then some entry.hash else none

-- The file is read and its hash is put into the cache.
unfoldable pub hash_package :
    (List ℕ → List ℕ)
    → ℕ
    → ℕ
    → Result Text (List ℕ)
    → Option PackageHashCacheEntry
    → Option PackageHashCacheEntry × Result Text Text
unfolding sha256_hex
hash_package digest modified len (err e) cache = (cache, err e)
hash_package digest modified len (ok bytes) cache =
    let hash = sha256_hex digest bytes in
    (some (record { modified = modified; len = len; hash = hash }), ok hash)

abbrev from_cache :
    Option Text
    → Option PackageHashCacheEntry
    → Option PackageHashCacheEntry × Result Text Text
    → Option PackageHashCacheEntry × Result Text Text
from_cache (some hash) cache hashed = (cache, ok hash)
from_cache none cache hashed = hashed

unfoldable pub agent_package_sha256 :
    (List ℕ → List ℕ)
    → (metadata : Result Text Metadata) → (read : Result Text (List ℕ))
    → Option PackageHashCacheEntry
    → Option PackageHashCacheEntry × Result Text Text
unfolding cached_hash hash_package
agent_package_sha256 digest (err e) read cache = (cache, err e)
agent_package_sha256 digest (ok metadata) read cache =
    let modified = or_epoch metadata.modified in
    from_cache (cached_hash modified metadata.len cache) cache
      (hash_package digest modified metadata.len read cache)
