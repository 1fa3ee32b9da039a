-- ===== src/Center/Artifacts.antt =====
-- crates/wist-center/src/infra/artifacts.rs: where the bytes of a release are put, and the address
-- that they are found at.
use warp_insight.Prelude.{Option, none, some, ◌++◌}
use warp_insight.Prelude.Text.{Text, text}
use warp_insight.Prelude.Results.{Result, ok, err}
use warp_insight.Center.Config.{without_end_slashes}

pub data ArtifactStore : Type 0 where
  local : (public_url : Text) → ArtifactStore
  object_storage : (endpoint bucket : Text) → ArtifactStore

unfoldable pub artifact_url : ArtifactStore → (component version filename : Text) → Text
unfolding without_end_slashes
artifact_url (local public_url) component version filename =
    without_end_slashes public_url
    ++ (text "/api/v1/releases/artifact/"
        ++ (component ++ (text "/" ++ (version ++ (text "/" ++ filename)))))
artifact_url (object_storage endpoint bucket) component version filename =
    without_end_slashes endpoint
    ++ (text "/"
        ++ (bucket
            ++ (text "/" ++ (component ++ (text "/" ++ (version ++ (text "/" ++ filename)))))))

-- The outcome of the writes is given: nothing, or the text of an error.
unfoldable pub store_artifact :
    Option Text → ArtifactStore → (component version filename : Text) → Result Text Text
unfolding artifact_url
store_artifact none artifacts component version filename =
    ok (artifact_url artifacts component version filename)
store_artifact (some e) artifacts component version filename = err e
