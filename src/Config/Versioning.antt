-- ===== src/Config/Versioning.antt =====
-- config/versioning.go: versions, the history of changes, and the comparison of two configurations.
--
-- `computeHash` formats the configuration and hashes it with SHA-256: the parameter `compute_hash`.
-- So is the decimal text of a number, `format_int`. A reading of the clock is an argument; `unix`
-- is in seconds, time stamps in nanoseconds.
pub mod History
use argis_extensions.Prelude.{
  ℕ, ◌/◌, String, ◌<>◌, Bool, true, false, not, ◌||◌, ◌&&◌, List, [], ◌∷◌, if◌then◌else◌, snoc,
  str_eq, ltb,
}
use argis_extensions.Prelude.Int.{ℤ, ltb_ℤ}
use argis_extensions.Prelude.Float.{Float64}
use argis_extensions.Config.{Config}
use Prim.Native.String.{slice}

pub record ConfigVersion : Type 0 where
  pub version : String
  pub hash : String
  pub timestamp : ℕ
  pub changes : List String

pub record VersionedConfig (F : Float64) : Type 0 where
  pub config : Config F
  pub version : String
  pub hash : String
  pub history : List ConfigVersion
  pub last_updated : ℕ

module _ (F : Float64) (compute_hash : Config F → String) (format_int : ℕ → String) where
  -- `now` is the reading for the version, `now'` that for `lastUpdated`. `hash[:8]` is of a text of
  -- 64 characters.
  unfoldable pub update_version : ℕ → ℕ → VersionedConfig F → VersionedConfig F
  update_version now now' vc =
      let h = compute_hash vc.config in
      record vc {
        hash = h;
        version = format_int (now / 1_000_000_000) <> "-" <> slice h 0 8;
        last_updated = now';
      }

  unfoldable pub new_versioned_config : ℕ → ℕ → ℕ → Config F → VersionedConfig F
  unfolding update_version
  new_versioned_config t0 now now' cfg =
      update_version now now'
        (record { config = cfg; version = ""; hash = ""; history = []; last_updated = t0 })

  unfoldable pub record_change : ℕ → ℕ → ℕ → String → VersionedConfig F → VersionedConfig F
  unfolding update_version
  record_change now now' stamp description vc =
      let vc' = update_version now now' vc in
      record vc' {
        history = snoc vc'.history (record {
          version = vc'.version;
          hash = vc'.hash;
          timestamp = stamp;
          changes = description ∷ [];
        });
      }

-- `ChangeHistorySince`: the versions after a time.
unfoldable pub change_history_since : ℕ → List ConfigVersion → List ConfigVersion
change_history_since since [] = []
change_history_since since (v ∷ vs) =
    let rest = change_history_since since vs in if ltb since v.timestamp then v ∷ rest else rest

pub record ConfigComparison : Type 0 where
  pub breaking : List String
  pub additive : List String
  pub modified : List String

abbrev pub bool_ne : Bool → Bool → Bool
bool_ne a b = if a then not b else b

abbrev pub int_ne : ℤ → ℤ → Bool
int_ne a b = ltb_ℤ a b || ltb_ℤ b a

abbrev pub snoc_if : Bool → String → List String → List String
snoc_if changed field fields = if changed then snoc fields field else fields

unfoldable pub compare : (F : Float64) → VersionedConfig F → VersionedConfig F → ConfigComparison
compare F vc other =
    let c = vc.config in
    let o = other.config in
    let m1 = snoc_if (int_ne c.server.port o.server.port) "server.port" [] in
    let m2 = snoc_if (not (str_eq c.server.host o.server.host)) "server.host" m1 in
    let m3 =
      snoc_if (bool_ne c.routing.route_llm.enabled o.routing.route_llm.enabled)
        "routing.routellm.enabled" m2 in
    let m4 =
      snoc_if (bool_ne c.plugins.intelligent_router o.plugins.intelligent_router)
        "plugins.intelligent_router" m3 in
    record { breaking = []; additive = []; modified = m4 }

add_lines : String → List String → String
add_lines path [] = path
add_lines path (f ∷ fs) = add_lines (path <> ("  - Update " <> f <> "\n")) fs

unfoldable pub migration_path : ConfigComparison → String
unfolding add_lines
migration_path cc' = elim cc'.modified [
  | [] ↦ "No changes detected"
  | f ∷ fs ↦ add_lines "Migration path:\n" (f ∷ fs)
]
