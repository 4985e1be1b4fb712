-- ===== src/Config/Versioning/History.antt =====
-- config/versioning.go: what the history and the comparison say.
use argis_extensions.Prelude.{
  ℕ, ◌≡◌, refl, ◌↔◌, ◌<◌, ◌≤◌, String, List, [], ◌∷◌, ◌++◌, arith, eq_iff, All, ◌∙◌, sym, map,
}
use mathlib.Core.List.{append-nil, append_assoc, map-append}
use argis_extensions.Prelude.Float.{Float64}
use argis_extensions.Config.{Config}
use argis_extensions.Config.Versioning.{
  ConfigVersion, VersionedConfig, record_change, change_history_since, compare,
}

-- The four settings that `Compare` looks at are the same.
pub record Agrees (F : Float64) (c o : Config F) : Type 0 where
  pub port : c.server.port ≡ o.server.port
  pub host : c.server.host ≡ o.server.host
  pub route_llm : c.routing.route_llm.enabled ≡ o.routing.route_llm.enabled
  pub router : c.plugins.intelligent_router ≡ o.plugins.intelligent_router

compare_sound :
    (F : Float64) (vc other : VersionedConfig F)
    → (compare F vc other).modified ≡ []
    → Agrees F vc.config other.config
unfolding compare
compare_sound F vc other h = ground (arith, eq_iff vc.config.server.host other.config.server.host)

compare_complete :
    (F : Float64) (vc other : VersionedConfig F)
    → Agrees F vc.config other.config
    → (compare F vc other).modified ≡ []
unfolding compare
compare_complete F vc other h =
    ground (arith, eq_iff vc.config.server.host other.config.server.host)

-- `Compare` finds nothing modified exactly when port, host, the RouteLLM switch and the router
-- plugin's switch are the same, whatever else differs.
pub compare_iff :
    (F : Float64) (vc other : VersionedConfig F)
    → ((compare F vc other).modified ≡ []) ↔ Agrees F vc.config other.config
compare_iff F vc other = (compare_sound F vc other, compare_complete F vc other)

-- The readings of the clock in a call of `RecordChange`, and its description.
pub record Recording : Type 0 where
  pub now : ℕ
  pub now' : ℕ
  pub stamp : ℕ
  pub description : String

since-append :
    (t : ℕ) (xs ys : List ConfigVersion)
    → change_history_since t (xs ++ ys) ≡ change_history_since t xs ++ change_history_since t ys
unfolding change_history_since
since-append t [] ys = refl
since-append t (x ∷ xs) ys = ground (arith, since-append t xs ys)

since_old :
    (t : ℕ) (xs : List ConfigVersion)
    → All (λ v. v.timestamp ≤ t) xs
    → change_history_since t xs ≡ []
unfolding change_history_since
since_old t [] h = refl
since_old t (x ∷ xs) h = ground (arith, since_old t xs h.1)

module _ (F : Float64) (compute_hash : Config F → String) (format_int : ℕ → String) where
  unfoldable pub record_all : List Recording → VersionedConfig F → VersionedConfig F
  record_all [] vc = vc
  record_all (r ∷ rs) vc =
      record_all rs (record_change F compute_hash format_int r.now r.now' r.stamp r.description vc)

  since-record_change :
      (t : ℕ) (r : Recording) (vc : VersionedConfig F)
      → t < r.stamp
      → map
          (λ v. v.changes)
          (change_history_since t
            (record_change F compute_hash format_int r.now r.now' r.stamp r.description vc).history)
        ≡ map (λ v. v.changes) (change_history_since t vc.history) ++ (r.description ∷ []) ∷ []
  unfolding record_change
  since-record_change t r vc h =
      rw (since-append t vc.history) (simp map-append (unfold change_history_since in ground arith))

  since-record_all :
      (t : ℕ) (rs : List Recording) (vc : VersionedConfig F)
      → All (λ r. t < r.stamp) rs
      → map (λ v. v.changes) (change_history_since t (record_all rs vc).history)
        ≡ map (λ v. v.changes) (change_history_since t vc.history)
          ++ map (λ r. r.description ∷ []) rs
  unfolding record_all
  since-record_all t [] vc h = sym (append-nil _)
  since-record_all t (r ∷ rs) vc h =
      since-record_all t rs
        (record_change F compute_hash format_int r.now r.now' r.stamp r.description vc) h.1
      ∙ rw (since-record_change t r vc h.0, append_assoc)

  -- `ChangeHistorySince` at a time that is not before any version of the history returns exactly
  -- the changes recorded afterwards, one version each, in order.
  pub history_since_recorded :
      (t : ℕ) (rs : List Recording) (vc : VersionedConfig F)
      → All (λ v. v.timestamp ≤ t) vc.history
      → All (λ r. t < r.stamp) rs
      → map (λ v. v.changes) (change_history_since t (record_all rs vc).history)
        ≡ map (λ r. r.description ∷ []) rs
  history_since_recorded t rs vc old new =
      since-record_all t rs vc new ∙ rw (since_old t vc.history old)
