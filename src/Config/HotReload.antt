-- ===== src/Config/HotReload.antt =====
-- config/hotreload.go: the loop of `watch` as a state machine over the events of its `select`, and
-- `reload`.
--
-- What viper reads and unmarshals is in the events: a reload gets the result of `ReadInConfig` and
-- of `Unmarshal`. A callback is a name; the calls are the list `calls`, of which the source starts
-- a goroutine each. Times are in milliseconds. File names are compared by their base names.
pub mod Delivery
use argis_extensions.Prelude.{
  ℕ, ◌+◌, String, Bool, true, false, ◌&&◌, Option, none, some, List, [], ◌∷◌, ◌++◌, if◌then◌else◌,
  snoc, str_eq, leb, map,
}
use argis_extensions.Prelude.Float.{Float64}
use argis_extensions.Config.{Config}
use argis_extensions.Config.Validation.{ValidationError, validate}

-- The delay of the debounce timer.
abbrev pub debounce : ℕ
debounce = 500

-- What the watcher and the timer can deliver. A write event says whether its operation has the
-- `Write` bit.
pub data Event (F : Float64) : Type 0 where
  done closed : Event F
  file_event : ℕ → Bool → String → Event F
  watcher_error : Event F
  -- The timer's channel is read at a time; viper's answer to the reload that follows.
  timer : ℕ → Option (Config F) → Event F

pub record HotReloader (F : Float64) (Callback : Type 0) : Type 0 where
  pub base_name : String
  pub callbacks : List Callback
  -- When the timer fires, if `debounceCh` is set.
  pub deadline : Option ℕ
  pub running : Bool
  pub calls : List (Callback × Config F)

module _ (F : Float64) {Callback : Type 0} (to_lower : String → String) where
  unfoldable pub on_change : Callback → HotReloader F Callback → HotReloader F Callback
  on_change cb h = record h { callbacks = snoc h.callbacks cb }

  -- `none`: reading or unmarshalling failed.
  reload_with : List ValidationError → Config F → HotReloader F Callback → HotReloader F Callback
  reload_with [] c h = record h { calls = h.calls ++ map (λ cb. (cb, c)) h.callbacks }
  reload_with (e ∷ es) c h = h

  unfoldable pub reload : Option (Config F) → HotReloader F Callback → HotReloader F Callback
  unfolding reload_with
  reload none h = h
  reload (some c) h = reload_with (validate F to_lower c) c h

  fire : Option ℕ → ℕ → Option (Config F) → HotReloader F Callback → HotReloader F Callback
  unfolding reload
  fire none now answer h = h
  fire (some t) now answer h = if leb t now then reload answer (record h { deadline = none }) else h

  react : Event F → HotReloader F Callback → HotReloader F Callback
  unfolding fire
  react done h = record h { running = false }
  react closed h = record h { running = false }
  react (file_event now write name) h =
      if write && str_eq name h.base_name then record h { deadline = some (now + debounce) } else h
  react watcher_error h = h
  react (timer now answer) h = fire h.deadline now answer h

  -- One round of the `for` loop; a loop that has returned does nothing.
  unfoldable pub watch_step : Event F → HotReloader F Callback → HotReloader F Callback
  unfolding react
  watch_step e h = if h.running then react e h else h

  unfoldable pub watch : List (Event F) → HotReloader F Callback → HotReloader F Callback
  unfolding watch_step
  watch [] h = h
  watch (e ∷ es) h = watch es (watch_step e h)
