-- ===== src/Config/HotReload/Delivery.antt =====
-- config/hotreload.go: which configurations reach the callbacks, and how often.
use argis_extensions.Prelude.{
  ℕ, ◌+◌, ◌≤◌, ◌≡◌, refl, ◌∙◌, ap, String, Bool, true, false, Option, none, some, List, [], ◌∷◌,
  ◌++◌, map, All, All-append, arith, str_eq, eq_refl, Bool-cases, inl, inr, if◌then◌else◌, leb,
  ◌&&◌,
}
use argis_extensions.Prelude.Float.{Float64}
use argis_extensions.Config.{Config}
use argis_extensions.Config.Validation.{ValidationError, validate}
use argis_extensions.Config.HotReload.{
  Event, done, closed, file_event, watcher_error, timer, HotReloader, debounce, reload, reload_with,
  fire, react, watch_step, watch,
}

-- The time of the last of a burst of writes.
abbrev pub last_of : ℕ → List ℕ → ℕ
last_of w [] = w
last_of w (x ∷ xs) = last_of x xs

module _ (F : Float64) {Callback : Type 0} (to_lower : String → String) where
  abbrev pub IsAccepted : Callback × Config F → Type 0
  IsAccepted d = validate F to_lower d.1 ≡ []

  All-IsAccepted :
      (cbs : List Callback) (c : Config F)
      → validate F to_lower c ≡ []
      → All IsAccepted (map (λ cb. (cb, c)) cbs)
  All-IsAccepted [] c v = tt
  All-IsAccepted (cb ∷ cbs) c v = (v, All-IsAccepted cbs c v)

  reload-IsAccepted :
      (answer : Option (Config F)) (h : HotReloader F Callback)
      → All IsAccepted h.calls
      → All IsAccepted (reload F to_lower answer h).calls
  unfolding reload
  reload-IsAccepted none h a = a
  reload-IsAccepted (some c) h a = go (validate F to_lower c) refl
    where
      go :
          (es : List ValidationError)
          → validate F to_lower c ≡ es
          → All IsAccepted (reload_with F to_lower es c h).calls
      go [] v = All-append IsAccepted h.calls _ a (All-IsAccepted h.callbacks c v)
      go (e ∷ es) v = a

  fire-IsAccepted :
      (d : Option ℕ) (now : ℕ) (answer : Option (Config F)) (h : HotReloader F Callback)
      → All IsAccepted h.calls
      → All IsAccepted (fire F to_lower d now answer h).calls
  unfolding fire
  fire-IsAccepted none now answer h a = a
  fire-IsAccepted (some t) now answer h a = elim (Bool-cases (leb t now)) [
    | inl y ↦ rw y (reload-IsAccepted answer (record h { deadline = none }) a)
    | inr n ↦ rw n a
  ]

  react-IsAccepted :
      (e : Event F) (h : HotReloader F Callback)
      → All IsAccepted h.calls
      → All IsAccepted (react F to_lower e h).calls
  unfolding react
  react-IsAccepted done h a = a
  react-IsAccepted closed h a = a
  react-IsAccepted (file_event now write name) h a =
      elim (Bool-cases (write && str_eq name h.base_name)) [ inl y ↦ rw y a | inr n ↦ rw n a ]
  react-IsAccepted watcher_error h a = a
  react-IsAccepted (timer now answer) h a = fire-IsAccepted h.deadline now answer h a

  watch_step-IsAccepted :
      (e : Event F) (h : HotReloader F Callback)
      → All IsAccepted h.calls
      → All IsAccepted (watch_step F to_lower e h).calls
  unfolding watch_step
  watch_step-IsAccepted e h a = go h.running
    where
      go : (b : Bool) → All IsAccepted (if b then react F to_lower e h else h).calls
      go true = react-IsAccepted e h a
      go false = a

  -- Whatever events the loop meets, a callback is only ever called with a configuration that
  -- `Validate` accepts.
  pub watch-IsAccepted :
      (es : List (Event F)) (h : HotReloader F Callback)
      → All IsAccepted h.calls
      → All IsAccepted (watch F to_lower es h).calls
  unfolding watch
  watch-IsAccepted [] h a = a
  watch-IsAccepted (e ∷ es) h a =
      watch-IsAccepted es (watch_step F to_lower e h) (watch_step-IsAccepted e h a)

  write_step :
      (w : ℕ) (h : HotReloader F Callback)
      → h.running ≡ true
      → watch_step F to_lower (file_event w true h.base_name) h
        ≡ record h { deadline = some (w + debounce) }
  unfolding watch_step
  write_step w h r = ground (arith, eq_refl h.base_name)

  writes :
      (w : ℕ) (ws : List ℕ) (es : List (Event F)) (h : HotReloader F Callback)
      → h.running ≡ true
      → watch F to_lower (map (λ x. file_event x true h.base_name) (w ∷ ws) ++ es) h
        ≡ watch F to_lower es (record h { deadline = some (last_of w ws + debounce) })
  unfolding watch
  writes w [] es h r = ap (watch F to_lower es) (write_step w h r)
  writes w (x ∷ ws) es h r =
      ap (watch F to_lower (map (λ x. file_event x true h.base_name) (x ∷ ws) ++ es))
        (write_step w h r)
      ∙ writes x ws es (record h { deadline = some (w + debounce) }) r

  kept-reload :
      (answer : Option (Config F)) (h : HotReloader F Callback)
      → ((reload F to_lower answer h).deadline ≡ h.deadline)
        × ((reload F to_lower answer h).running ≡ h.running)
  unfolding reload
  kept-reload none h = (refl, refl)
  kept-reload (some c) h = go (validate F to_lower c)
    where
      go :
          (es : List ValidationError)
          → ((reload_with F to_lower es c h).deadline ≡ h.deadline)
            × ((reload_with F to_lower es c h).running ≡ h.running)
      go [] = (refl, refl)
      go (e ∷ es) = (refl, refl)

  timer_step :
      (d t : ℕ) (answer : Option (Config F)) (h : HotReloader F Callback)
      → h.running ≡ true
      → h.deadline ≡ some d
      → d ≤ t
      → watch_step F to_lower (timer t answer) h
        ≡ reload F to_lower answer (record h { deadline = none })
  unfolding watch_step
  timer_step d t answer h r e le = ground arith

  idle_step :
      (t : ℕ) (answer : Option (Config F)) (h : HotReloader F Callback)
      → h.deadline ≡ none
      → watch_step F to_lower (timer t answer) h ≡ h
  unfolding watch_step
  idle_step t answer h e = ground arith

  idle :
      (ts : List (ℕ × Option (Config F))) (h : HotReloader F Callback)
      → h.deadline ≡ none
      → watch F to_lower (map (λ x. timer x.0 x.1) ts) h ≡ h
  unfolding watch
  idle [] h e = refl
  idle (x ∷ ts) h e =
      ap (watch F to_lower (map (λ y. timer y.0 y.1) ts)) (idle_step x.0 x.1 h e) ∙ idle ts h e

  -- A burst of writes to the file makes one reload: once the debounce delay has passed since the
  -- last of them, the first reading of the timer reloads, and no later one does.
  pub burst_reloads_once :
      (w : ℕ) (ws : List ℕ) (t : ℕ) (answer : Option (Config F))
      (later : List (ℕ × Option (Config F))) (h : HotReloader F Callback)
      → h.running ≡ true
      → last_of w ws + debounce ≤ t
      → watch F to_lower
          (map (λ x. file_event x true h.base_name) (w ∷ ws)
            ++ timer t answer ∷ map (λ x. timer x.0 x.1) later)
          h
        ≡ reload F to_lower answer (record h { deadline = none })
  unfolding watch
  burst_reloads_once w ws t answer later h r le =
      let armed = record h { deadline = some (last_of w ws + debounce) } in
      let idle_now = record h { deadline = none } in
      writes w ws (timer t answer ∷ map (λ x. timer x.0 x.1) later) h r
      ∙ (ap (watch F to_lower (map (λ x. timer x.0 x.1) later))
            (timer_step (last_of w ws + debounce) t answer armed r refl le)
          ∙ idle later (reload F to_lower answer idle_now) (kept-reload answer idle_now).0)
