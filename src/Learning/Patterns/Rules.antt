-- ===== src/Learning/Patterns/Rules.antt =====
-- plugins/learning/patterns.go: the rules that GetRule answers.
use argis_extensions.Prelude.{
  ℕ, ◌+◌, ◌≤◌, ◌≡◌, refl, ◌∙◌, subst, inl, inr, String, true, false, Option, none, some,
  some-injective, List, [], ◌∷◌, ltb, if◌then◌else◌, Bool-cases, arith,
}
use argis_extensions.Prelude.Assoc.{Dict, lookup, insert, insert_found}
use argis_extensions.Prelude.Float.{Float64}
use argis_extensions.Learning.Patterns.{
  Pattern, GeneratedRule, RuleGenerator, new_rule_generator, rule_from, generate_from,
  generate_rules, unexpired, get_generated_rule,
}

-- A call of GenerateRules, with the patterns that the detector holds then and the readings of the
-- clock that the call takes.
pub record Generation (F : Float64) : Type 0 where
  pub ids : String → String
  pub clock : ℕ → ℕ
  pub patterns : Dict (Pattern F)

-- No more than `delay` passes from one reading of the clock to the next.
abbrev pub IsPrompt : ℕ → (ℕ → ℕ) → Type 0
IsPrompt delay clock = (n : ℕ) → clock (n + 1) ≤ clock n + delay

module _ (F : Float64) (least : F.Carrier) (ttl delay : ℕ) where
  -- A rule of a task: of this task, confident enough, and valid for the time to live, with the delay
  -- between the two readings of the clock.
  abbrev pub IsRule : String → GeneratedRule F → Type 0
  IsRule task_type rule =
      (rule.task_type ≡ task_type)
      × (F.le least rule.confidence ≡ true)
      × (rule.valid_until ≤ rule.generated_at + delay + ttl)

  abbrev pub HasRules : RuleGenerator F → Type 0
  HasRules rg =
      (rg.min_confidence ≡ least)
      × (rg.rule_ttl ≡ ttl)
      × ((task_type : String) (rule : GeneratedRule F)
          → lookup task_type rg.rules ≡ some rule
          → IsRule task_type rule)

  added-HasRules :
      (ids : String → String) (now now' : ℕ) (p : Pattern F) (rg : RuleGenerator F)
      → now' ≤ now + delay
      → HasRules rg
      → F.le rg.min_confidence p.confidence ≡ true
      → HasRules (record rg {
        rules = insert p.task_type (rule_from F ids now now' rg.rule_ttl p) rg.rules;
      })
  unfolding rule_from
  added-HasRules ids now now' p rg soon (same_least, same_ttl, good) enough =
      (same_least, same_ttl, later)
    where
      later :
          (task_type : String) (rule : GeneratedRule F)
          → lookup task_type (insert p.task_type (rule_from F ids now now' rg.rule_ttl p) rg.rules)
            ≡ some rule
          → IsRule task_type rule
      later task_type rule found = elim (insert_found p.task_type task_type _ rule rg.rules found) [
        | inl (same, made) ↦ subst (IsRule task_type) made (
          same,
          subst (λ l. F.le l p.confidence ≡ true) same_least enough,
          omega (arith, same_ttl, soon),
        )
        | inr old ↦ good task_type rule old
      ]

  generate_from-HasRules :
      (ids : String → String) (clock : ℕ → ℕ) (n : ℕ) (patterns : List (Pattern F))
      (rg : RuleGenerator F)
      → IsPrompt delay clock
      → HasRules rg
      → HasRules (generate_from F ids clock n patterns rg).1
  unfolding generate_from
  generate_from-HasRules ids clock n [] rg prompt h = h
  generate_from-HasRules ids clock n (p ∷ patterns) rg prompt h =
      elim (Bool-cases (F.le rg.min_confidence p.confidence)) [
        | inl e ↦ rw e (
            generate_from-HasRules ids clock (n + 2) patterns _ prompt
              (added-HasRules ids (clock n) (clock (n + 1)) p rg (prompt n) h e))
        | inr e ↦ rw e (generate_from-HasRules ids clock n patterns rg prompt h)
      ]

  -- Calls of GenerateRules one after the other.
  abbrev pub generate_all : List (Generation F) → RuleGenerator F → RuleGenerator F
  generate_all [] rg = rg
  generate_all (g ∷ generations) rg =
      generate_all generations (generate_rules F g.ids g.clock g.patterns rg).1

  abbrev pub AllPrompt : List (Generation F) → Type 0
  AllPrompt [] = Unit
  AllPrompt (g ∷ generations) = IsPrompt delay g.clock × AllPrompt generations

  generate_all-HasRules :
      (generations : List (Generation F)) (rg : RuleGenerator F)
      → AllPrompt generations
      → HasRules rg
      → HasRules (generate_all generations rg)
  unfolding generate_rules
  generate_all-HasRules [] rg prompt h = h
  generate_all-HasRules (g ∷ generations) rg (prompt, others) h =
      generate_all-HasRules generations _ others
        (generate_from-HasRules g.ids g.clock 0 _ rg prompt h)

  unexpired_cases :
      (now : ℕ) (known : Option (GeneratedRule F)) (rule : GeneratedRule F)
      → unexpired F now known ≡ some rule
      → (known ≡ some rule) × (ltb rule.valid_until now ≡ false)
  unfolding unexpired
  unexpired_cases now none rule h = ground (h, arith)
  unexpired_cases now (some r) rule h = elim (Bool-cases (ltb r.valid_until now)) [
    | inl e ↦ ground (h, e, arith)
    | inr e ↦
        let same : some r ≡ some rule = unchanged r e ∙ h in
        (
          same,
          subst (λ (x : GeneratedRule F). ltb x.valid_until now ≡ false)
              (some-injective r rule same) e,
        )
  ]
    where
      unchanged :
          (x : GeneratedRule F)
          → ltb x.valid_until now ≡ false
          → some x ≡ (if ltb x.valid_until now then none else some x)
      unchanged x e = rw e refl

  -- Whatever rules a new generator with a time to live above 0 has generated, and when, a rule that
  -- GetRule answers for a task is a rule of this task, of at least the confidence asked for, and
  -- generated no longer ago than the time to live and the delay, if in each generation no more than
  -- the delay passes from one reading of the clock to the next.
  pub answered_rule :
      (generations : List (Generation F)) (now : ℕ) (task_type : String) (rule : GeneratedRule F)
      → 1 ≤ ttl
      → AllPrompt generations
      → get_generated_rule F now task_type
          (generate_all generations (new_rule_generator F least ttl))
        ≡ some rule
      → (rule.task_type ≡ task_type)
        × (F.le least rule.confidence ≡ true)
        × (now ≤ rule.generated_at + delay + ttl)
  unfolding get_generated_rule new_rule_generator lookup
  answered_rule generations now task_type rule some_time prompt h =
      let start = new_rule_generator F least ttl in
      let (_, _, good) =
        generate_all-HasRules generations start prompt
          (refl, ground (arith, some_time), λ t r e. ground (e, arith)) in
      let (found, valid) = unexpired_cases now _ rule h in
      let (same, enough, expiry) = good task_type rule found in
      (same, enough, ground (arith, valid, expiry))
