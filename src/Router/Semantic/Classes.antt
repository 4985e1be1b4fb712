-- ===== src/Router/Semantic/Classes.antt =====
-- plugins/intelligentrouter/semantic.go: the classes that a request can be given.
use argis_extensions.Prelude.{
  ℕ, ◌≡◌, refl, ◌∙◌, ◌⊎◌, Bool, true, false, Option, none, some, List, [], ◌∷◌, arith,
}
use argis_extensions.Prelude.Float.{Float64}
use argis_extensions.Router.{task_type_code_gen, task_type_reasoning, task_type_default}
use argis_extensions.Router.Semantic.{
  Schemas, FeatureSet, classify, read_messages, read_params, read_input, extract_features,
}

module _ (F : Float64) where
  -- Without function calling a request is code, or reasoning, or neither.
  classify_cases :
      (features : FeatureSet F)
      → features.has_function_calling ≡ false
      → ((classify F features ≡ task_type_code_gen)
          × (features.code_content ≡ true)
          × (F.le (F.ratio 3 10) features.complexity_score ≡ true))
        ⊎ (((classify F features ≡ task_type_reasoning)
              × (F.le (F.ratio 7 10) features.complexity_score ≡ true))
            ⊎ ((classify F features ≡ task_type_default)
                × (F.le (F.ratio 7 10) features.complexity_score ≡ false)))
  unfolding classify
  classify_cases features h = ground (h, arith)

  module _ (S : Schemas) where
    read_messages-calling :
        (messages : List S.Message) (features : FeatureSet F)
        → (read_messages F S messages features).has_function_calling ≡ features.has_function_calling
    unfolding read_messages
    read_messages-calling [] features = refl
    read_messages-calling (msg ∷ messages) features = read_messages-calling messages _

    read_input-calling :
        (input : Option (List S.Message)) (features : FeatureSet F)
        → (read_input F S input features).has_function_calling ≡ features.has_function_calling
    unfolding read_input
    read_input-calling none features = refl
    read_input-calling (some messages) features = read_messages-calling messages _

    read_params-calling :
        (params : Option (ℕ × Bool)) (features : FeatureSet F)
        → (read_params F S params features).has_function_calling ≡ features.has_function_calling
    unfolding read_params
    read_params-calling none features = refl
    read_params-calling (some (tools, choice)) features = refl

    -- No request is classified as a tool call, whatever tools it carries: it is code, with code in
    -- its messages and complexity from 0.3 on, or reasoning with complexity from 0.7 on, or
    -- default.
    pub extracted_class :
        (req : S.Request)
        → ((classify F (extract_features F S req) ≡ task_type_code_gen)
            × ((extract_features F S req).code_content ≡ true)
            × (F.le (F.ratio 3 10) (extract_features F S req).complexity_score ≡ true))
          ⊎ (((classify F (extract_features F S req) ≡ task_type_reasoning)
                × (F.le (F.ratio 7 10) (extract_features F S req).complexity_score ≡ true))
              ⊎ ((classify F (extract_features F S req) ≡ task_type_default)
                  × (F.le (F.ratio 7 10) (extract_features F S req).complexity_score ≡ false)))
    unfolding extract_features
    extracted_class req =
        classify_cases (extract_features F S req)
          (read_input-calling (S.chat_input req) _ ∙ read_params-calling (S.chat_params req) _)
