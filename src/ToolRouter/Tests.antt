-- ===== src/ToolRouter/Tests.antt =====
-- plugins/toolrouter: three tools and a profile.
use argis_extensions.Prelude.{
  ◌≤◌, ◌≡◌, refl, String, true, some, List, [], ◌∷◌, ◌++◌, length, filter,
}
use argis_extensions.Prelude.Int.{pos}
use argis_extensions.Prelude.Float.{micros}
use argis_extensions.ToolRouter.{
  ToolSchemas, ToolProfile, ToolRouterConfig, default_tool_router_config, apply_profile,
  filter_tools,
}
use argis_extensions.ToolRouter.Filtered.{chosen, left_over, preferred_first, limited}

abbrev plain : ToolSchemas
plain = record {
  Tool = String;
  function_name = λ t. t;
  Message = String × String;
  role = λ m. m.0;
  content_str = λ m. some m.1;
}

abbrev three_tools : List String
three_tools = "search" ∷ "weather" ∷ "calculator" ∷ []

preferred_first_example :
    apply_profile plain
      (default_tool_router_config micros)
      three_tools
      (record { preferred = "weather" ∷ []; allowed_categories = [] })
    ≡ filter (chosen plain ("weather" ∷ [])) three_tools
      ++ filter (left_over plain true ("weather" ∷ [])) three_tools
preferred_first_example =
    preferred_first plain (default_tool_router_config micros) three_tools "weather" [] []

abbrev two_at_most : ToolRouterConfig micros
two_at_most = record (default_tool_router_config micros) { max_tools_per_request = pos 2 }

abbrev no_profile : ToolProfile
no_profile = record { preferred = []; allowed_categories = [] }

limited_example :
    (kept : List String) × (filter_tools plain two_at_most
        (some (λ message. some "planner"))
        no_profile
        (("user", "hello") ∷ [])
        three_tools
      ≡ some kept)
    × (length kept ≤ 2)
limited_example =
    limited plain two_at_most 2 (some (λ message. some "planner")) no_profile
      (("user", "hello") ∷ []) three_tools refl
