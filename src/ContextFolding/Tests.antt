-- ===== src/ContextFolding/Tests.antt =====
-- plugins/contextfolding: folding a concrete conversation.
use argis_extensions.Prelude.{
  ◌<◌, ◌≡◌, refl, String, none, some, List, [], ◌∷◌, ◌++◌, length, drop, arith,
}
use argis_extensions.Prelude.Int.{pos}
use argis_extensions.Prelude.Float.{micros}
use argis_extensions.ContextFolding.{
  Chats, FoldingConfig, default_folding_config, raw_only, truncate_to_fit, pre_hook_fold,
  total_tokens, estimate_tokens,
}
use argis_extensions.ContextFolding.Fits.{
  IsFitting, IsSome, IsFull, truncated_suffix, fitting_truncated,
}
use argis_extensions.ContextFolding.Summaries.{default_drops}

-- A message is a role and a text.
abbrev plain : Chats
plain = record {
  Message = String × String;
  role = λ m. m.0;
  content_str = λ m. some m.1;
  system_message = λ text. ("system", text);
}

abbrev talk : List (String × String)
talk =
    ("user", "eight ch")
    ∷ ("assistant", "eight ch")
    ∷ ("user", "eight ch")
    ∷ ("assistant", "eight ch")
    ∷ []

truncated_suffix_example :
    (dropped : List (String × String)) × (talk ≡ dropped ++ truncate_to_fit plain talk 5)
    × IsFitting plain 5 (truncate_to_fit plain talk 5)
    × IsSome plain talk (truncate_to_fit plain talk 5)
    × IsFull plain 5 dropped (truncate_to_fit plain talk 5)
truncated_suffix_example = truncated_suffix plain talk 5

abbrev small : FoldingConfig micros
small = record (default_folding_config micros) {
  max_context_tokens = pos 20;
  reserve_output_tokens = pos 6;
  system_prompt_tokens = pos 4;
}

fitting_truncated_example : length (pre_hook_fold plain none small (some raw_only) talk) < 4
unfolding total_tokens estimate_tokens
fitting_truncated_example =
    fitting_truncated plain none small 10 talk refl (omega arith) (omega arith) (omega arith)

default_drops_example :
    (pre_hook_fold plain none (default_folding_config micros) none talk ≡ drop 1 talk)
    × (length (drop 1 talk) ≡ 3)
default_drops_example = default_drops plain micros talk (omega arith)
