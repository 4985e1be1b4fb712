-- ===== src/Router.antt =====
-- plugins/intelligentrouter: the classes of tasks, the texts that the heuristics look for, and the
-- models they lead to. A task type is a string, as in the source.
pub mod ArchRouter
pub mod RouteLlm
pub mod Semantic
pub mod Candidates
pub mod Mirt
pub mod Decision
mod Tests
use argis_extensions.Prelude.{
  String, Bool, true, false, Option, none, some, List, [], ◌∷◌, ltb, ◌&&◌, if◌then◌else◌,
}
use text.Mathlib.Text.{find?}
use Prim.Native.String.{len}

abbrev pub task_type_tool_call : String
task_type_tool_call = "tool_call"

abbrev pub task_type_code_gen : String
task_type_code_gen = "code_generation"

abbrev pub task_type_reasoning : String
task_type_reasoning = "reasoning"

abbrev pub task_type_default : String
task_type_default = "default"

-- `strings.Contains(s, part)`.
unfoldable pub has_part : String → String → Bool
has_part s part = elim (find? s part) [ none ↦ false | some at ↦ true ]

-- The router's own test, which compares no characters.
unfoldable pub contains_string : String → String → Bool
contains_string s substr = ltb 0 (len s) && ltb 0 (len substr)

-- A loop over texts that stops at the first one the prompt has.
unfoldable pub mentions : String → List String → Bool
mentions prompt [] = false
mentions prompt (w ∷ words) =
    let rest = mentions prompt words in if contains_string prompt w then true else rest
