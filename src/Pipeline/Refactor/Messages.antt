-- ===== src/Pipeline/Refactor/Messages.antt =====
-- The texts that the runner sends to the language model.
use refactor_tradeoffs.Base.{[], ◌∷◌, Str, codes, concat}
use refactor_tradeoffs.Globals.{AiType, traditional, agent, ExperimentType, passive, active}

unfoldable pub system_prompt_passive : Str → Str → Str
unfolding concat
system_prompt_passive language_name language_extension = concat (
    codes "You are a green software expert. "
    ∷ codes "You will be given a "
    ∷ language_name
    ∷ codes " source file and asked "
    ∷ codes "to refactor a specific function for energy efficiency. "
    ∷ codes "Return ONLY the refactored function definition, enclosed in a "
    ∷ codes "```"
    ∷ language_extension
    ∷ codes " code block. "
    ∷ codes "Do not change the function's name, parameters, or return type. "
    ∷ codes "Do not include any explanation outside the code block."
    ∷ [])

unfoldable pub system_prompt_active : Str → Str → Str
unfolding concat
system_prompt_active language_name language_extension = concat (
    codes "You are an expert "
    ∷ language_name
    ∷ codes " developer. "
    ∷ codes "You will be given a "
    ∷ language_name
    ∷ codes " source file and a "
    ∷ codes "SonarQube issue to fix. "
    ∷ codes "Return ONLY the corrected function definition, enclosed in a "
    ∷ codes "```"
    ∷ language_extension
    ∷ codes " code block. "
    ∷ codes "Do not change the function's name, parameters, or return type. "
    ∷ codes "Do not include any explanation outside the code block."
    ∷ [])

unfoldable pub system_prompt : ExperimentType → Str → Str → Str
unfolding system_prompt_passive system_prompt_active
system_prompt active = system_prompt_active
system_prompt passive = system_prompt_passive

unfoldable pub syntax_feedback : AiType → Str → Str → Str
unfolding concat
syntax_feedback traditional language_extension check_output = concat (
    codes "The code you returned has a syntax error. Fix it "
    ∷ codes "and return only the corrected function in a "
    ∷ codes "```"
    ∷ language_extension
    ∷ codes " code "
    ∷ codes "block.\n\nError:\n"
    ∷ check_output
    ∷ [])
syntax_feedback agent language_extension check_output = concat (
    codes "The file you wrote has a syntax error:\n\nError:\n"
    ∷ check_output
    ∷ codes "\n\nFix it."
    ∷ [])

unfoldable pub correctness_feedback : AiType → Str → Str → Str
unfolding concat
correctness_feedback traditional language_extension test_output = concat (
    codes "The refactored function caused test failures. Fix it "
    ∷ codes "and return only the corrected function in a "
    ∷ codes "```"
    ∷ language_extension
    ∷ codes " code "
    ∷ codes "block.\n\nTest output:\n"
    ∷ test_output
    ∷ [])
correctness_feedback agent language_extension test_output = concat (
    codes "The tests failed after your changes:\n\nTest output:\n"
    ∷ test_output
    ∷ codes "\n\nFix it."
    ∷ [])

-- The first message of the traditional type, with the file for context.
unfoldable pub initial_message : Str → Str → Str → Str
unfolding concat
initial_message language_extension file_source task = concat (
    codes "Full source file for context:\n\n```"
    ∷ language_extension
    ∷ codes "\n"
    ∷ file_source
    ∷ codes "\n```\n\n"
    ∷ task
    ∷ [])
