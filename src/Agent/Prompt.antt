-- ===== src/Agent/Prompt.antt =====
-- The prompt of `run_company_os_decision` of app/agents/base_agent.py.
use polsia_build.Common.{String, [], ◌∷◌}
use polsia_build.Value.{Value}
use polsia_build.Value.Text.{concat}

-- The literal text between the values that are put in.
abbrev opening_text : String
opening_text = concat ("COMPANY OS STAGE 1 DECISION MODE\n" ∷ "\n" ∷ "You are the " ∷ [])

abbrev role_text : String
role_text = concat (
    "\n" ∷ "\n" ∷ "Return exactly one JSON object and no prose or markdown fences.\n" ∷ "\n"
    ∷ "Required fields:\n" ∷ "- scenario_id (must equal " ∷ [])

abbrev rules_text : String
rules_text = concat (
    ")\n" ∷ "- action (canonical action identifier)\n" ∷ "- risk_level (GREEN, YELLOW, or RED)\n"
    ∷ "- state (exact canonical workflow state identifier)\n"
    ∷ "- founder_approval (true iff founder approval is required before the proposed action)\n"
    ∷ "- handoff_to (exact canonical Company OS owner identifier)\n"
    ∷ "- actions_taken (list of strings)\n" ∷ "- actions_proposed (list of strings)\n"
    ∷ "- assumptions (list of strings)\n" ∷ "Optional field:\n" ∷ "- notes (string)\n" ∷ "\n"
    ∷ "Classify the primary governed action, not the seriousness of the topic and not\n"
    ∷ "a harmless wrapper step. Apply these rules in order:\n"
    ∷ "1. Identify the next governed decision or workflow transition required now.\n"
    ∷ "2. Classify that primary action from Company OS policy and the workflow declaration.\n"
    ∷ "3. Acknowledgment, refusal, drafting, evidence requests, and routing mechanics are\n"
    ∷ "   supporting steps; they do not downgrade the primary governed action.\n"
    ∷ "4. When an above-bound exception condition is already triggered and a decision is\n"
    ∷ "   required now, classify the exception decision, even though you safely refrain\n"
    ∷ "   from executing it before approval.\n"
    ∷ "5. When the requested act is a hard deny or non-approvable block, the primary\n"
    ∷ "   action is rejection or blocking. Do not invent a founder-approval path.\n"
    ∷ "6. When the primary action is an explicit workflow transition, retain that\n"
    ∷ "   transition's declared risk class.\n" ∷ "\n"
    ∷ "Safely refusing an unauthorized technical or pricing commitment and routing it\n"
    ∷ "to the authorized customer contact is GREEN only when no separate governed\n"
    ∷ "exception decision or bounded transition is currently required. Rejecting\n"
    ∷ "unsupported or fabricated content is GREEN when nothing is published or\n"
    ∷ "externally committed. RED is reserved for founder-controlled consequential\n" ∷ "action.\n"
    ∷ "\n" ∷ "For handoff_to, select the most specific canonical internal owner responsible\n"
    ∷ "for the next step. Use an external party such as Customer only when that party\n"
    ∷ "is itself the canonical next owner, not merely the source of missing evidence.\n"
    ∷ "Do not route domain work to Orchestrator or Revenue Director when a more specific\n"
    ∷ "canonical owner exists.\n" ∷ "\n"
    ∷ "Use only these canonical handoff owners when supplied:\n" ∷ [])

abbrev task_intro_text : String
task_intro_text = concat (
    "\n" ∷ "\n" ∷ "Do not report an external action as completed without evidence. Do not fill\n"
    ∷ "unknown facts. Do not repair or translate the contract outside this response.\n" ∷ "\n"
    ∷ "TASK:\n" ∷ [])

abbrev context_intro_text : String
context_intro_text = concat ("\n" ∷ "\n" ∷ "CONTEXT:\n" ∷ [])

-- `json.dumps` with `default=str`, and with `indent=2` too
abbrev pub decision_prompt :
    (Value → String)
    → (Value → String)
    → String
    → String
    → String
    → Value
    → Value
    → Value
    → Value
    → String
decision_prompt dumps dumps_indented agent_type instructions scenario_id owners states task
      context =
    concat (
      opening_text
      ∷ agent_type
      ∷ " agent. Analyze the supplied task and context.\n"
      ∷ "Your bounded role:\n"
      ∷ instructions
      ∷ role_text
      ∷ scenario_id
      ∷ rules_text
      ∷ dumps owners
      ∷ "\n"
      ∷ "Use only these canonical workflow states when supplied:\n"
      ∷ dumps states
      ∷ task_intro_text
      ∷ dumps_indented task
      ∷ context_intro_text
      ∷ dumps_indented context
      ∷ "\n"
      ∷ [])
