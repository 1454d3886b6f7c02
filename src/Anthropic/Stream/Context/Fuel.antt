-- ===== src/Anthropic/Stream/Context/Fuel.antt =====
-- src/anthropic/stream.rs: how often the loop of `process_content_with_thinking` goes round.
use kiro_rs_tool.Prelude.{◌≡◌, true, not, ◌&&◌}
use kiro_rs_tool.Anthropic.Stream.Context.{StreamContext, Emit}
use kiro_rs_tool.Anthropic.Stream.Context.Thought.{Property}

-- Two methods do the same in every state with a property.
Agree : Property → Emit → Emit → Type 0
Agree P f g = (c : StreamContext) → P c ≡ true → f c ≡ g c

abbrev is_inside : Property
is_inside c = c.in_thinking_block

abbrev is_behind : Property
is_behind c = not c.in_thinking_block && c.thinking_extracted

-- A method that always ends in such a state can be followed by either.
Leads : Emit → Property → Type 0
Leads h P = (c : StreamContext) → P (h c).1 ≡ true
