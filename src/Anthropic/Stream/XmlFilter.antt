-- ===== src/Anthropic/Stream/XmlFilter.antt =====
-- src/anthropic/stream.rs: `ToolUseXmlLeakFilter`, which takes `<tool_use …> … </tool_use>` out of a
-- text that arrives in pieces; with `strip_tool_use_xml_leaks` of
-- src/kiro/model/events/assistant.rs, which does so for a whole text.
pub mod Rounds
pub mod Plain
use kiro_rs_tool.Prelude.{
  ℕ, zero, suc, ◌+◌, ◌-◌, ◌≡◌, refl, Bool, true, false, not, ◌&&◌, ◌||◌, Option, none, some, List,
  [], ◌∷◌, ◌++◌, if◌then◌else◌, length, take, drop, min,
}
use kiro_rs_tool.Prelude.Text.{codes}
use kiro_rs_tool.Prelude.Search.{is_prefix}
use kiro_rs_tool.Prelude.Chars.{is_whitespace, trim, find_text, find_char}

abbrev pub tool_use_xml_prefix : List ℕ
tool_use_xml_prefix = codes "<tool_use"

abbrev pub tool_use_xml_close : List ℕ
tool_use_xml_close = codes "</tool_use>"

pub record ToolUseXmlLeakFilter : Type 0 where
  pub buffer : List ℕ
  pub stripping : Bool

unfoldable pub new : ToolUseXmlLeakFilter
new = record { buffer = []; stripping = false }

-- `suffix.is_empty() || suffix.starts_with(char::is_whitespace)`
abbrev pub ends_name : List ℕ → Bool
ends_name [] = true
ends_name (c ∷ cs) = is_whitespace c

-- The name of the tag is `tool_use`, and not the start of a longer one.
unfoldable pub is_tool_use_head : List ℕ → Bool
is_tool_use_head tag_head = ends_name (drop (length tool_use_xml_prefix) tag_head)

unfoldable pub is_potential_tool_use_tag_start : List ℕ → Bool
unfolding is_tool_use_head is_prefix
is_potential_tool_use_tag_start s = is_prefix s tool_use_xml_prefix || is_tool_use_head s

unfoldable pub longest_from : ℕ → List ℕ → ℕ
longest_from zero s = 0
longest_from (suc n) s =
    let shorter = longest_from n s in
    if is_prefix (drop (length s - suc n) s) tool_use_xml_prefix then suc n else shorter

-- The length of the longest end of the text that starts the tag without being all of its name.
unfoldable pub longest_tool_use_prefix_suffix : List ℕ → ℕ
unfolding longest_from is_prefix
longest_tool_use_prefix_suffix s = longest_from (min (length s) (length tool_use_xml_prefix - 1)) s

-- What a round of the loop of `filter` does: return what has been put out and the filter, or go on
-- with the rest.
pub data Round : Type 0 where
  return : List ℕ → ToolUseXmlLeakFilter → Round
  continue : Bool → List ℕ → List ℕ → Round

abbrev pub wait_for_close : List ℕ → Round
wait_for_close out = return out (record { buffer = []; stripping = true })

unfoldable pub after_close : Option (List ℕ × List ℕ) → List ℕ → Round
after_close none out = wait_for_close out
after_close (some (inside, from)) out = continue false (drop (length tool_use_xml_close) from) out

-- A text that only looks like the tag: the prefix is put out.
unfoldable pub pass_prefix : List ℕ → List ℕ → Round
pass_prefix after_start out =
    continue false (drop (length tool_use_xml_prefix) after_start) (out ++ tool_use_xml_prefix)

unfoldable pub at_open : Option (List ℕ × List ℕ) → List ℕ → List ℕ → Round
unfolding pass_prefix after_close is_tool_use_head is_potential_tool_use_tag_start find_text
at_open none after_start out =
    if is_potential_tool_use_tag_start after_start
    then wait_for_close out
    else pass_prefix after_start out
at_open (some (tag_head, from)) after_start out =
    if is_tool_use_head tag_head
    then after_close (find_text tool_use_xml_close (drop 1 from)) out
    else pass_prefix after_start out

unfoldable pub keep_end : List ℕ → List ℕ → Round
unfolding longest_tool_use_prefix_suffix
keep_end rest out =
    let emit_len = length rest - longest_tool_use_prefix_suffix rest in
    return (out ++ take emit_len rest) (record { buffer = drop emit_len rest; stripping = false })

unfoldable pub at_start : Option (List ℕ × List ℕ) → List ℕ → List ℕ → Round
unfolding at_open keep_end
at_start none rest out = keep_end rest out
at_start (some (before, after_start)) rest out =
    at_open (find_char b'>' after_start) after_start (out ++ before)

unfoldable pub round : Bool → List ℕ → List ℕ → Round
unfolding after_close at_start find_text
round true rest out = after_close (find_text tool_use_xml_close rest) out
round false rest out = at_start (find_text tool_use_xml_prefix rest) rest out

-- The loop of `filter`. A round that goes on takes nine characters or more off the rest
-- (XmlFilter/Rounds.antt), so that one more than its length is enough fuel.
unfoldable pub rounds : ℕ → Round → List ℕ × ToolUseXmlLeakFilter
unfolding round
rounds fuel (return out f) = (out, f)
rounds zero (continue stripping rest out) = (out, record { buffer = rest; stripping = stripping })
rounds (suc fuel) (continue stripping rest out) = rounds fuel (round stripping rest out)

unfoldable pub filter : ToolUseXmlLeakFilter → List ℕ → List ℕ × ToolUseXmlLeakFilter
unfolding rounds
filter f content =
    let rest = f.buffer ++ content in rounds (suc (length rest)) (continue f.stripping rest [])

-- `strip_tool_use_xml_leaks` before its `trim`. The loop is that of `filter`, but for a tag that does
-- not end, behind which nothing is left.
unfoldable pub strip_open : Option (List ℕ × List ℕ) → List ℕ → List ℕ → Round
unfolding at_open
strip_open none after_start out = wait_for_close out
strip_open (some p) after_start out = at_open (some p) after_start out

unfoldable pub strip_round : List ℕ → List ℕ → Round
unfolding strip_open find_text
strip_round rest out = elim (find_text tool_use_xml_prefix rest) [
  | none ↦ return (out ++ rest) new
  | some (before, after_start) ↦ strip_open (find_char b'>' after_start) after_start (out ++ before)
]

unfoldable pub strip_rounds : ℕ → Round → List ℕ
unfolding strip_round
strip_rounds fuel (return out f) = out
strip_rounds zero (continue stripping rest out) = out
strip_rounds (suc fuel) (continue stripping rest out) = strip_rounds fuel (strip_round rest out)

unfoldable pub strip_tool_use_xml_leaks : List ℕ → List ℕ
unfolding strip_rounds trim
strip_tool_use_xml_leaks content =
    trim (strip_rounds (suc (length content)) (continue false content []))

unfoldable pub is_empty : List ℕ → Bool
is_empty [] = true
is_empty (c ∷ cs) = false

unfoldable pub finish : ToolUseXmlLeakFilter → List ℕ × ToolUseXmlLeakFilter
unfolding strip_tool_use_xml_leaks is_empty new
finish f = (if is_empty f.buffer then [] else strip_tool_use_xml_leaks f.buffer, new)

-- The source's own tests of `strip_tool_use_xml_leaks`.
strip_test :
    strip_tool_use_xml_leaks
      (codes "before\n<tool_use id=\"toolu_1\" name=\"Read\">\n{}\n</tool_use>\nafter")
    ≡ codes "before\n\nafter"
unfolding strip_tool_use_xml_leaks find_text is_prefix is_whitespace
strip_test = refl

similar_test :
    strip_tool_use_xml_leaks (codes "use <tool_user> as an example")
    ≡ codes "use <tool_user> as an example"
unfolding strip_tool_use_xml_leaks find_text is_prefix is_whitespace
similar_test = refl

filter_test :
    filter new (codes "a <tool_use id=1>x</tool_use> b <tool")
    ≡ (codes "a  b ", record { buffer = codes "<tool"; stripping = false })
unfolding filter new is_prefix is_whitespace
filter_test = refl
