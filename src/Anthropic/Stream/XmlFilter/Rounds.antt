-- ===== src/Anthropic/Stream/XmlFilter/Rounds.antt =====
-- src/anthropic/stream.rs: the loop of `filter` ends, and what it does once it waits for the end tag.
use kiro_rs_tool.Prelude.{ℕ, ◌<◌, ◌≡◌, refl, true, none, List, [], ◌∷◌, ◌++◌, length, All}
use kiro_rs_tool.Prelude.Chars.{find_text}
use kiro_rs_tool.Anthropic.Stream.XmlFilter.{
  ToolUseXmlLeakFilter, tool_use_xml_close, Round, return, continue, after_close, round, rounds,
  filter,
}

-- A round that goes on leaves less than it was given.
abbrev Shrinks : ℕ → Round → Type 0
Shrinks n (return out f) = Unit
Shrinks n (continue stripping rest out) = length rest < n

-- A text that comes in pieces: all that is put out, and the filter after the last piece.
unfoldable pub filter_pieces : ToolUseXmlLeakFilter → List (List ℕ) → List ℕ × ToolUseXmlLeakFilter
filter_pieces f [] = ([], f)
filter_pieces f (piece ∷ pieces) =
    let (out, f') = filter f piece in
    let (outs, last) = filter_pieces f' pieces in (out ++ outs, last)

-- A filter that waits for the end tag.
abbrev pub waiting : ToolUseXmlLeakFilter
waiting = record { buffer = []; stripping = true }

filter-waiting :
    (piece : List ℕ)
    → find_text tool_use_xml_close piece ≡ none
    → filter waiting piece ≡ ([], waiting)
unfolding filter rounds round after_close
filter-waiting piece h = rw h refl

-- While the filter waits for the end tag, pieces none of which holds a whole end tag are dropped
-- and it goes on waiting, also where the end tag stands across two of them: the text behind such an
-- end tag is lost.
pub filter_pieces-waiting :
    (pieces : List (List ℕ))
    → All (λ piece. find_text tool_use_xml_close piece ≡ none) pieces
    → filter_pieces waiting pieces ≡ ([], waiting)
unfolding filter_pieces
filter_pieces-waiting [] h = refl
filter_pieces-waiting (piece ∷ pieces) h =
    rw (filter-waiting piece h.0) (filter_pieces-waiting pieces h.1)
