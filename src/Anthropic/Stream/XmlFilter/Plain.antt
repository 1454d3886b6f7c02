-- ===== src/Anthropic/Stream/XmlFilter/Plain.antt =====
-- src/anthropic/stream.rs: a text without the tag goes through the filter as it is.
use kiro_rs_tool.Prelude.{
  ℕ, zero, suc, ◌-◌, ◌≤◌, ◌≡◌, refl, sym, ap, ◌∙◌, Bool, true, false, none, List, [], ◌∷◌, ◌++◌,
  append_assoc, append-nil, arith, length, drop, take, min, Bool-cases, inl, inr, subst, take_self,
}
use kiro_rs_tool.Prelude.Search.{is_prefix}
use kiro_rs_tool.Prelude.Chars.{find_text, is_whitespace}
use kiro_rs_tool.Prelude.Chars.Find.{
  is_prefix-length, is_prefix-take, find_text-none_left, find_text-none_right, take-drop,
}
use kiro_rs_tool.Anthropic.Stream.XmlFilter.{
  ToolUseXmlLeakFilter, new, tool_use_xml_prefix, longest_from, longest_tool_use_prefix_suffix,
  keep_end, at_start, round, rounds, filter, finish,
}
use kiro_rs_tool.Anthropic.Stream.XmlFilter.Rounds.{filter_pieces}

drop_all : (xs : List ℕ) → ◌≡◌ {A = List ℕ} (drop (length xs) xs) []
drop_all [] = refl
drop_all (x ∷ xs) = drop_all xs

-- What is kept is a start of the tag.
longest_from-is_prefix :
    (n : ℕ) (s : List ℕ)
    → is_prefix (drop (length s - longest_from n s) s) tool_use_xml_prefix ≡ true
unfolding longest_from is_prefix
longest_from-is_prefix zero s =
    let whole : length s - 0 ≡ length s = omega arith in rw (whole, drop_all s) refl
longest_from-is_prefix (suc n) s =
    elim (Bool-cases (is_prefix (drop (length s - suc n) s) tool_use_xml_prefix)) [
      | inl starts ↦ rw starts starts
      | inr misses ↦ rw misses (longest_from-is_prefix n s)
    ]

-- What a text without the tag leaves: it is put out but for its end, which is a start of the tag.
record Keeps (before after : List ℕ) (f : ToolUseXmlLeakFilter) : Type 0 where
  not_stripping : f.stripping ≡ false
  is_start : is_prefix f.buffer tool_use_xml_prefix ≡ true
  whole : after ++ f.buffer ≡ before

round-plain :
    (stripping : Bool) (rest out : List ℕ)
    → stripping ≡ false
    → find_text tool_use_xml_prefix rest ≡ none
    → round stripping rest out ≡ keep_end rest out
unfolding round at_start
round-plain true rest out on h = cc
round-plain false rest out on h = rw h refl

keep_end-Keeps :
    (fuel : ℕ) (rest : List ℕ)
    → Keeps rest (rounds fuel (keep_end rest [])).0 (rounds fuel (keep_end rest [])).1
unfolding rounds keep_end longest_tool_use_prefix_suffix
keep_end-Keeps fuel rest = record {
  not_stripping = refl;
  is_start = longest_from-is_prefix (min (length rest) 8) rest;
  whole = take-drop (length rest - longest_from (min (length rest) 8) rest) rest;
}

filter-Keeps :
    (f : ToolUseXmlLeakFilter) (piece : List ℕ)
    → f.stripping ≡ false
    → find_text tool_use_xml_prefix (f.buffer ++ piece) ≡ none
    → Keeps (f.buffer ++ piece) (filter f piece).0 (filter f piece).1
unfolding filter rounds
filter-Keeps f piece on h =
    let rest : List ℕ = f.buffer ++ piece in
    subst (λ r. Keeps rest (rounds (length rest) r).0 (rounds (length rest) r).1)
      (sym (round-plain f.stripping rest [] on h)) (keep_end-Keeps (length rest) rest)

unfoldable pub concat : List (List ℕ) → List ℕ
concat [] = []
concat (piece ∷ pieces) = piece ++ concat pieces

pieces-Keeps :
    (pieces : List (List ℕ)) (f : ToolUseXmlLeakFilter)
    → f.stripping ≡ false
    → is_prefix f.buffer tool_use_xml_prefix ≡ true
    → find_text tool_use_xml_prefix (f.buffer ++ concat pieces) ≡ none
    → Keeps (f.buffer ++ concat pieces) (filter_pieces f pieces).0 (filter_pieces f pieces).1
unfolding filter_pieces concat
pieces-Keeps [] f on start h = record {
  not_stripping = on;
  is_start = start;
  whole = sym (append-nil f.buffer);
}
pieces-Keeps (piece ∷ pieces) f on start h =
    let h' : find_text tool_use_xml_prefix ((f.buffer ++ piece) ++ concat pieces) ≡ none =
      rw append_assoc h in
    let k =
      filter-Keeps f piece on
        (find_text-none_left tool_use_xml_prefix (f.buffer ++ piece) (concat pieces) h') in
    let (out, f') = filter f piece in
    let split : out ++ (f'.buffer ++ concat pieces) ≡ f.buffer ++ (piece ++ concat pieces) =
      sym (append_assoc out f'.buffer (concat pieces))
      ∙ ap (λ t. t ++ concat pieces) k.whole
      ∙ append_assoc f.buffer piece (concat pieces) in
    let later =
      pieces-Keeps pieces f' k.not_stripping k.is_start
        (find_text-none_right tool_use_xml_prefix out (f'.buffer ++ concat pieces) (rw split h)) in
    record {
      not_stripping = later.not_stripping;
      is_start = later.is_start;
      whole =
          append_assoc out (filter_pieces f' pieces).0 (filter_pieces f' pieces).1.buffer
          ∙ ap (λ t. out ++ t) later.whole
          ∙ split;
    }

-- A start of the tag that is not all of it holds no blanks, so that `finish` gives it back.
finish_table :
    (n : ℕ) (stripping : Bool)
    → find_text tool_use_xml_prefix (take n tool_use_xml_prefix) ≡ none
    → n ≤ 9
    → (finish (record { buffer = take n tool_use_xml_prefix; stripping = stripping })).0
      ≡ take n tool_use_xml_prefix
unfolding finish is_prefix is_whitespace find_text
finish_table zero stripping h le = refl
finish_table (suc zero) stripping h le = refl
finish_table (suc (suc zero)) stripping h le = refl
finish_table (suc (suc (suc zero))) stripping h le = refl
finish_table (suc (suc (suc (suc zero)))) stripping h le = refl
finish_table (suc (suc (suc (suc (suc zero))))) stripping h le = refl
finish_table (suc (suc (suc (suc (suc (suc zero)))))) stripping h le = refl
finish_table (suc (suc (suc (suc (suc (suc (suc zero))))))) stripping h le = refl
finish_table (suc (suc (suc (suc (suc (suc (suc (suc zero)))))))) stripping h le = refl
finish_table (suc (suc (suc (suc (suc (suc (suc (suc (suc zero))))))))) stripping h le = cc
finish_table (suc (suc (suc (suc (suc (suc (suc (suc (suc (suc n)))))))))) stripping h le =
    absurd (omega arith)

finish_start :
    (b : List ℕ) (stripping : Bool)
    → is_prefix b tool_use_xml_prefix ≡ true
    → find_text tool_use_xml_prefix b ≡ none
    → (finish (record { buffer = b; stripping = stripping })).0 ≡ b
finish_start b stripping start h =
    let cut : take (length b) tool_use_xml_prefix ≡ b =
      ap (take (length b)) (is_prefix-take b tool_use_xml_prefix start) ∙ take_self b _ in
    subst (λ t. (finish (record { buffer = t; stripping = stripping })).0 ≡ t) cut
      (finish_table (length b) stripping
        (subst (λ t. find_text tool_use_xml_prefix t ≡ none) (sym cut) h)
        (is_prefix-length b tool_use_xml_prefix start))

-- A text without `<tool_use` comes out of the filter as it went in, however it is cut into pieces:
-- what is put out for the pieces, with what `finish` adds at the end, is the text.
pub filter_pieces_plain :
    (pieces : List (List ℕ))
    → find_text tool_use_xml_prefix (concat pieces) ≡ none
    → let (out, last) = filter_pieces new pieces in out ++ (finish last).0 ≡ concat pieces
unfolding new
filter_pieces_plain pieces h =
    let k = pieces-Keeps pieces new refl (unfold is_prefix in refl) h in
    let (out, last) = filter_pieces new pieces in
    ap (λ t. out ++ t)
      (finish_start last.buffer last.stripping k.is_start
        (find_text-none_right tool_use_xml_prefix out last.buffer (rw k.whole h)))
    ∙ k.whole
