-- ===== src/Tests/CacheMetering.antt =====
-- src/anthropic/cache_metering.rs: a conversation of two turns, and the theorems at work on it.
use kiro_rs_tool.Prelude.{
  ℕ, ◌+◌, ◌*◌, ◌≤◌, ◌≡◌, refl, none, some, List, [], ◌∷◌, arith, inl, length, true, false,
}
use kiro_rs_tool.Prelude.Int.{pos}
use kiro_rs_tool.Prelude.Text.{codes, decimal}
use kiro_rs_tool.Anthropic.Json.{get_field, string, array, no_items, item, object, field, no_fields}
use kiro_rs_tool.Anthropic.Request.{Message, MessagesRequest}
use kiro_rs_tool.ImageResize.Limits.{Codec, ResizeConfig, jpeg}
use kiro_rs_tool.Anthropic.CacheMetering.{Inner}
use kiro_rs_tool.Anthropic.CacheMetering.Signature.{is_image, block_token_text}
use kiro_rs_tool.Anthropic.Stream.Tokens.{estimate_tokens}
use kiro_rs_tool.Anthropic.CacheMetering.Split.{Shares, not_negative, split_against_total}
use kiro_rs_tool.Anthropic.CacheMetering.Capacity.{recorded, expired, run, run_bounded}
use kiro_rs_tool.Anthropic.CacheMetering.Segments.{Crates, extract_segments}
use kiro_rs_tool.Anthropic.CacheMetering.Seed.{isolation_seed}
use kiro_rs_tool.Anthropic.CacheMetering.Plan.{compute_cache_usage, commit_success}
use kiro_rs_tool.Anthropic.CacheMetering.Bounds.{IsWithin, compute_cache_usage-IsWithin}
use kiro_rs_tool.Anthropic.CacheMetering.Turn.{next_turn_reads}

abbrev codec : Codec ℕ
codec = record {
  decode_base64 = λ text. inl text;
  encode_base64 = λ bytes. bytes;
  guess_from_bytes = λ bytes. some jpeg;
  dimensions = λ format bytes. some (750, 2);
  decode = λ format bytes. inl 750;
  width = λ picture. picture;
  height = λ picture. 2;
  resize = λ picture w h. w;
  encode_jpeg = λ picture quality. inl [];
  scale_side = λ side long longest. side;
  four_fifths = λ side. side;
  area_tokens = λ w h. 2;
}

abbrev image_config : ResizeConfig
image_config = record {
  enabled = true;
  max_long_side = 1568;
  max_bytes = 400000;
  jpeg_quality = 85;
  max_base64_bytes = 8388608;
  max_decoded_bytes = 6291456;
  max_pixels = 40000000;
}

-- The sum of the codes stands for the hash.
abbrev sum : List ℕ → ℕ
sum [] = 0
sum (c ∷ cs) = c + 2 * sum cs

abbrev crates : Crates ℕ
crates = record {
  print_json = λ value. codes "{}";
  hash_prefix = sum;
  codec = codec;
  image_config = image_config;
}

abbrev shares : Shares
shares = record {
  covered_part = λ total covered prompt. covered;
  read_part = λ covered read est. read;
}

abbrev question : Message
question = record { role = codes "user"; content = string (codes "Why is the sky blue?") }

abbrev reply : Message
reply = record {
  role = codes "assistant";
  content = array (
      item
        (object
          (field "type" (string (codes "text")) (field "text" (string (codes "Air.")) no_fields)))
        no_items);
}

abbrev request : MessagesRequest
request = record {
  messages = [];
  system = some (record { text = codes "Be brief."; cache_control = none } ∷ []);
  tools = none;
  metadata = none;
}

abbrev empty : Inner
empty = record { entries = []; dirty = false }

abbrev first_turn : MessagesRequest
first_turn = record request { messages = question ∷ reply ∷ [] }

abbrev second_turn : MessagesRequest
second_turn = record request { messages = question ∷ reply ∷ question ∷ [] }

first_covers :
    not_negative (compute_cache_usage crates empty 100 first_turn 7).0.usage.cache_covered_est ≡ 8
unfolding compute_cache_usage extract_segments get_field is_image block_token_text estimate_tokens
    decimal
first_covers = refl

first_segments : length (extract_segments crates first_turn 7).0 ≡ 2
unfolding extract_segments get_field is_image block_token_text estimate_tokens decimal
first_segments = refl

second_total : (extract_segments crates second_turn 7).1 ≡ 14
unfolding extract_segments get_field is_image block_token_text estimate_tokens decimal
second_total = refl

run_bounded_example :
    length (run ((100, recorded (1 ∷ 2 ∷ []) (5 ∷ 9 ∷ []) 300) ∷ (150, expired) ∷ []) empty).entries
    ≤ 4096
run_bounded_example =
    run_bounded ((100, recorded (1 ∷ 2 ∷ []) (5 ∷ 9 ∷ []) 300) ∷ (150, expired) ∷ []) empty
      (omega arith)

compute_cache_usage-IsWithin_example :
    let usage = (compute_cache_usage crates empty 100 second_turn 7).0.usage in
    let (input, creation, read) = split_against_total shares usage (pos 50) in
    IsWithin usage × (input + creation + read ≡ 50)
compute_cache_usage-IsWithin_example =
    compute_cache_usage-IsWithin crates shares empty 100 second_turn 7 (pos 50)
      (omega (arith, second_total))

next_turn_reads_example :
    let plan = (compute_cache_usage crates empty 100 first_turn 7).0 in
    let next_plan =
      (compute_cache_usage crates (commit_success plan empty 110) 200 second_turn 7).0 in
    not_negative plan.usage.cache_covered_est ≤ not_negative next_plan.usage.cache_read
unfolding isolation_seed decimal
next_turn_reads_example =
    next_turn_reads crates request (question ∷ []) reply question [] 7 (codes "key:7") empty empty
      100 110 200 refl (omega (arith, first_segments)) (omega arith) (omega (arith, second_total))
