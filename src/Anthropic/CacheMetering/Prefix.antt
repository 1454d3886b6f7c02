-- ===== src/Anthropic/CacheMetering/Prefix.antt =====
-- src/anthropic/cache_metering.rs: the chain of a conversation and that of its next turn.
use kiro_rs_tool.Prelude.{
  ℕ, ◌+◌, ◌<◌, ◌≡◌, refl, sym, ap, ◌∙◌, Bool, true, false, not, ◌&&◌, ◌||◌, List, [], ◌∷◌, ◌++◌,
  ◌==◌, if◌then◌else◌, length, arith, Bool-cases, inl, inr, append_assoc, append-nil, length-append,
}
use kiro_rs_tool.Anthropic.Request.{Message, MessagesRequest}
use kiro_rs_tool.Anthropic.CacheMetering.Seed.{detect_max_ttl}
use kiro_rs_tool.Anthropic.CacheMetering.Walk.{
  if_keeps, feed_message_keeps, feed_messages_keeps, feed_base_keeps,
}
use kiro_rs_tool.Anthropic.CacheMetering.Segments.{
  Segment, Crates, Chain, hash_text, count_tokens, push_segment, commit, feed_message,
  feed_messages, feed_base, feed_request, saturating_add,
}

-- What of a segment decides a hit, and the count for it.
abbrev pub mark : Segment → ℕ × ℕ
mark s = (s.hash, s.cumulative_tokens)

abbrev pub marks : List Segment → List (ℕ × ℕ)
marks [] = []
marks (s ∷ ss) = mark s ∷ marks ss

push_mark : ℕ × ℕ → List (ℕ × ℕ) → List (ℕ × ℕ)
push_mark s [] = s ∷ []
push_mark s (last ∷ []) = if last.0 == s.0 && last.1 == s.1 then last ∷ [] else last ∷ s ∷ []
push_mark s (first ∷ second ∷ rest) = first ∷ push_mark s (second ∷ rest)

marks-push_segment :
    (s : Segment) (ss : List Segment) → marks (push_segment s ss) ≡ push_mark (mark s) (marks ss)
unfolding push_segment push_mark
marks-push_segment s [] = refl
marks-push_segment s (l ∷ []) = ground arith
marks-push_segment s (a ∷ b ∷ ss) = ap (λ l. mark a ∷ l) (marks-push_segment s (b ∷ ss))

-- Chains that differ in times to live only.
record Same (c d : Chain) : Type 0 where
  hashers : c.hasher ≡ d.hasher
  caches : c.cache_tokens ≡ d.cache_tokens
  all_marks : marks c.segments ≡ marks d.segments

-- The marks of a chain are the first of those of another.
unfoldable pub Prefixes : List (ℕ × ℕ) → List (ℕ × ℕ) → Type 0
Prefixes xs ys = (more : List (ℕ × ℕ)) × (ys ≡ xs ++ more)

push_mark-Prefixes : (s : ℕ × ℕ) (ss : List (ℕ × ℕ)) → Prefixes ss (push_mark s ss)
unfolding push_mark Prefixes
push_mark-Prefixes s [] = (s ∷ [], refl)
push_mark-Prefixes s (l ∷ []) = elim (Bool-cases (l.0 == s.0 && l.1 == s.1)) [
  | inl same ↦ ([], rw same refl)
  | inr new ↦ (s ∷ [], rw new refl)
]
push_mark-Prefixes s (a ∷ b ∷ ss) =
    let (more, e) = push_mark-Prefixes s (b ∷ ss) in (more, ap (λ l. a ∷ l) e)

Prefixes-trans : (xs ys zs : List (ℕ × ℕ)) → Prefixes xs ys → Prefixes ys zs → Prefixes xs zs
unfolding Prefixes
Prefixes-trans xs ys zs (m, e) (n, f) = (m ++ n, f ∙ ap (λ l. l ++ n) e ∙ append_assoc xs m n)

Prefixes-refl : (xs : List (ℕ × ℕ)) → Prefixes xs xs
unfolding Prefixes
Prefixes-refl xs = ([], sym (append-nil xs))

hash_text-Prefixes :
    (b : Bool) (x : List ℕ) (ms : List (ℕ × ℕ)) (c : Chain)
    → Prefixes ms (marks c.segments)
    → Prefixes ms (marks (hash_text b x c).segments)
unfolding hash_text
hash_text-Prefixes true x ms c p = p
hash_text-Prefixes false x ms c p = p

count_tokens-Prefixes :
    (b : Bool) (n : ℕ) (ms : List (ℕ × ℕ)) (c : Chain)
    → Prefixes ms (marks c.segments)
    → Prefixes ms (marks (count_tokens b n c).segments)
unfolding count_tokens
count_tokens-Prefixes b n ms c p = p

hash_text-Same :
    (b : Bool) (x : List ℕ) (c d : Chain) → Same c d → Same (hash_text b x c) (hash_text b x d)
unfolding hash_text
hash_text-Same true x c d s = record {
  hashers = ap (λ h. h ++ x) s.hashers;
  caches = s.caches;
  all_marks = s.all_marks;
}
hash_text-Same false x c d s = s

count_tokens-Same :
    (b : Bool) (n : ℕ) (c d : Chain) → Same c d → Same (count_tokens b n c) (count_tokens b n d)
unfolding count_tokens
count_tokens-Same true n c d s = record {
  hashers = s.hashers;
  caches = ap (λ a. saturating_add a n) s.caches;
  all_marks = s.all_marks;
}
count_tokens-Same false n c d s = record {
  hashers = s.hashers;
  caches = s.caches;
  all_marks = s.all_marks;
}

module _ {Picture : Type 0} (k : Crates Picture) (e : Bool) where
  commit-Same : (s t : ℕ) (c d : Chain) → Same c d → Same (commit k e s c) (commit k e t d)
  unfolding commit
  commit-Same s t c d r = elim (Bool-cases (not e || c.cache_tokens == 0)) [
    | inl idle ↦
        let idle' : (not e || d.cache_tokens == 0) ≡ true = rw (← r.caches) idle in
        rw idle (rw idle' r)
    | inr busy ↦
        let busy' : (not e || d.cache_tokens == 0) ≡ false = rw (← r.caches) busy in
        rw busy (
          rw busy' (record {
            hashers = r.hashers;
            caches = r.caches;
            all_marks =
                marks-push_segment _ c.segments
                ∙ (λ i. push_mark (k.hash_prefix (r.hashers i), r.caches i) (r.all_marks i))
                ∙ sym (marks-push_segment _ d.segments);
          }))
  ]

  commit-Prefixes :
      (t : ℕ) (c : Chain) → Prefixes (marks c.segments) (marks (commit k e t c).segments)
  unfolding commit
  commit-Prefixes t c =
      let s : Segment = record {
        hash = k.hash_prefix c.hasher;
        cumulative_tokens = c.cache_tokens;
        ttl_secs = t;
      } in
      if_keeps (λ d _. Prefixes (marks c.segments) (marks d.segments))
        (not e || c.cache_tokens == 0) c _ c c (Prefixes-refl (marks c.segments))
        (rw (marks-push_segment s c.segments) (push_mark-Prefixes (mark s) (marks c.segments)))

  commit_keeps :
      (t : ℕ) (ms : List (ℕ × ℕ)) (c : Chain)
      → Prefixes ms (marks c.segments)
      → Prefixes ms (marks (commit k e t c).segments)
  commit_keeps t ms c p = Prefixes-trans ms _ _ p (commit-Prefixes t c)

  feed_messages-Prefixes :
      (t last_idx idx : ℕ) (ms : List Message) (c : Chain)
      → Prefixes (marks c.segments) (marks (feed_messages k e t last_idx idx ms c).segments)
  feed_messages-Prefixes t last_idx idx ms c =
      feed_messages_keeps k e t t (λ d _. Prefixes (marks c.segments) (marks d.segments))
        (λ b x d _. hash_text-Prefixes b x _ d) (λ b n d _. count_tokens-Prefixes b n _ d)
        (λ d _. commit_keeps t _ d) last_idx idx ms c c (Prefixes-refl (marks c.segments))

  feed_last :
      (t last_idx idx : ℕ) (m : Message) (c : Chain)
      → (idx == last_idx) ≡ true
      → feed_messages k e t last_idx idx (m ∷ []) c ≡ feed_message k e t m c
  unfolding feed_messages
  feed_last t last_idx idx m c ends = rw ends refl

  feed_more :
      (t last_idx idx : ℕ) (m : Message) (ms : List Message) (c : Chain)
      → (idx == last_idx) ≡ false
      → feed_messages k e t last_idx idx (m ∷ ms) c
        ≡ feed_messages k e t last_idx (idx + 1) ms (commit k e t (feed_message k e t m c))
  unfolding feed_messages
  feed_more t last_idx idx m ms c goes_on = rw goes_on refl

  -- The last message of a turn is followed by others in the next.
  turn-Prefixes :
      (s t last last' idx : ℕ) (before : List Message) (m next : Message) (after : List Message)
      (c d : Chain)
      → last ≡ idx + length before
      → last < last'
      → Same c d
      → Prefixes
          (marks (feed_messages k e s last idx (before ++ m ∷ []) c).segments)
          (marks (feed_messages k e t last' idx (before ++ m ∷ next ∷ after) d).segments)
  turn-Prefixes s t last last' idx [] m next after c d e_last more r =
      let fed =
        feed_message_keeps k e s t Same hash_text-Same count_tokens-Same (commit-Same s t) m c d
          r in
      rw (feed_last s last idx m c (ground arith)) (
        rw (feed_more t last' idx m (next ∷ after) d (ground arith)) (
          rw fed.all_marks (
            Prefixes-trans _ _ _ (commit-Prefixes t (feed_message k e t m d)) (
              feed_messages-Prefixes t last' (idx + 1) (next ∷ after)
                (commit k e t (feed_message k e t m d))))))
  turn-Prefixes s t last last' idx (b ∷ before) m next after c d e_last more r =
      let fed =
        feed_message_keeps k e s t Same hash_text-Same count_tokens-Same (commit-Same s t) b c d
          r in
      rw (feed_more s last idx b (before ++ m ∷ []) c (ground arith)) (
        rw (feed_more t last' idx b (before ++ m ∷ next ∷ after) d (ground arith)) (
          turn-Prefixes s t last last' (idx + 1) before m next after _ _ (omega arith) more
            (commit-Same s t _ _ fed)))

  base-Same :
      (s t : ℕ) (seed : List ℕ) (req : MessagesRequest) (ms ns : List Message)
      → let start : Chain = record {
        hasher = seed;
        cache_tokens = 0;
        prompt_total_tokens = 0;
        segments = [];
      } in
        Same
          (feed_base k e s (record req { messages = ms }) start)
          (feed_base k e t (record req { messages = ns }) start)
  unfolding feed_base
  base-Same s t seed req ms ns =
      feed_base_keeps k e s t Same hash_text-Same count_tokens-Same (commit-Same s t)
        (record req { messages = ms }) _ _
        (record { hashers = refl; caches = refl; all_marks = refl })

  -- The chain of a turn begins that of the next, which has the same tools and system text.
  pub feed_request-Prefixes :
      (seed : List ℕ) (req : MessagesRequest) (before : List Message) (m next : Message)
      (after : List Message)
      → Prefixes
          (marks (feed_request k e seed (record req { messages = before ++ m ∷ [] })).segments)
          (marks
            (feed_request k e seed (record req { messages = before ++ m ∷ next ∷ after })).segments)
  unfolding feed_request
  feed_request-Prefixes seed req before m next after =
      let now = record req { messages = before ++ m ∷ [] } in
      let later = record req { messages = before ++ m ∷ next ∷ after } in
      let s = detect_max_ttl now in
      let t = detect_max_ttl later in
      let start : Chain = record {
        hasher = seed;
        cache_tokens = 0;
        prompt_total_tokens = 0;
        segments = [];
      } in
      turn-Prefixes s t _ _ 0 before m next after _ _ (omega (arith, length-append before (m ∷ [])))
        (omega (arith, length-append before (m ∷ []), length-append before (m ∷ next ∷ after)))
        (base-Same s t seed req (before ++ m ∷ []) (before ++ m ∷ next ∷ after))
