-- ===== src/Admin/ProxyPool/Valid.antt =====
-- src/admin/proxy_pool.rs: what every method keeps true of the pool.
use kiro_rs_tool.Prelude.{
  ℕ, ◌+◌, ◌<◌, String, ◌≡◌, refl, ◌∙◌, inl, inr, Bool, true, false, ◌||◌, Option, none, some, List,
  [], ◌∷◌, ◌++◌, arith, ◌==◌, if◌then◌else◌, filter, any, All, Bool-cases,
}
use kiro_rs_tool.Prelude.Map.{bytes_beq, bytes_beq_iff}
use kiro_rs_tool.Admin.ProxyPool.{
  ProxyEntry, ProxyPoolManager, Batch, PoolError, has_url, new_entry, push, check_new, add_checked,
  batch_one, batch_loop, update_proxy, switch, is_skipped,
}
use kiro_rs_tool.Admin.ProxyPool.Health.{
  ProbeResult, reached, failed, max_proxy_probe_failures, apply_probe_result,
}
use kiro_rs_tool.Prelude.Chars.{trim}

-- An enabled proxy has failures to spare and was not disabled by the health check; every id has
-- been given out.
abbrev pub IsGood : ℕ → ProxyEntry → Type 0
IsGood next e =
    (e.id < next)
    × (e.enabled ≡ true
        → (e.consecutive_failures < max_proxy_probe_failures) × (e.auto_disabled ≡ false))

abbrev same_id_or_url : ProxyEntry → ProxyEntry → Bool
same_id_or_url e x = x.id == e.id || bytes_beq x.url e.url

-- No two entries have the same id or the same URL.
abbrev pub Unique : List ProxyEntry → Type 0
Unique [] = Unit
Unique (e ∷ es) = (any (same_id_or_url e) es ≡ false) × Unique es

pub record IsValid (m : ProxyPoolManager) : Type 0 where
  pub good : All (IsGood m.next_id) m.entries
  pub unique : Unique m.entries

-- What a method may do to an entry.
abbrev pub Keeps : (ProxyEntry → ProxyEntry) → Type 0
Keeps f =
    (e : ProxyEntry)
    → ((f e).id ≡ e.id) × ((f e).url ≡ e.url) × ((next : ℕ) → IsGood next e → IsGood next (f e))

any_append :
    (p : ProxyEntry → Bool) (es : List ProxyEntry) (e : ProxyEntry)
    → any p (es ++ e ∷ []) ≡ any p es || p e
any_append p [] e = ground arith
any_append p (x ∷ es) e = ground (arith, any_append p es e)

All-append :
    (next : ℕ) (es : List ProxyEntry) (e : ProxyEntry)
    → All (IsGood next) es
    → IsGood (next + 1) e
    → All (IsGood (next + 1)) (es ++ e ∷ [])
All-append next [] e h k = (k, tt)
All-append next (x ∷ es) e h k = ((omega (arith, h.0.0), h.0.1), All-append next es e h.1 k)

Unique-append :
    (next : ℕ) (es : List ProxyEntry) (e : ProxyEntry)
    → All (IsGood next) es
    → Unique es
    → e.id ≡ next
    → has_url e.url es ≡ false
    → Unique (es ++ e ∷ [])
Unique-append next [] e g u k h = ground arith
Unique-append next (x ∷ es) e g u k h = (
  any_append (same_id_or_url x) es e
      ∙ ground (arith, u.0, h, k, g.0.0, bytes_beq_iff e.url x.url, bytes_beq_iff x.url e.url),
  Unique-append next es e g.1 u.1 k (ground (arith, h)),
)

update_any :
    (p : ProxyEntry → Bool) (id : ℕ) (f : ProxyEntry → ProxyEntry) (es : List ProxyEntry)
    → ((e : ProxyEntry) → p (f e) ≡ p e)
    → any p (update_proxy id f es) ≡ any p es
update_any p id f [] h = refl
update_any p id f (e ∷ es) h = ground (arith, h e, update_any p id f es h)

same-Keeps :
    (f : ProxyEntry → ProxyEntry)
    → Keeps f
    → (x e : ProxyEntry) → same_id_or_url x (f e) ≡ same_id_or_url x e
same-Keeps f k x e = rw ((k e).0, (k e).1) refl

update-Unique :
    (id : ℕ) (f : ProxyEntry → ProxyEntry) (es : List ProxyEntry)
    → Keeps f
    → Unique es
    → Unique (update_proxy id f es)
update-Unique id f [] k u = tt
update-Unique id f (e ∷ es) k u = elim (Bool-cases (e.id == id)) [
  | inl hit ↦ rw (hit, (k e).0, (k e).1) u
  | inr miss ↦
      rw miss (
        update_any (same_id_or_url e) id f es (same-Keeps f k e) ∙ u.0,
        update-Unique id f es k u.1,
      )
]

update-IsGood :
    (next id : ℕ) (f : ProxyEntry → ProxyEntry) (es : List ProxyEntry)
    → Keeps f
    → All (IsGood next) es
    → All (IsGood next) (update_proxy id f es)
update-IsGood next id f [] k g = tt
update-IsGood next id f (e ∷ es) k g = elim (Bool-cases (e.id == id)) [
  | inl hit ↦ rw hit ((k e).2 next g.0, g.1)
  | inr miss ↦ rw miss (g.0, update-IsGood next id f es k g.1)
]

pub update-IsValid :
    (m : ProxyPoolManager) (id : ℕ) (f : ProxyEntry → ProxyEntry)
    → Keeps f
    → IsValid m
    → IsValid (record m { entries = update_proxy id f m.entries })
update-IsValid m id f k v = record {
  good = update-IsGood m.next_id id f m.entries k v.good;
  unique = update-Unique id f m.entries k v.unique;
}

pub switch-Keeps : (enabled : Bool) → Keeps (switch enabled)
unfolding switch
switch-Keeps true e = ground arith
switch-Keeps false e = ground arith

pub probe-Keeps :
    (now : ℕ) (result : ProbeResult) → Keeps (λ e. (apply_probe_result now result e).0)
unfolding apply_probe_result
probe-Keeps now (reached latency) e = ground arith
probe-Keeps now (failed error) e = ground arith

pub check_new-has_url :
    (m : ProxyPoolManager) (url : List ℕ) → check_new m url ≡ none → has_url url m.entries ≡ false
unfolding check_new
check_new-has_url m url h = ground (arith, h)

push-IsValid :
    (m : ProxyPoolManager) (url : List ℕ) (label : Option String)
    → IsValid m
    → has_url url m.entries ≡ false
    → IsValid (push m url label).1
unfolding push new_entry
push-IsValid m url label v fresh = record {
  good = All-append m.next_id m.entries _ v.good (ground arith);
  unique = Unique-append m.next_id m.entries _ v.good v.unique refl fresh;
}

pub add_checked-IsValid :
    (o : Option PoolError) (m : ProxyPoolManager) (url : List ℕ) (label saved : Option String)
    → IsValid m
    → (o ≡ none → has_url url m.entries ≡ false)
    → IsValid (add_checked o m url label saved).1
unfolding add_checked
add_checked-IsValid (some e) m url label saved v h = v
add_checked-IsValid none m url label saved v h = push-IsValid m url label v (h refl)

pub if_IsValid :
    (b : Bool) (m m' : ProxyPoolManager) → IsValid m → IsValid m' → IsValid (if b then m else m')
if_IsValid true m m' v w = v
if_IsValid false m m' v w = w

batch_one-IsValid :
    (o : Option PoolError) (b : Batch) (url : List ℕ)
    → IsValid b.pool
    → (o ≡ none → has_url url b.pool.entries ≡ false)
    → IsValid (batch_one o b url).pool
unfolding batch_one
batch_one-IsValid (some e) b url v h = v
batch_one-IsValid none b url v h = push-IsValid b.pool url none v (h refl)

pub batch_loop-IsValid :
    (texts : List (List ℕ)) (b : Batch) → IsValid b.pool → IsValid (batch_loop texts b).pool
unfolding batch_loop
batch_loop-IsValid [] b v = v
batch_loop-IsValid (text ∷ texts) b v =
    let url = trim text in
    batch_loop-IsValid texts (if is_skipped url then b else batch_one (check_new b.pool url) b url)
      (elim (Bool-cases (is_skipped url)) [
        | inl skipped ↦ rw skipped v
        | inr read ↦
            rw read
              (batch_one-IsValid (check_new b.pool url) b url v (check_new-has_url b.pool url))
      ])

filter-any :
    (p q : ProxyEntry → Bool) (es : List ProxyEntry)
    → any p es ≡ false
    → any p (filter q es) ≡ false
filter-any p q [] h = refl
filter-any p q (e ∷ es) h = ground (arith, h, filter-any p q es)

pub filter-IsValid :
    (m : ProxyPoolManager) (q : ProxyEntry → Bool)
    → IsValid m
    → IsValid (record m { entries = filter q m.entries })
filter-IsValid m q v = record { good = good m.entries v.good; unique = unique m.entries v.unique }
  where
    good : (es : List ProxyEntry) → All (IsGood m.next_id) es → All (IsGood m.next_id) (filter q es)
    good [] g = tt
    good (e ∷ es) g = ground (arith, g.0, good es g.1)

    unique : (es : List ProxyEntry) → Unique es → Unique (filter q es)
    unique [] u = tt
    unique (e ∷ es) u = ground (arith, unique es u.1, filter-any (same_id_or_url e) q es u.0)
