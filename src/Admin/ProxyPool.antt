-- ===== src/Admin/ProxyPool.antt =====
-- src/admin/proxy_pool.rs: the pool of proxies; Health.antt has its health checks. What a probe of a proxy finds
-- comes from the network and is an argument; `saved` is the text of the error of the write to disk,
-- if there is one. `now`, kept as the RFC 3339 text of the clock in the code, is a number, and so is
-- the counter of the ids, which would wrap after 2 ^ 64 additions.
pub mod Url
pub mod Health
pub mod Valid
pub mod Add
pub mod Calls
pub mod Probes
use kiro_rs_tool.Prelude.{
  ℕ, ◌+◌, ◌%◌, String, Bool, true, false, not, ◌&&◌, ◌||◌, Option, none, some, List, [], ◌∷◌, ◌++◌,
  map, ltb, leb, ◌==◌, if◌then◌else◌, filter, any, find, length,
}
use kiro_rs_tool.Prelude.Map.{bytes_beq}
use kiro_rs_tool.Prelude.Chars.{trim}
use kiro_rs_tool.Admin.ProxyPool.Url.{UrlError, validate_proxy_url}

pub data ProxyHealth : Type 0 where
  unknown healthy unhealthy : ProxyHealth

pub record ProxyEntry : Type 0 where
  pub id : ℕ
  pub url : List ℕ
  pub label : Option String
  pub enabled : Bool
  pub health : ProxyHealth
  pub latency_ms : Option ℕ
  pub last_checked_at : Option ℕ
  pub consecutive_failures : ℕ
  pub auto_disabled : Bool

pub data GetUrlResult : Type 0 where
  ok : List ℕ → GetUrlResult
  not_found disabled : GetUrlResult

pub record ProxyPoolManager : Type 0 where
  pub entries : List ProxyEntry
  pub next_id : ℕ

-- The errors of the methods.
pub data PoolError : Type 0 where
  empty_url : PoolError
  invalid_url : List ℕ → UrlError → PoolError
  url_exists : List ℕ → PoolError
  no_proxy : ℕ → PoolError
  not_saved : String → PoolError

pub data PoolResult (A : Type 0) : Type 0 where
  done : A → PoolResult A
  refused : PoolError → PoolResult A

max_id : List ProxyEntry → ℕ
max_id [] = 0
max_id (e ∷ es) = let rest = max_id es in if ltb e.id rest then rest else e.id

-- `loaded` is what the file holds, if it is there and can be read.
unfoldable pub new : Option (List ProxyEntry) → ProxyPoolManager
unfolding max_id
new none = record { entries = []; next_id = 1 }
new (some es) = record { entries = es; next_id = max_id es + 1 }

abbrev pub has_url : List ℕ → List ProxyEntry → Bool
has_url url = any (λ e. bytes_beq e.url url)

unfoldable pub new_entry : ℕ → List ℕ → Option String → ProxyEntry
new_entry id url label = record {
  id = id;
  url = url;
  label = label;
  enabled = true;
  health = unknown;
  latency_ms = none;
  last_checked_at = none;
  consecutive_failures = 0;
  auto_disabled = false;
}

unfoldable pub is_empty : List ℕ → Bool
is_empty [] = true
is_empty (c ∷ cs) = false

-- An entry of a new id at the end.
unfoldable pub push : ProxyPoolManager → List ℕ → Option String → ProxyEntry × ProxyPoolManager
unfolding new_entry
push m url label =
    let entry = new_entry m.next_id url label in
    (entry, record { entries = m.entries ++ entry ∷ []; next_id = m.next_id + 1 })

unfoldable pub persisted : {A : Type 0} → Option String → A → PoolResult A
persisted none a = done a
persisted (some e) a = refused (not_saved e)

-- The tests that `add` and `batch_add` share, in their order.
unfoldable pub check_new : ProxyPoolManager → List ℕ → Option PoolError
check_new m url = elim (validate_proxy_url url) [
  | some e ↦ some (invalid_url url e)
  | none ↦ if has_url url m.entries then some (url_exists url) else none
]

unfoldable pub add_checked :
    Option PoolError
    → ProxyPoolManager
    → List ℕ
    → Option String
    → Option String
    → PoolResult ProxyEntry × ProxyPoolManager
unfolding push persisted
add_checked (some e) m url label saved = (refused e, m)
add_checked none m url label saved =
    let (entry, m') = push m url label in (persisted saved entry, m')

unfoldable pub add :
    ProxyPoolManager
    → List ℕ
    → Option String
    → Option String
    → PoolResult ProxyEntry × ProxyPoolManager
unfolding is_empty check_new add_checked
add m text label saved =
    let url = trim text in
    if is_empty url then (refused empty_url, m) else add_checked (check_new m url) m url label saved

pub is_skipped : List ℕ → Bool
is_skipped [] = true
is_skipped (c ∷ cs) = c == b'#'

-- What the loop of `batch_add` has added, the errors, and the pool.
pub record Batch : Type 0 where
  pub added : List ProxyEntry
  pub errors : List PoolError
  pub pool : ProxyPoolManager

unfoldable pub batch_one : Option PoolError → Batch → List ℕ → Batch
unfolding push
batch_one (some e) b url = record b { errors = b.errors ++ e ∷ [] }
batch_one none b url =
    let (entry, m') = push b.pool url none in record b { added = b.added ++ entry ∷ []; pool = m' }

unfoldable pub batch_loop : List (List ℕ) → Batch → Batch
unfolding is_skipped check_new batch_one
batch_loop [] b = b
batch_loop (text ∷ texts) b =
    let url = trim text in
    batch_loop texts (if is_skipped url then b else batch_one (check_new b.pool url) b url)

-- A failed write is logged and left at that.
unfoldable pub batch_add :
    ProxyPoolManager → List (List ℕ) → (List ProxyEntry × List PoolError) × ProxyPoolManager
unfolding batch_loop
batch_add m texts =
    let b = batch_loop texts (record { added = []; errors = []; pool = m }) in
    ((b.added, b.errors), b.pool)

unfoldable pub delete :
    ProxyPoolManager → ℕ → Option String → PoolResult (Unit {0}) × ProxyPoolManager
unfolding persisted
delete m id saved =
    let kept = filter (λ e. not (e.id == id)) m.entries in
    if length kept == length m.entries
    then (refused (no_proxy id), m)
    else (persisted saved tt, record m { entries = kept })

abbrev pub find_proxy : ℕ → List ProxyEntry → Option ProxyEntry
find_proxy id = find (λ e. e.id == id)

abbrev pub update_proxy : ℕ → (ProxyEntry → ProxyEntry) → List ProxyEntry → List ProxyEntry
update_proxy id f [] = []
update_proxy id f (e ∷ es) = if e.id == id then f e ∷ es else e ∷ update_proxy id f es

unfoldable pub switch : Bool → ProxyEntry → ProxyEntry
switch true e = record e { enabled = true; auto_disabled = false; consecutive_failures = 0 }
switch false e = record e { enabled = false }

unfoldable pub set_enabled :
    ProxyPoolManager → ℕ → Bool → Option String → PoolResult (Unit {0}) × ProxyPoolManager
unfolding switch persisted
set_enabled m id enabled saved = elim (find_proxy id m.entries) [
  | none ↦ (refused (no_proxy id), m)
  | some e ↦ (persisted saved tt, record m { entries = update_proxy id (switch enabled) m.entries })
]

unfoldable pub url_result : Option ProxyEntry → GetUrlResult
url_result none = not_found
url_result (some e) = if e.enabled then ok e.url else disabled

unfoldable pub get_url : ProxyPoolManager → ℕ → GetUrlResult
unfolding url_result
get_url m id = url_result (find_proxy id m.entries)

is_unhealthy : ProxyHealth → Bool
is_unhealthy unhealthy = true
is_unhealthy _ = false

unfoldable pub assignable_urls : ProxyPoolManager → List (List ℕ)
unfolding is_unhealthy
assignable_urls m =
    map (λ e. e.url) (filter (λ e. e.enabled && not (is_unhealthy e.health)) m.entries)
