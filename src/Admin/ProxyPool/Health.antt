-- ===== src/Admin/ProxyPool/Health.antt =====
-- src/admin/proxy_pool.rs: the health checks of the pool. What a probe of a proxy finds is an argument.
use kiro_rs_tool.Prelude.{
  ℕ, ◌+◌, ◌%◌, String, Bool, true, false, ◌&&◌, Option, none, some, List, [], ◌∷◌, map, leb,
  if◌then◌else◌, filter,
}
use kiro_rs_tool.Admin.ProxyPool.{
  ProxyEntry, ProxyPoolManager, healthy, unhealthy, PoolResult, refused, no_proxy, persisted,
  find_proxy, update_proxy,
}

abbrev pub max_proxy_probe_failures : ℕ
max_proxy_probe_failures = 3

pub record CheckSummary : Type 0 where
  pub healthy_count : ℕ
  pub unhealthy_count : ℕ
  pub auto_disabled_count : ℕ

abbrev pub no_checks : CheckSummary
no_checks = record { healthy_count = 0; unhealthy_count = 0; auto_disabled_count = 0 }

pub data ProbeResult : Type 0 where
  reached : ℕ → ProbeResult
  failed : String → ProbeResult

-- The entry, whether it is unhealthy, and whether this has disabled it.
unfoldable pub apply_probe_result : ℕ → ProbeResult → ProxyEntry → ProxyEntry × Bool × Bool
apply_probe_result now (reached latency_ms) e = (
  record e {
    last_checked_at = some now;
    health = healthy;
    latency_ms = some latency_ms;
    consecutive_failures = 0;
  },
  false,
  false,
)
apply_probe_result now (failed error) e =
    let count = (e.consecutive_failures + 1) % 4294967296 in
    let e' = record e {
      last_checked_at = some now;
      health = unhealthy;
      latency_ms = none;
      consecutive_failures = count;
    } in
    if leb max_proxy_probe_failures count && e.enabled
    then (record e' { enabled = false; auto_disabled = true }, true, true)
    else (e', true, false)

unfoldable pub count_result : CheckSummary → Bool → Bool → CheckSummary
count_result s is_bad newly_disabled = record {
  healthy_count = s.healthy_count + (if is_bad then 0 else 1);
  unhealthy_count = s.unhealthy_count + (if is_bad then 1 else 0);
  auto_disabled_count = s.auto_disabled_count + (if newly_disabled then 1 else 0);
}

unfoldable pub write_one :
    Option ProxyEntry
    → ℕ
    → ℕ
    → ProbeResult
    → List ProxyEntry × CheckSummary
    → List ProxyEntry × CheckSummary
unfolding apply_probe_result count_result
write_one none now id result (es, s) = (es, s)
write_one (some e) now id result (es, s) =
    let (e', is_bad, newly_disabled) = apply_probe_result now result e in
    (update_proxy id (λ _. e') es, count_result s is_bad newly_disabled)

-- The loop over the results, each for the proxy that still has its id.
unfoldable pub write_back :
    ℕ → List (ℕ × ProbeResult) → List ProxyEntry × CheckSummary → List ProxyEntry × CheckSummary
unfolding write_one
write_back now [] (es, s) = (es, s)
write_back now ((id, result) ∷ rest) (es, s) =
    write_back now rest (write_one (find_proxy id es) now id result (es, s))

-- The snapshot of the proxies to probe.
unfoldable pub targets : ProxyPoolManager → List (ℕ × List ℕ)
targets m = map (λ e. (e.id, e.url)) (filter (λ e. e.enabled) m.entries)

-- With no other call between the snapshot and the results. Where the snapshot is empty there is
-- nothing to write back.
unfoldable pub check_all :
    ProxyPoolManager → (List ℕ → ProbeResult) → ℕ → CheckSummary × ProxyPoolManager
unfolding targets write_back
check_all m probe now =
    let (es, s) = write_back now (map (λ t. (t.0, probe t.1)) (targets m)) (m.entries, no_checks) in
    (s, record m { entries = es })

unfoldable pub check_one :
    ProxyPoolManager
    → ℕ
    → (List ℕ → ProbeResult)
    → ℕ
    → Option String
    → PoolResult ProxyEntry × ProxyPoolManager
unfolding apply_probe_result persisted
check_one m id probe now saved = elim (find_proxy id m.entries) [
  | none ↦ (refused (no_proxy id), m)
  | some e ↦
      (let e' = (apply_probe_result now (probe e.url) e).0 in
        (persisted saved e', record m { entries = update_proxy id (λ _. e') m.entries }))
]
