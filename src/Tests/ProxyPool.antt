-- ===== src/Tests/ProxyPool.antt =====
-- src/admin/proxy_pool.rs: runs on a pool of one proxy.
use kiro_rs_tool.Prelude.{ℕ, ◌≡◌, refl, true, false, not, none, List, [], ◌∷◌, arith}
use kiro_rs_tool.Prelude.Search.{is_prefix}
use kiro_rs_tool.Prelude.Text.{codes}
use kiro_rs_tool.Admin.ProxyPool.{
  done, push, new_entry, persisted, get_url, ok, delete, ProxyEntry, unknown, ProxyPoolManager,
  refused, url_exists, add, add_checked, check_new, is_empty,
}
use kiro_rs_tool.Admin.ProxyPool.Health.{ProbeResult, reached, failed}
use kiro_rs_tool.Prelude.Chars.{trim}
use kiro_rs_tool.Admin.ProxyPool.Url.{validate_proxy_url, check_host, after_last}
use kiro_rs_tool.Admin.ProxyPool.Valid.{IsValid}
use kiro_rs_tool.Admin.ProxyPool.Add.{add-get_url}
use kiro_rs_tool.Admin.ProxyPool.Calls.{results, step, step-IsValid}
use kiro_rs_tool.Admin.ProxyPool.Probes.{after_probes, three_failures, after_probes_enabled}

abbrev proxy : ProxyEntry
proxy = record {
  id = 4;
  url = codes "http://10.0.0.1:8080";
  label = none;
  enabled = true;
  health = unknown;
  latency_ms = none;
  last_checked_at = none;
  consecutive_failures = 0;
  auto_disabled = false;
}

abbrev pool : ProxyPoolManager
pool = record { entries = proxy ∷ []; next_id = 5 }

-- A proxy is found by its URL without the blanks around it.
duplicate_test :
    (add pool (codes " http://10.0.0.1:8080\n") none none).0
    ≡ refused (url_exists (codes "http://10.0.0.1:8080"))
unfolding add trim is_empty check_new validate_proxy_url is_prefix check_host after_last add_checked
duplicate_test = refl

pool-IsValid : IsValid pool
pool-IsValid = record { good = ground arith; unique = ground arith }

abbrev probes : List ProbeResult
probes = failed "timeout" ∷ reached 30 ∷ failed "timeout" ∷ failed "refused" ∷ failed "refused" ∷ []

proxy_step-IsValid_example :
    IsValid (step none 100 (results ((4, failed "timeout") ∷ (9, reached 20) ∷ [])) pool)
proxy_step-IsValid_example =
    step-IsValid none 100 (results ((4, failed "timeout") ∷ (9, reached 20) ∷ [])) pool pool-IsValid

after_probes_enabled_example : (after_probes 100 probes proxy).enabled ≡ not (three_failures probes)
after_probes_enabled_example = after_probes_enabled 100 probes proxy refl refl

abbrev text : List ℕ
text = codes " https://10.0.0.2:80"

abbrev another : ProxyEntry
another = record proxy { id = 5; url = codes "https://10.0.0.2:80" }

another_added : (add pool text none none).0 ≡ done another
unfolding add trim is_empty check_new validate_proxy_url is_prefix check_host after_last add_checked
    push new_entry persisted
another_added = refl

add-get_url_example :
    (another.url ≡ trim text)
    × (get_url (add pool text none none).1 5 ≡ ok (trim text))
    × (get_url (add pool text none none).1 4 ≡ get_url pool 4)
    × ((delete (add pool text none none).1 5 none).1.entries ≡ pool.entries)
add-get_url_example =
    add-get_url pool text none none none another 4 pool-IsValid another_added (ground arith)
