-- ===== src/Admin/ProxyPool/Probes.antt =====
-- src/admin/proxy_pool.rs: what a row of probes does to a proxy.
use kiro_rs_tool.Prelude.{
  ℕ, zero, suc, ◌+◌, ◌<◌, ◌≡◌, refl, sym, ap, ◌∙◌, Bool, true, false, not, ◌||◌, List, [], ◌∷◌,
  arith,
}
use kiro_rs_tool.Admin.ProxyPool.{ProxyEntry}
use kiro_rs_tool.Admin.ProxyPool.Health.{ProbeResult, reached, failed, apply_probe_result}

-- The proxy after a row of probes, the first of the list first.
abbrev pub after_probes : ℕ → List ProbeResult → ProxyEntry → ProxyEntry
after_probes now [] e = e
after_probes now (r ∷ rs) e = after_probes now rs (apply_probe_result now r e).0

abbrev is_failure : ProbeResult → Bool
is_failure (reached latency) = false
is_failure (failed error) = true

-- The list starts with as many failures.
abbrev failures_first : ℕ → List ProbeResult → Bool
failures_first zero rs = true
failures_first (suc n) [] = false
failures_first (suc n) (reached latency ∷ rs) = false
failures_first (suc n) (failed error ∷ rs) = failures_first n rs

-- Somewhere in the list three probes fail one after the other.
abbrev pub three_failures : List ProbeResult → Bool
three_failures [] = false
three_failures (r ∷ rs) = failures_first 3 (r ∷ rs) || three_failures rs

disabled_stays :
    (now : ℕ) (rs : List ProbeResult) (e : ProxyEntry)
    → e.enabled ≡ false
    → (after_probes now rs e).enabled ≡ false
disabled_stays now [] e h = h
disabled_stays now (reached latency ∷ rs) e h =
    disabled_stays now rs _ (unfold apply_probe_result in h)
disabled_stays now (failed error ∷ rs) e h =
    disabled_stays now rs _ (unfold apply_probe_result in ground (arith, h))

three_absorb :
    (rs : List ProbeResult) → failures_first 3 rs || three_failures rs ≡ three_failures rs
three_absorb [] = refl
three_absorb (r ∷ rs) = ground arith

fewer_absorb :
    (n : ℕ) (rs : List ProbeResult) (b : Bool)
    → n < 2
    → failures_first (suc n) rs || (failures_first 2 rs || b) ≡ failures_first (suc n) rs || b
fewer_absorb n [] b h = ground arith
fewer_absorb n (reached latency ∷ rs) b h = refl
fewer_absorb zero (failed error ∷ rs) b h = refl
fewer_absorb (suc zero) (failed error ∷ rs) b h = ground arith
fewer_absorb (suc (suc n)) (failed error ∷ rs) b h = absurd (omega arith)

-- With k failures behind it, k below three, 3 - k more at once disable the proxy, as do three in a
-- row later.
after_failures :
    (now k n : ℕ) (rs : List ProbeResult) (e : ProxyEntry)
    → e.enabled ≡ true
    → e.consecutive_failures ≡ k
    → k + suc n ≡ 3
    → (after_probes now rs e).enabled ≡ not (failures_first (suc n) rs || three_failures rs)
unfolding apply_probe_result
after_failures now k n [] e on count h = ground (arith, on)
after_failures now k n (reached latency ∷ rs) e on count h =
    after_failures now 0 2 rs (apply_probe_result now (reached latency) e).0 on refl (omega arith)
    ∙ ap not (three_absorb rs)
after_failures now k zero (failed error ∷ rs) e on count h =
    disabled_stays now rs (apply_probe_result now (failed error) e).0 (ground (arith, on, count, h))
after_failures now k (suc n) (failed error ∷ rs) e on count h =
    after_failures now (suc k) n rs (apply_probe_result now (failed error) e).0
      (ground (arith, on, count, h)) (ground (arith, on, count, h)) (omega (arith, h))
    ∙ ap not (sym (fewer_absorb n rs (three_failures rs) (omega (arith, h))))

-- A proxy that is enabled and has no failure counted is enabled after a row of probes exactly when
-- no three of them failed one after the other.
pub after_probes_enabled :
    (now : ℕ) (rs : List ProbeResult) (e : ProxyEntry)
    → e.enabled ≡ true
    → e.consecutive_failures ≡ 0
    → (after_probes now rs e).enabled ≡ not (three_failures rs)
after_probes_enabled now rs e on count =
    after_failures now 0 2 rs e on count (omega arith) ∙ ap not (three_absorb rs)
