-- ===== src/Admin/ProxyPool/Calls.antt =====
-- src/admin/proxy_pool.rs: the pool as a machine whose steps are the calls of its methods. The results
-- of a health check are a step of their own, so that other calls may come between the snapshot of
-- the proxies and what is written back.
use kiro_rs_tool.Prelude.{
  ℕ, String, ◌≡◌, refl, sym, ap, subst, some-eq, inl, inr, Bool, true, false, not, Option, some,
  List, [], ◌∷◌, ◌==◌, if◌then◌else◌, filter, map, length, Bool-cases, Option-cases,
}
use kiro_rs_tool.Admin.ProxyPool.{
  ProxyEntry, ProxyPoolManager, check_new, add, batch_add, delete, find_proxy, update_proxy, switch,
  set_enabled, is_empty,
}
use kiro_rs_tool.Admin.ProxyPool.Health.{
  ProbeResult, CheckSummary, no_checks, apply_probe_result, write_one, write_back, check_all,
  check_one, targets,
}
use kiro_rs_tool.Prelude.Chars.{trim}
use kiro_rs_tool.Admin.ProxyPool.Valid.{
  IsValid, update-IsValid, switch-Keeps, probe-Keeps, check_new-has_url, add_checked-IsValid,
  batch_loop-IsValid, filter-IsValid,
}

pub data Call : Type 0 where
  added : List ℕ → Option String → Call
  batch_added : List (List ℕ) → Call
  deleted : ℕ → Call
  enabled_set : ℕ → Bool → Call
  results : List (ℕ × ProbeResult) → Call
  checked : (List ℕ → ProbeResult) → Call
  checked_one : ℕ → (List ℕ → ProbeResult) → Call

-- The pool after a call, at a time and with the answer of the write to disk.
unfoldable pub step : Option String → ℕ → Call → ProxyPoolManager → ProxyPoolManager
step saved now (added url label) m = (add m url label saved).1
step saved now (batch_added urls) m = (batch_add m urls).1
step saved now (deleted id) m = (delete m id saved).1
step saved now (enabled_set id enabled) m = (set_enabled m id enabled saved).1
step saved now (results rs) m = record m { entries = (write_back now rs (m.entries, no_checks)).0 }
step saved now (checked probe) m = (check_all m probe now).1
step saved now (checked_one id probe) m = (check_one m id probe now saved).1

-- To write what a function makes of the entry that was found is to apply the function there.
update_found :
    (id : ℕ) (f : ProxyEntry → ProxyEntry) (es : List ProxyEntry) (e : ProxyEntry)
    → find_proxy id es ≡ some e
    → update_proxy id (λ _. f e) es ≡ update_proxy id f es
update_found id f [] e h = refl
update_found id f (x ∷ xs) e h =
    let found : (b : Bool) → (x.id == id) ≡ b → (if b then some x else find_proxy id xs) ≡ some e =
      λ b eq. subst (λ b. (if b then some x else find_proxy id xs) ≡ some e) eq h in
    elim (Bool-cases (x.id == id)) [
      | inl hit ↦ rw hit (ap (λ y. f y ∷ xs) (sym (some-eq (found true hit))))
      | inr miss ↦ rw miss (ap (λ ys. x ∷ ys) (update_found id f xs e (found false miss)))
    ]

write_found-IsValid :
    (m : ProxyPoolManager) (id now : ℕ) (result : ProbeResult) (e : ProxyEntry)
    → IsValid m
    → find_proxy id m.entries ≡ some e
    → IsValid (record m {
      entries = update_proxy id (λ _. (apply_probe_result now result e).0) m.entries;
    })
write_found-IsValid m id now result e v found =
    rw (update_found id (λ x. (apply_probe_result now result x).0) m.entries e found)
      (update-IsValid m id _ (probe-Keeps now result) v)

write_one-IsValid :
    (m : ProxyPoolManager) (id now : ℕ) (result : ProbeResult) (s : CheckSummary)
    → IsValid m
    → IsValid (record m {
      entries = (write_one (find_proxy id m.entries) now id result (m.entries, s)).0;
    })
unfolding write_one
write_one-IsValid m id now result s v = elim (Option-cases (find_proxy id m.entries)) [
  | inl missing ↦ rw missing v
  | inr (e, found) ↦ rw found (write_found-IsValid m id now result e v found)
]

write_back-IsValid :
    (m : ProxyPoolManager) (now : ℕ) (rs : List (ℕ × ProbeResult)) (s : CheckSummary)
    → IsValid m
    → IsValid (record m { entries = (write_back now rs (m.entries, s)).0 })
unfolding write_back
write_back-IsValid m now [] s v = v
write_back-IsValid m now ((id, result) ∷ rs) s v =
    let after = write_one (find_proxy id m.entries) now id result (m.entries, s) in
    write_back-IsValid (record m { entries = after.0 }) now rs after.1
      (write_one-IsValid m id now result s v)

pick-IsValid :
    {A : Type 0} (b : Bool) (r s : A × ProxyPoolManager)
    → IsValid r.1
    → IsValid s.1
    → IsValid (if b then r else s).1
pick-IsValid true r s v w = v
pick-IsValid false r s v w = w

add-IsValid :
    (m : ProxyPoolManager) (text : List ℕ) (label saved : Option String)
    → IsValid m
    → IsValid (add m text label saved).1
unfolding add
add-IsValid m text label saved v = pick-IsValid (is_empty (trim text)) _ _ v (
    add_checked-IsValid (check_new m (trim text)) m (trim text) label saved v
      (check_new-has_url m (trim text)))

delete-IsValid :
    (m : ProxyPoolManager) (id : ℕ) (saved : Option String)
    → IsValid m
    → IsValid (delete m id saved).1
unfolding delete
delete-IsValid m id saved v =
    pick-IsValid (length (filter (λ e. not (e.id == id)) m.entries) == length m.entries) _ _ v
      (filter-IsValid m (λ e. not (e.id == id)) v)

set_enabled-IsValid :
    (m : ProxyPoolManager) (id : ℕ) (enabled : Bool) (saved : Option String)
    → IsValid m
    → IsValid (set_enabled m id enabled saved).1
unfolding set_enabled
set_enabled-IsValid m id enabled saved v = elim (Option-cases (find_proxy id m.entries)) [
  | inl missing ↦ rw (missing, set_enabled) v
  | inr (e, found) ↦
      rw (found, set_enabled) (update-IsValid m id (switch enabled) (switch-Keeps enabled) v)
]

check_one-IsValid :
    (m : ProxyPoolManager) (id : ℕ) (probe : List ℕ → ProbeResult) (now : ℕ) (saved : Option String)
    → IsValid m
    → IsValid (check_one m id probe now saved).1
unfolding check_one
check_one-IsValid m id probe now saved v = elim (Option-cases (find_proxy id m.entries)) [
  | inl missing ↦ rw (missing, check_one) v
  | inr (e, found) ↦ rw (found, check_one) (write_found-IsValid m id now (probe e.url) e v found)
]

-- Every call leads from a valid pool to a valid one, whatever the probes find and the disk answers:
-- no two proxies have the same id or the same URL, every id has been given out, and a proxy that is
-- enabled has failed fewer than three probes in a row and is not marked as disabled by the check.
pub step-IsValid :
    (saved : Option String) (now : ℕ) (c : Call) (m : ProxyPoolManager)
    → IsValid m
    → IsValid (step saved now c m)
unfolding step
step-IsValid saved now (added text label) m v = add-IsValid m text label saved v
step-IsValid saved now (batch_added urls) m v =
    unfold batch_add in batch_loop-IsValid urls (record { added = []; errors = []; pool = m }) v
step-IsValid saved now (deleted id) m v = delete-IsValid m id saved v
step-IsValid saved now (enabled_set id enabled) m v = set_enabled-IsValid m id enabled saved v
step-IsValid saved now (results rs) m v = write_back-IsValid m now rs no_checks v
step-IsValid saved now (checked probe) m v =
    unfold check_all in
    write_back-IsValid m now (map (λ t. (t.0, probe t.1)) (targets m)) no_checks v
step-IsValid saved now (checked_one id probe) m v = check_one-IsValid m id probe now saved v
