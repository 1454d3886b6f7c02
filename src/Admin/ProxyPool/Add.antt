-- ===== src/Admin/ProxyPool/Add.antt =====
-- src/admin/proxy_pool.rs: a proxy that was added is found, and can be deleted again.
use kiro_rs_tool.Prelude.{
  ℕ, String, ◌≡◌, ◌≢◌, refl, sym, ap, ◌∙◌, not, Option, none, some, List, [], ◌∷◌, ◌++◌, arith,
  ◌==◌, length-append, filter, All,
}
use kiro_rs_tool.Admin.ProxyPool.{
  ProxyEntry, ProxyPoolManager, PoolError, done, ok, new_entry, push, check_new, add_checked, add,
  persisted, find_proxy, get_url, url_result, delete,
}
use kiro_rs_tool.Prelude.Chars.{trim}
use kiro_rs_tool.Admin.ProxyPool.Valid.{IsGood, IsValid}

find-new :
    (next : ℕ) (es : List ProxyEntry) (e : ProxyEntry)
    → All (IsGood next) es
    → e.id ≡ next
    → find_proxy e.id (es ++ e ∷ []) ≡ some e
find-new next [] e g k = ground arith
find-new next (x ∷ es) e g k = ground (arith, g.0.0, find-new next es e g.1 k)

find-other :
    (j : ℕ) (es : List ProxyEntry) (e : ProxyEntry)
    → j ≢ e.id
    → find_proxy j (es ++ e ∷ []) ≡ find_proxy j es
find-other j [] e h = ground arith
find-other j (x ∷ es) e h = ground (arith, find-other j es e h)

filter-new :
    (next : ℕ) (es : List ProxyEntry) (e : ProxyEntry)
    → All (IsGood next) es
    → e.id ≡ next
    → filter (λ x. not (x.id == e.id)) (es ++ e ∷ []) ≡ es
filter-new next [] e g k = ground arith
filter-new next (x ∷ es) e g k = ground (arith, g.0.0, filter-new next es e g.1 k)

add_checked-done :
    (o : Option PoolError) (m : ProxyPoolManager) (url : List ℕ) (label saved : Option String)
    (e : ProxyEntry)
    → (add_checked o m url label saved).0 ≡ done e
    → (e ≡ (push m url label).0) × ((add_checked o m url label saved).1 ≡ (push m url label).1)
unfolding add_checked persisted
add_checked-done (some x) m url label saved e h = ground (arith, h)
add_checked-done none m url label none e h = ground (arith, h)
add_checked-done none m url label (some x) e h = ground (arith, h)

add-done :
    (m : ProxyPoolManager) (text : List ℕ) (label saved : Option String) (e : ProxyEntry)
    → (add m text label saved).0 ≡ done e
    → (e ≡ (push m (trim text) label).0)
      × ((add m text label saved).1 ≡ (push m (trim text) label).1)
unfolding add
add-done m text label saved e h =
    ground (arith, h, add_checked-done (check_new m (trim text)) m (trim text) label saved e)

push-get_url :
    (m : ProxyPoolManager) (url : List ℕ) (label : Option String) (j : ℕ)
    → IsValid m
    → j ≢ m.next_id
    → (get_url (push m url label).1 m.next_id ≡ ok url)
      × (get_url (push m url label).1 j ≡ get_url m j)
unfolding get_url push new_entry url_result
push-get_url m url label j v ne =
    let e : ProxyEntry = new_entry m.next_id url label in
    (
      ap url_result (find-new m.next_id m.entries e v.good refl),
      ap url_result (find-other j m.entries e ne),
    )

push-delete :
    (m : ProxyPoolManager) (url : List ℕ) (label saved : Option String)
    → IsValid m
    → (delete (push m url label).1 m.next_id saved).1.entries ≡ m.entries
unfolding push new_entry delete
push-delete m url label saved v =
    let e : ProxyEntry = new_entry m.next_id url label in
    ground (arith, filter-new m.next_id m.entries e v.good refl, length-append m.entries (e ∷ []))

-- Where a proxy was added to a valid pool, its URL is that of the text without the blanks around
-- it, it is found under its id and is enabled, every other id is answered as before, and to delete
-- it leaves the entries that were there before it was added.
pub add-get_url :
    (m : ProxyPoolManager) (text : List ℕ) (label saved saved' : Option String) (e : ProxyEntry)
    (j : ℕ)
    → IsValid m
    → (add m text label saved).0 ≡ done e
    → j ≢ e.id
    → let m' = (add m text label saved).1 in
      (e.url ≡ trim text)
      × (get_url m' e.id ≡ ok (trim text))
      × (get_url m' j ≡ get_url m j)
      × ((delete m' e.id saved').1.entries ≡ m.entries)
unfolding push new_entry
add-get_url m text label saved saved' e j v h ne =
    let (same, after) = add-done m text label saved e h in
    rw (after, same)
      (
        refl,
        (push-get_url m (trim text) label j v (λ k. ne (k ∙ sym (ap (λ x. x.id) same)))).0,
        (push-get_url m (trim text) label j v (λ k. ne (k ∙ sym (ap (λ x. x.id) same)))).1,
        push-delete m (trim text) label saved' v,
      )
