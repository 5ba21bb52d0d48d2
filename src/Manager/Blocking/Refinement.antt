-- ===== src/Manager/Blocking/Refinement.antt =====
-- The managers keep the promise of Manager/Blocking/Promise.
use dbl_service.Prelude.{
  ℕ, String, ◌≡◌, refl, Bool, true, false, ◌&&◌, Option, none, some, List, [], ◌∷◌, arith,
  if◌then◌else◌, any, lookup, ◌∙◌, ap, sym, eqb, eqb_iff,
}
use dbl_service.Fallible.{Exec, ok, pure, ◌>>=◌}
use dbl_service.Validator.{Resolution}
use dbl_service.Storage.{Tables, ListRow, Store}
use dbl_service.Storage.Statements.{has_id, id_of, on_whitelist, is_whitelist_id}
use dbl_service.Storage.Session.{healthy}
use dbl_service.Storage.Integrity.{DistinctLists}
use dbl_service.Manager.Integrity.{block_domains-IsSound, unblock_domains-IsSound}
use dbl_service.Manager.Domains.{filter_valid}
use dbl_service.Manager.Blocking.{block_names, unblock_names, block_domains, unblock_domains}
use dbl_service.Manager.Blocking.Effect.{block_names-healthy, unblock_names-healthy}
use dbl_service.Manager.Blocking.Promise.{
  Command, block, unblock, Mark, mark, view, IsReady, perform, perform_all, promise, promise_all,
}
use dbl_service.Manager.Blocking.Lists.{
  blocks, allows, accepted, after, absent-admitted, contains-filter_valid, block_names-leaves,
  unblock_names-leaves, block_domains-blocks, unblock_domains-allows,
}

Mark-equal : (m n : Mark) → m.blocked ≡ n.blocked → m.exempt ≡ n.exempt → m ≡ n
Mark-equal m n e f = ap (λ b. mark b m.exempt) e ∙ ap (mark n.blocked) f

absent-is_whitelist_id :
    (i : ℕ) (ls : List ListRow) → has_id i ls ≡ false → is_whitelist_id i ls ≡ false
unfolding any
absent-is_whitelist_id i [] h = refl
absent-is_whitelist_id i (l ∷ ls) h = ground (arith, absent-is_whitelist_id i ls)

blocks-is_whitelist_id :
    (i : ℕ) (ls : List ListRow)
    → DistinctLists ls
    → any (λ l. blocks l && eqb l.id i) ls ≡ true
    → is_whitelist_id i ls ≡ false
unfolding any
blocks-is_whitelist_id i [] h a = refl
blocks-is_whitelist_id i (l ∷ ls) h a = ground (
  arith,
  blocks-is_whitelist_id i ls h.3,
  absent-is_whitelist_id i ls,
  absent-admitted blocks i ls,
  eqb_iff l.id i,
  h.0,
)

allows-is_whitelist_id :
    (i : ℕ) (ls : List ListRow)
    → any (λ l. allows l && eqb l.id i) ls ≡ true
    → is_whitelist_id i ls ≡ true
unfolding any
allows-is_whitelist_id i [] a = a
allows-is_whitelist_id i (l ∷ ls) a = ground (arith, allows-is_whitelist_id i ls)

leaves-after :
    {A : Type 0} (m : Exec Store A) (t u : Tables) (a : A)
    → m (healthy t) ≡ (ok a, healthy u)
    → m (healthy t) ≡ (ok a, healthy (after m t))
leaves-after m t u a e = e ∙ ap (λ v. (ok a, healthy v)) (sym (ap (λ w. w.1.tables) e))

pub block_names-runs :
    (ns : List String) (t : Tables)
    → (b : Bool) × (block_names ns 0 (healthy t) ≡ (ok b, healthy (after (block_names ns 0) t)))
block_names-runs [] t = (false, unfold block_names in refl)
block_names-runs (n ∷ ns) t =
    let (u, e, same, each) = block_names-healthy n ns t in
    (true, leaves-after (block_names (n ∷ ns) 0) t u true e)

unblock_names-runs :
    (ns : List String) (w : ℕ) (t : Tables)
    → id_of "WHITELIST" t.lists ≡ some w
    → (b : Bool) × (unblock_names ns (healthy t) ≡ (ok b, healthy (after (unblock_names ns) t)))
unblock_names-runs [] w t h = (false, unfold unblock_names in refl)
unblock_names-runs (n ∷ ns) w t h =
    let (u, e, same, each) = unblock_names-healthy n ns w t h in
    (true, leaves-after (unblock_names (n ∷ ns)) t u true e)

-- The lists that decide on a name's exemption, at the id of its row.
abbrev exempt_at : List ListRow → Option ℕ → Bool
exempt_at ls o = elim o [ none ↦ false | some i ↦ is_whitelist_id i ls ]

on_whitelist-exempt_at :
    (n : String) (t : Tables) → on_whitelist n t ≡ exempt_at t.lists (lookup n t.domains)
on_whitelist-exempt_at n t = refl

module _ (getaddrinfo : String → Resolution) where
  exempt-block :
      (ds : List String) (n : String) (i w : ℕ) (t : Tables)
      → IsReady i w t
      → on_whitelist n (after (block_domains getaddrinfo ds 0) t) ≡ on_whitelist n t
  unfolding block_domains
  exempt-block ds n i w t r =
      let (same, each) = block_names-leaves (filter_valid getaddrinfo ds) i t r.custom_id in
      rw (on_whitelist-exempt_at n _, same, each n)
        (ground (
          arith,
          on_whitelist-exempt_at n t,
          blocks-is_whitelist_id i t.lists r.consistent.lists_keys r.custom_blocks,
        ))

  exempt-unblock :
      (ds : List String) (n : String) (i w : ℕ) (t : Tables)
      → IsReady i w t
      → on_whitelist n (after (unblock_domains getaddrinfo ds) t)
        ≡ (if accepted getaddrinfo n ds then true else on_whitelist n t)
  unfolding unblock_domains
  exempt-unblock ds n i w t r =
      let (same, each) = unblock_names-leaves (filter_valid getaddrinfo ds) w t r.whitelist_id in
      rw (on_whitelist-exempt_at n _, same, each n, contains-filter_valid getaddrinfo n ds)
        (ground
          (arith, on_whitelist-exempt_at n t, allows-is_whitelist_id w t.lists r.whitelist_allows))

  record Refines (c : Command) (i w : ℕ) (t : Tables) : Type 0 where
    result : Bool
    runs :
        perform getaddrinfo c (healthy t) ≡ (ok result, healthy (after (perform getaddrinfo c) t))
    ready : IsReady i w (after (perform getaddrinfo c) t)
    promised :
        (n : String) → view (after (perform getaddrinfo c) t) n ≡ promise getaddrinfo c n (view t n)

  block-IsReady :
      (ds : List String) (i w : ℕ) (t : Tables)
      → IsReady i w t
      → IsReady i w (after (block_domains getaddrinfo ds 0) t)
  unfolding block_domains
  block-IsReady ds i w t r =
      let (same, each) = block_names-leaves (filter_valid getaddrinfo ds) i t r.custom_id in
      record {
        consistent = (block_domains-IsSound getaddrinfo ds 0).holds (healthy t) r.consistent;
        custom_id = rw same r.custom_id;
        custom_blocks = rw same r.custom_blocks;
        whitelist_id = rw same r.whitelist_id;
        whitelist_allows = rw same r.whitelist_allows;
      }

  unblock-IsReady :
      (ds : List String) (i w : ℕ) (t : Tables)
      → IsReady i w t
      → IsReady i w (after (unblock_domains getaddrinfo ds) t)
  unfolding unblock_domains
  unblock-IsReady ds i w t r =
      let (same, each) = unblock_names-leaves (filter_valid getaddrinfo ds) w t r.whitelist_id in
      record {
        consistent = (unblock_domains-IsSound getaddrinfo ds).holds (healthy t) r.consistent;
        custom_id = rw same r.custom_id;
        custom_blocks = rw same r.custom_blocks;
        whitelist_id = rw same r.whitelist_id;
        whitelist_allows = rw same r.whitelist_allows;
      }

  perform-Refines : (c : Command) (i w : ℕ) (t : Tables) → IsReady i w t → Refines c i w t
  unfolding perform promise block_domains unblock_domains
  perform-Refines (block ds) i w t r =
      let (b, e) = block_names-runs (filter_valid getaddrinfo ds) t in
      record {
        result = b;
        runs = e;
        ready = block-IsReady ds i w t r;
        promised = λ n.
            Mark-equal _ _
              (block_domains-blocks getaddrinfo ds n i t r.consistent r.custom_id r.custom_blocks)
              (exempt-block ds n i w t r);
      }
  perform-Refines (unblock ds) i w t r =
      let (b, e) = unblock_names-runs (filter_valid getaddrinfo ds) w t r.whitelist_id in
      record {
        result = b;
        runs = e;
        ready = unblock-IsReady ds i w t r;
        promised = λ n.
            Mark-equal _ _
              (unblock_domains-allows getaddrinfo ds n w t r.consistent r.whitelist_id
                r.whitelist_allows).0
              (exempt-unblock ds n i w t r);
      }

  perform_all-cons :
      (c : Command) (cs : List Command) (i w : ℕ) (t : Tables)
      → Refines c i w t
      → perform_all getaddrinfo (c ∷ cs) (healthy t)
        ≡ perform_all getaddrinfo cs (healthy (after (perform getaddrinfo c) t))
  unfolding perform_all ◌>>=◌
  perform_all-cons c cs i w t one = rw one.runs refl

  -- The database and the managers implement the promise: on a database that answers and has the two
  -- lists, any sequence of commands to block and to unblock is carried out, and then every name has the mark that
  -- the promise gives it, starting from its mark before.
  pub perform_all-refines :
      (cs : List Command) (i w : ℕ) (t : Tables) (n : String)
      → IsReady i w t
      → ((perform_all getaddrinfo cs (healthy t)).0 ≡ ok tt)
        × (view (after (perform_all getaddrinfo cs) t) n ≡ promise_all getaddrinfo cs n (view t n))
  unfolding promise_all
  perform_all-refines [] i w t n r = unfold perform_all pure in (refl, refl)
  perform_all-refines (c ∷ cs) i w t n r =
      let one = perform-Refines c i w t r in
      let (done, kept) = perform_all-refines cs i w (after (perform getaddrinfo c) t) n one.ready in
      let step = perform_all-cons c cs i w t one in
      (
        ap (λ u. u.0) step ∙ done,
        ap (λ u. view u.1.tables n) step
            ∙ (kept ∙ ap (promise_all getaddrinfo cs n) (one.promised n)),
      )
