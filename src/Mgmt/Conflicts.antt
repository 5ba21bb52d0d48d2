-- ===== src/Mgmt/Conflicts.antt =====
-- What manage_domains() of src/dbl/mgmt/mgmt.cxx leaves of names that are given to be blocked, to be
-- unblocked, or both.
use Prim.Native.String.{◌++◌}
use dbl_service.Prelude.{
  ℕ, String, ◌≡◌, refl, Bool, true, false, not, ◌&&◌, ◌||◌, some, List, [], ◌∷◌, arith,
  if◌then◌else◌, any, contains, lookup, Bool-cases, Option-cases, inl, inr, ◌∙◌, ap, eqb,
}
use dbl_service.Fallible.{Result, ok, err, pure, continue, ◌>>=◌}
use dbl_service.Fallible.Results.{lift}
use dbl_service.Validator.{Resolution}
use dbl_service.Json.{Json}
use dbl_service.Storage.{Tables, ListRow, Store}
use dbl_service.Storage.Statements.{id_of, is_whitelist_id, on_whitelist, select_blocked}
use dbl_service.Storage.Session.{healthy}
use dbl_service.Storage.Integrity.{IsConsistent}
use dbl_service.Storage.Integrity.Queries.{has_domain, admitted}
use dbl_service.Manager.Integrity.{unblock_domains-IsSound}
use dbl_service.Manager.Domains.{filter_valid}
use dbl_service.Manager.Blocking.{block_domains, block_names, unblock_domains, unblock_names}
use dbl_service.Manager.Blocking.Lists.{
  blocks, allows, after, accepted, contains-filter_valid, unblock_names-leaves,
  block_domains-blocks, unblock_domains-allows,
}
use dbl_service.Manager.Blocking.Effect.{unblock_names-healthy}
use dbl_service.Mgmt.{Request, conflicts, unblock_given, block_given, manage_domains}

allows-is_whitelist :
    (w : ℕ) (ls : List ListRow)
    → any (λ l. allows l && eqb l.id w) ls ≡ true
    → is_whitelist_id w ls ≡ true
unfolding any
allows-is_whitelist w [] h = absurd (cc h)
allows-is_whitelist w (l ∷ ls) h = ground (arith, allows-is_whitelist w ls)

pub conflicts-warns :
    (unblock ds : List String) → (ws : List String) × (conflicts false unblock ds ≡ ok ws)
unfolding conflicts
conflicts-warns unblock [] = ([], refl)
conflicts-warns unblock (d ∷ ds) =
    let (ws, e) = conflicts-warns unblock ds in
    elim (Bool-cases (contains d unblock)) [
      | inl h ↦ (("Conflicting domain (will be blocked): " ++ d) ∷ ws, rw (h, e) refl)
      | inr h ↦ (ws, rw (h, e) refl)
    ]

on_whitelist-moved :
    (n : String) (w : ℕ) (moved : Bool) (t t' : Tables)
    → t'.lists ≡ t.lists
    → lookup n t'.domains ≡ (if moved then some w else lookup n t.domains)
    → is_whitelist_id w t.lists ≡ true
    → on_whitelist n t' ≡ (moved || on_whitelist n t)
on_whitelist-moved n w true t t' same e h = rw (e, on_whitelist) (rw same h)
on_whitelist-moved n w false t t' same e h = elim (Option-cases (lookup n t.domains)) [
  | inl o ↦ rw (e, o, on_whitelist) refl
  | inr (k, o) ↦ rw (e, o, on_whitelist) (rw same refl)
]

chosen :
    (a b o old : Bool)
    → (if b && not (a || o) then true else if a then false else old)
      ≡ (if a then false else if b && not o then true else old)
chosen true true o old = refl
chosen true false o old = refl
chosen false b o old = refl

module _ (getaddrinfo : String → Resolution) where
  unblock_names-answers :
      (ns : List String) (w : ℕ) (t : Tables)
      → id_of "WHITELIST" t.lists ≡ some w
      → (b : Bool) × (unblock_names ns (healthy t) ≡ (ok b, healthy (after (unblock_names ns) t)))
  unblock_names-answers [] w t h = (false, unfold unblock_names pure in refl)
  unblock_names-answers (n ∷ ns) w t h =
      let (t', done, same, each) = unblock_names-healthy n ns w t h in (true, rw (done, after) refl)

  -- What the unblocked names leave: as after unblock_domains, also if none is given.
  abbrev pub unblocked : List String → Tables → Tables
  unblocked ds t = after (unblock_domains getaddrinfo ds) t

  unblocked-leaves :
      (ds : List String) (w : ℕ) (t : Tables)
      → id_of "WHITELIST" t.lists ≡ some w
      → ((unblocked ds t).lists ≡ t.lists)
        × ((m : String)
            → lookup m (unblocked ds t).domains
              ≡ (if accepted getaddrinfo m ds then some w else lookup m t.domains))
  unfolding unblock_domains
  unblocked-leaves ds w t h =
      let (same, each) = unblock_names-leaves (filter_valid getaddrinfo ds) w t h in
      (same, λ m. rw⁻¹ (contains-filter_valid getaddrinfo m ds) (each m))

  module _ (json : Json) (r : Request) where
    pub unblock_given-answers :
        (ds : List String) (w : ℕ) (t : Tables)
        → id_of "WHITELIST" t.lists ≡ some w
        → (b : Bool) × (unblock_given json getaddrinfo r ds (healthy t)
            ≡ (ok b, healthy (unblocked ds t)))
    unblock_given-answers [] w t h =
        (false, unfold unblock_domains unblock_names filter_valid pure in refl)
    unblock_given-answers (d ∷ ds) w t h =
        unfold unblock_domains in unblock_names-answers (filter_valid getaddrinfo (d ∷ ds)) w t h

    settled : {A B : Type 0} (x : Result A) (b : B) (s : Store) → (continue x (λ _. pure b) s).1 ≡ s
    unfolding pure
    settled (ok a) b s = refl
    settled (err e) b s = refl

    -- If conflicts are no errors, the given names are blocked as by block_domains, also if none is given.
    block_given-leaves :
        (ds : List String) (t : Tables)
        → r.is_fatal ≡ false
        → after (block_given json getaddrinfo r ds) t ≡ after (block_domains getaddrinfo ds 0) t
    unfolding ◌>>=◌ lift
    block_given-leaves [] t h = unfold block_domains block_names filter_valid pure in refl
    block_given-leaves (d ∷ ds) t h =
        let (ws, e) = conflicts-warns r.unblock (d ∷ ds) in
        let (x, s) = block_domains getaddrinfo (d ∷ ds) 0 (healthy t) in
        rw (h, e) (ap (λ (s : Store). s.tables) (settled x (true, ws) s))

    manage_domains-leaves :
        (w : ℕ) (t : Tables)
        → r.is_fatal ≡ false
        → id_of "WHITELIST" t.lists ≡ some w
        → after (manage_domains json getaddrinfo r) t
          ≡ after (block_domains getaddrinfo r.block 0) (unblocked r.unblock t)
    unfolding manage_domains ◌>>=◌
    manage_domains-leaves w t warns white =
        let (b, first) = unblock_given-answers r.unblock w t white in
        rw (first, after) (block_given-leaves r.block (unblocked r.unblock t) warns)

    -- manage_domains() on a database that answers and has the lists CUSTOM and WHITELIST as they are set
    -- up, where conflicts are only warned about: a name that is given to be unblocked, and that the
    -- resolver knows, is not blocked afterwards, also if it is given to be blocked as well. Of the other
    -- names, those that are given to be blocked and are on no whitelist are blocked, and the rest is
    -- blocked if it was.
    pub manage_domains-blocks :
        (n : String) (i w : ℕ) (t : Tables)
        → r.is_fatal ≡ false
        → IsConsistent t
        → id_of "CUSTOM" t.lists ≡ some i
        → admitted blocks t.lists (some i) ≡ true
        → id_of "WHITELIST" t.lists ≡ some w
        → admitted allows t.lists (some w) ≡ true
        → has_domain n (select_blocked (after (manage_domains json getaddrinfo r) t)) ≡ (
            if accepted getaddrinfo n r.unblock
            then false
            else if accepted getaddrinfo n r.block && not (on_whitelist n t)
            then true
            else has_domain n (select_blocked t))
    manage_domains-blocks n i w t warns sound custom custom_blocks white white_allows =
        let t' = unblocked r.unblock t in
        let left = manage_domains-leaves w t warns white in
        let sound' : IsConsistent t' =
          (unblock_domains-IsSound getaddrinfo r.unblock).holds (healthy t) sound in
        let (same, each) = unblocked-leaves r.unblock w t white in
        let shut =
          (unblock_domains-allows getaddrinfo r.unblock n w t sound white white_allows).0 in
        let opened =
          block_domains-blocks getaddrinfo r.block n i t' sound' (rw same custom)
            (rw same custom_blocks) in
        let is_white = allows-is_whitelist w t.lists white_allows in
        let moved =
          on_whitelist-moved n w (accepted getaddrinfo n r.unblock) t t' same (each n) is_white in
        rw left (
          opened
          ∙ rw shut (
              rw moved (
                chosen (accepted getaddrinfo n r.unblock) (accepted getaddrinfo n r.block)
                  (on_whitelist n t) (has_domain n (select_blocked t)))))
