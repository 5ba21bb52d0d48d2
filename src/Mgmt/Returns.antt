-- ===== src/Mgmt/Returns.antt =====
-- That manage_domains() of src/dbl/mgmt/mgmt.cxx returns true.
use dbl_service.Prelude.{ℕ, String, ◌≡◌, refl, Bool, true, false, some, List, [], ◌∷◌, ◌∙◌, ap, sym}
use dbl_service.Fallible.{Exec, ok, pure, ◌>>=◌}
use dbl_service.Fallible.Results.{lift}
use dbl_service.Validator.{Resolution}
use dbl_service.Json.{Json}
use dbl_service.Storage.{Tables, Store}
use dbl_service.Storage.Statements.{id_of}
use dbl_service.Storage.Session.{healthy}
use dbl_service.Manager.Domains.{filter_valid}
use dbl_service.Manager.Blocking.{block_domains}
use dbl_service.Manager.Blocking.Lists.{after}
use dbl_service.Manager.Blocking.Refinement.{block_names-runs}
use dbl_service.Mgmt.{Request, block_given, manage_domains}
use dbl_service.Mgmt.Conflicts.{conflicts-warns, unblocked, unblock_given-answers}

-- The action returns true on a database that answers, which answers afterwards too.
abbrev pub Succeeds : Exec Store (Bool × List String) → Tables → Type 0
Succeeds m t = (ws : List String) × (m (healthy t) ≡ (ok (true, ws), healthy (after m t)))

-- Nothing but domains to be blocked, and to be unblocked, is given; conflicts are only warned about.
abbrev pub blocking : List String → List String → Request
blocking b u = record {
  add_list = false;
  delete_list = "";
  export_list = "";
  enable_list = "";
  disable_list = "";
  block = b;
  unblock = u;
  list_name = "";
  list_url = "";
  list_description = "";
  is_fatal = false;
}

succeeded :
    (m : Exec Store (Bool × List String)) (t u : Tables) (ws : List String)
    → m (healthy t) ≡ (ok (true, ws), healthy u)
    → Succeeds m t
succeeded m t u ws e = (ws, e ∙ ap (λ v. (ok (true, ws), healthy v)) (sym (ap (λ w. w.1.tables) e)))

module _ (json : Json) (getaddrinfo : String → Resolution) (b u : List String) where
  abbrev r : Request
  r = blocking b u

  block_given-succeeds :
      (ds : List String) (t : Tables) → Succeeds (block_given json getaddrinfo r ds) t
  unfolding ◌>>=◌ lift
  block_given-succeeds [] t = ([], unfold pure in refl)
  block_given-succeeds (d ∷ ds) t =
      let (ws, e) = conflicts-warns u (d ∷ ds) in
      let (x, f) = block_names-runs (filter_valid getaddrinfo (d ∷ ds)) t in
      succeeded (block_given json getaddrinfo r (d ∷ ds)) t
        (after (block_domains getaddrinfo (d ∷ ds) 0) t) ws
        (rw e (unfold block_domains pure in rw f refl))

  pub manage_domains-succeeds :
      (w : ℕ) (t : Tables)
      → id_of "WHITELIST" t.lists ≡ some w
      → Succeeds (manage_domains json getaddrinfo r) t
  unfolding manage_domains ◌>>=◌
  manage_domains-succeeds w t white =
      let (x, first) = unblock_given-answers getaddrinfo json r u w t white in
      let t' = unblocked getaddrinfo u t in
      let (ws, e) = block_given-succeeds b t' in
      succeeded (manage_domains json getaddrinfo r) t (after (block_given json getaddrinfo r b) t')
        ws (rw (first, e) refl)
