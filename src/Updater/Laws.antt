-- ===== src/Updater/Laws.antt =====
-- What a run of the updater can do to the database.
use dbl_service.Prelude.{true, false, Option, none, some, List, [], ◌∷◌}
use dbl_service.Fallible.{
  runtime_error, operation_error, logic_error, null_pointer, Result, ok, err,
}
use dbl_service.Fallible.Keeps.{Keeps, Keeps-throw, Keeps-pure, Keeps-if, Keeps-bind, Keeps-then}
use dbl_service.Types.{DomainList}
use dbl_service.Storage.{Store}
use dbl_service.Storage.Integrity.{IsConsistent}
use dbl_service.Storage.Integrity.Transactions.{IsSound}
use dbl_service.Manager.Integrity.{get_all-IsSound, import_list-IsSound}
use dbl_service.Updater.{
  Source, Page, url_of, modified_at, is_newer, is_selected, import_parsed, import_page, update_list,
  update_each, run,
}

module _ (source : Source) where
  open source use {fetch_first, fetch_again, disable_list_update}

  import_parsed-IsSound : (r : Result DomainList) → Keeps IsSound (import_parsed source r)
  import_parsed-IsSound (ok l) =
      Keeps-then IsSound _ _ (import_list-IsSound source.now l false) (Keeps-pure true)
  import_parsed-IsSound (err (runtime_error m)) = Keeps-pure false
  import_parsed-IsSound (err (operation_error m es)) = Keeps-pure false
  import_parsed-IsSound (err (logic_error m)) = Keeps-throw _
  import_parsed-IsSound (err null_pointer) = Keeps-throw _

  import_page-IsSound : (l : DomainList) (p : Option Page) → Keeps IsSound (import_page source l p)
  import_page-IsSound l none = Keeps-pure false
  import_page-IsSound l (some p) = import_parsed-IsSound _

  update_list-IsSound : (l : DomainList) → Keeps IsSound (update_list source l)
  unfolding update_list
  update_list-IsSound l =
      Keeps-if (is_selected source l) _ _
        (Keeps-if (is_newer l.mtime (modified_at (fetch_first (url_of l) l.mtime))) _ _
          (import_page-IsSound l (fetch_again (url_of l) l.mtime)) (Keeps-pure false))
        (Keeps-pure false)

  update_each-IsSound : (ls : List DomainList) → Keeps IsSound (update_each source ls)
  unfolding update_each
  update_each-IsSound [] = Keeps-pure false
  update_each-IsSound (l ∷ ls) =
      Keeps-bind IsSound _ _ (update_list-IsSound l)
        λ a. Keeps-bind IsSound _ _ (update_each-IsSound ls) (λ b. Keeps-pure _)

  -- Whatever the pages say and whatever statements fail, a run of the updater keeps the constraints of the
  -- tables.
  pub run-IsConsistent : (s : Store) → IsConsistent s.tables → IsConsistent (run source s).1.tables
  unfolding run
  run-IsConsistent s h =
      (Keeps-if disable_list_update _ _ (Keeps-pure false)
          (Keeps-bind IsSound _ _ get_all-IsSound update_each-IsSound)).holds
        s h
