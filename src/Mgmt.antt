-- ===== src/Mgmt.antt =====
-- src/dbl/mgmt/mgmt.cxx: the management commands of the command line.
pub mod Conflicts
pub mod Returns
use Prim.Native.String.{◌++◌}
use dbl_service.Prelude.{
  ℕ, zero, suc, String, Bool, true, false, not, ◌||◌, Option, none, some, List, [], ◌∷◌, ◌==◌,
  if◌then◌else◌, contains, ltb,
}
use dbl_service.Fallible.{Result, ok, err, runtime_error, Exec, pure, throw, ◌>>=◌, ◌>>◌}
use dbl_service.Fallible.Results.{lift}
use dbl_service.Types.{DomainList}
use dbl_service.Validator.{Resolution, is_empty}
use dbl_service.Json.{Json}
use dbl_service.Json.Convert.{list_to_json}
use dbl_service.Storage.{Store}
use dbl_service.Manager.DomainLists
use dbl_service.Manager.Blocking.{block_domains, unblock_domains}

-- The options that the constructor and add_list() read, and config.is_fatal.
pub record Request : Type 0 where
  pub add_list : Bool
  pub delete_list : String
  pub export_list : String
  pub enable_list : String
  pub disable_list : String
  pub block : List String
  pub unblock : List String
  pub list_name : String
  pub list_url : String
  pub list_description : String
  pub is_fatal : Bool

abbrev is_set : String → Bool
is_set s = not (s == "")

unfoldable pub has_work : Request → Bool
has_work r =
    r.add_list
    || is_set r.delete_list
    || is_set r.export_list
    || is_set r.enable_list
    || is_set r.disable_list
    || not (is_empty r.block)
    || not (is_empty r.unblock)

-- The warnings on domains that are to be blocked and unblocked, or the first as an error.
unfoldable pub conflicts : Bool → List String → List String → Result (List String)
conflicts is_fatal unblock [] = ok []
conflicts is_fatal unblock (d ∷ ds) =
    let rest = conflicts is_fatal unblock ds in
    let message = "Conflicting domain (will be blocked): " ++ d in
    if contains d unblock
    then (if is_fatal
        then err (runtime_error message)
        else elim rest [ ok warnings ↦ ok (message ∷ warnings) | err e ↦ err e ])
    else rest

module _ (json : Json) (getaddrinfo : String → Resolution) (r : Request) where
  -- The result, and the lines that are written to the terminal.
  abbrev pub Command : Type 0
  Command = Exec Store (Bool × List String)

  abbrev pub unblock_given : List String → Exec Store Bool
  unblock_given [] = pure false
  unblock_given (d ∷ ds) = unblock_domains getaddrinfo (d ∷ ds)

  abbrev pub block_given : List String → Command
  block_given [] = pure (true, [])
  block_given (d ∷ ds) = do
    warnings ← lift (conflicts r.is_fatal r.unblock (d ∷ ds))
    block_domains getaddrinfo (d ∷ ds) 0
    pure (true, warnings)

  unfoldable pub manage_domains : Command
  manage_domains = do unblock_given r.unblock; block_given r.block

  abbrev pub exported : Option DomainList → Command
  exported none = pure (true, [])
  exported (some l) = pure (true, json.print (list_to_json json l json.null_value) ∷ [])

  unfoldable pub export_list : Command
  export_list = do l ← DomainLists.get r.export_list true; exported l

  unfoldable pub add_list : Command
  add_list =
      if r.list_name == ""
      then throw (runtime_error "Cannot add list, name missing")
      else if r.list_url == ""
      then throw (runtime_error "Cannot add list, url missing")
      else (do
        id ← DomainLists.create r.list_name r.list_url r.list_description false
        pure (ltb 0 id, []))

  abbrev silent : Exec Store Bool → Command
  silent m = do b ← m; pure (b, [])

  unfoldable pub manage : Command
  unfolding manage_domains export_list add_list
  manage =
      if r.add_list
      then add_list
      else if is_set r.delete_list
      then silent (DomainLists.remove r.delete_list)
      else if is_set r.enable_list
      then silent (DomainLists.set_enabled r.enable_list true)
      else if is_set r.disable_list
      then silent (DomainLists.set_enabled r.disable_list false)
      else if is_set r.export_list
      then export_list
      else if not (is_empty r.block) || not (is_empty r.unblock)
      then manage_domains
      else pure (false, [])
