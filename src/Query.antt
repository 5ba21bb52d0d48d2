-- ===== src/Query.antt =====
-- src/dbl/query/query.cxx: the query mode. How the stream writes an optional text is boost's, a parameter.
use Prim.Native.String.{◌++◌}
use dbl_service.Prelude.{
  String, Bool, true, false, not, Option, none, some, List, [], ◌∷◌, ◌==◌, if◌then◌else◌, map,
}
use dbl_service.Fallible.{Exec, pure, ◌>>=◌}
use dbl_service.Types.{Domain, DomainList}
use dbl_service.Storage.{Store}
use dbl_service.Manager.Domains
use dbl_service.Manager.DomainLists

-- The options that run() reads.
pub record Request : Type 0 where
  pub domain_lists : Bool
  pub domains : Bool
  pub domain : String

abbrev pub digit : Bool → String
digit true = "1"
digit false = "0"

module _ (show : Option String → String) where
  -- The result, and the lines that are written to the terminal.
  abbrev pub Command : Type 0
  Command = Exec Store (Bool × List String)

  abbrev pub list_line : DomainList → String
  list_line r =
      r.name
      ++ " :: "
      ++ "Active: "
      ++ digit r.active
      ++ ", Custom: "
      ++ digit r.custom
      ++ " :: "
      ++ show r.description

  unfoldable pub print_domain_lists : Command
  unfolding DomainLists.get_all
  print_domain_lists = do records ← DomainLists.get_all; pure (true, map list_line records)

  unfoldable pub print_blocked_domains : Command
  unfolding Domains.get_blocked
  print_blocked_domains = do records ← Domains.get_blocked; pure (true, map (λ r. r.name) records)

  abbrev pub domain_line : Option Domain → Bool × List String
  domain_line none = (false, [])
  domain_line (some d) =
      if not (d.name == "") then (true, (d.name ++ " :" ++ show d.list_name) ∷ []) else (false, [])

  unfoldable pub print_domain_details : String → Command
  unfolding Domains.get_by_name
  print_domain_details name = do found ← Domains.get_by_name name; pure (domain_line found)

  unfoldable pub run : Request → Command
  unfolding print_domain_lists print_blocked_domains print_domain_details
  run r =
      if r.domain_lists
      then print_domain_lists
      else if r.domains
      then print_blocked_domains
      else if not (r.domain == "")
      then print_domain_details r.domain
      else pure (true, [])
