-- ===== src/Main/Requests.antt =====
-- The options of src/dbl/main.cxx, and what the query mode (src/dbl/query/query.cxx) and the management mode (src/dbl/mgmt/mgmt.cxx) read of the
-- options, in the order in which they read it: a value of another type is an exception.
use dbl_service.Prelude.{String, true, false, if◌then◌else◌}
use dbl_service.Fallible.{Result, ok}
use dbl_service.Fallible.Results.{◌>>=◌}
use dbl_service.Config.{Config, unix_config}
use dbl_service.Options.{Variables, Parser, parse, validate_options, get_flag, get_text, get_texts}
use dbl_service.Mgmt
use dbl_service.Query

-- Parsing and validating the options; the option --debug is read in between.
unfoldable pub parse_options : Parser → (String → String) → Result (Variables × Config)
unfolding parse validate_options get_flag
parse_options parser to_lower = do
  parsed ← parse parser unix_config
  debug ← get_flag "debug" parsed.0
  valid ← validate_options to_lower parsed.0
  ok parsed

-- The options that Query::run reads; it reads no further than it needs.
unfoldable pub query_request : Variables → Result Query.Request
unfolding get_flag get_text
query_request vm = do
  domain_lists ← get_flag "domain-lists" vm
  if domain_lists then ok (record { domain_lists = true; domains = false; domain = "" }) else (do
    domains ← get_flag "domains" vm
    if domains then ok (record { domain_lists = false; domains = true; domain = "" }) else (do
      domain ← get_text "domain" vm
      ok (record { domain_lists = false; domains = false; domain = domain })))

-- The options of add_list(), which only it reads.
abbrev pub with_list : Variables → Mgmt.Request → Result Mgmt.Request
with_list vm r =
    if r.add_list
    then (do
      name ← get_text "list-name" vm
      url ← get_text "list-url" vm
      description ← get_text "list-description" vm
      ok (record r { list_name = name; list_url = url; list_description = description }))
    else ok r

-- The constructor of Mgmt
unfoldable pub management_request : Config → Variables → Result Mgmt.Request
unfolding get_flag get_text get_texts
management_request config vm = do
  add_list ← get_flag "add-list" vm
  delete_list ← get_text "delete-list" vm
  export_list ← get_text "export-list" vm
  enable_list ← get_text "enable-list" vm
  disable_list ← get_text "disable-list" vm
  block ← get_texts "block" vm
  unblock ← get_texts "unblock" vm
  with_list vm (record {
    add_list = add_list;
    delete_list = delete_list;
    export_list = export_list;
    enable_list = enable_list;
    disable_list = disable_list;
    block = block;
    unblock = unblock;
    list_name = "";
    list_url = "";
    list_description = "";
    is_fatal = config.is_fatal;
  })
