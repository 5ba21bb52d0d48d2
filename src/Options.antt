-- ===== src/Options.antt =====
-- src/dbl/options/options.cxx and .hxx, and validate_options of src/dbl/init/init.cxx. What
-- boost::program_options makes of the command line and of the configuration file is a parameter.
pub mod Table
pub mod Groups
pub mod Leaves
pub mod Settings
pub mod Proxies
use Prim.Native.String.{◌++◌}
use dbl_service.Prelude.{
  String, Bool, true, false, not, ◌||◌, Option, none, some, List, [], ◌∷◌, ◌==◌, if◌then◌else◌,
  Assoc, lookup,
}
use dbl_service.Fallible.{Result, ok, err, runtime_error}
use dbl_service.Fallible.Results.{◌>>=◌}
use dbl_service.Config.{Config}
use dbl_service.Options.Table.{Value, flag, text, texts, Declared}
use dbl_service.Options.Groups.{all_options, declarations}

-- boost::program_options::variables_map: the values in the order of the names
abbrev pub Variables : Type 0
Variables = Assoc Value

-- po::store of the parsed command line, and of the parsed configuration file, given the declared names
-- and their defaults; and the system: the name that uname() gives, in lower case, unless it fails;
-- whether a file exists, and its content if it can be read.
pub record Parser : Type 0 where
  pub store_command_line : Assoc (Option Value) → Variables → Result Variables
  pub store_config_file : Assoc (Option Value) → String → Variables → Result Variables
  pub platform : Option String
  pub exists : String → Bool
  pub read_file : String → Option String

abbrev pub assign : Option Declared → Value → Config → Config
assign none v c = c
assign (some d) v c = d.store_to v c

-- po::notify
unfoldable pub notify : Assoc Declared → Variables → Config → Config
unfolding lookup
notify table [] c = c
notify table ((name, v) ∷ vm) c = notify table vm (assign (lookup name table) v c)

abbrev pub is_present : Option Value → Bool
is_present none = false
is_present (some v) = true

unfoldable pub has_help : Variables → Bool
unfolding lookup
has_help vm = is_present (lookup "help" vm)

-- no_config, as notify() has set it
abbrev pub is_set : Option Value → Bool
is_set (some (flag b)) = b
is_set v = false

abbrev pub bad_cast : {A : Type 0} → Result A
bad_cast = err (runtime_error "bad_any_cast")

-- get<bool>, get<std::string> and get<std::vector<std::string>>
abbrev pub flag_of : Option Value → Result Bool
flag_of none = ok false
flag_of (some (flag b)) = ok b
flag_of (some v) = bad_cast

abbrev pub text_of : Option Value → Result String
text_of none = ok ""
text_of (some (text t)) = ok t
text_of (some v) = bad_cast

abbrev pub texts_of : Option Value → Result (List String)
texts_of none = ok []
texts_of (some (texts ts)) = ok ts
texts_of (some v) = bad_cast

unfoldable pub get_flag : String → Variables → Result Bool
unfolding lookup
get_flag name vm = flag_of (lookup name vm)

unfoldable pub get_text : String → Variables → Result String
unfolding lookup
get_text name vm = text_of (lookup name vm)

unfoldable pub get_texts : String → Variables → Result (List String)
unfolding lookup
get_texts name vm = texts_of (lookup name vm)

module _ (parser : Parser) where
  abbrev pub Parsed : Type 0
  Parsed = Variables × Config

  module _ (platform : String) where
    unfoldable pub merge_file :
        Assoc (Option Value) → Option String → Variables → Config → Result Parsed
    unfolding notify all_options
    merge_file declared none vm c = err (runtime_error "Cannot read configuration file")
    merge_file declared (some content) vm c = do
      all ← parser.store_config_file declared content vm
      ok (all, notify (all_options platform) all c)

    unfoldable pub read_config : Assoc (Option Value) → Variables → Config → Result Parsed
    unfolding merge_file
    read_config declared vm c =
        if parser.exists c.service_config
        then merge_file declared (parser.read_file c.service_config) vm c
        else err (runtime_error ("Configuration file does not exist: " ++ c.service_config))

    -- The try block; its catch clause throws the same text again.
    unfoldable pub store_all : Config → Result Parsed
    unfolding notify has_help read_config lookup all_options declarations
    store_all c = do
      vm ← parser.store_command_line (declarations platform c) []
      if has_help vm || is_set (lookup "no-config" vm)
          then ok (vm, notify (all_options platform) vm c)
          else read_config (declarations platform c) vm (notify (all_options platform) vm c)

  abbrev pub parse_on : Option String → Config → Result Parsed
  parse_on none c = err (runtime_error "uname() failed")
  parse_on (some platform) c = store_all platform c

  -- Options::parse: the options, and the configuration that is written
  unfoldable pub parse : Config → Result Parsed
  unfolding store_all
  parse c = parse_on parser.platform c

-- init::validate_options; the parameter is boost's to_lower
unfoldable pub validate_options : (String → String) → Variables → Result (Unit {0})
unfolding get_text
validate_options to_lower vm = do
  name ← get_text "dns-proxy" vm
  if not (to_lower name == "unbound")
      then (if not (to_lower name == "dnsmasq")
          then err (runtime_error "Invalid dnsproxy software")
          else ok tt)
      else ok tt
