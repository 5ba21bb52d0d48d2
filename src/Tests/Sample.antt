-- ===== src/Tests/Sample.antt =====
-- A small JSON library, an environment of the server, and the tables of a fresh database.
use Prim.Native.String.{◌++◌}
use dbl_service.Prelude.{
  ℕ, String, Bool, true, false, Option, none, some, List, [], ◌∷◌, ◌==◌, if◌then◌else◌,
}
use dbl_service.Fallible.{runtime_error, Result, ok, err}
use dbl_service.Validator.{Resolution, resolved, resolver_error}
use dbl_service.Storage.{Tables}
use dbl_service.Storage.Session.{healthy}
use dbl_service.Json.{Json}
use dbl_service.Service.{Env, Connection}

mutual
  pub data Tree : Type 0 where
    nothing : Tree
    leaf : String → Tree
    digit : ℕ → Tree
    truth : Bool → Tree
    sequence : Trees → Tree
    object : Fields → Tree

  pub data Trees : Type 0 where
    end : Trees
    item : Tree → Trees → Trees

  pub data Fields : Type 0 where
    none_left : Fields
    field : String → Tree → Fields → Fields

abbrev pub find : Fields → String → Tree
find none_left k = nothing
find (field l v fs) k = if l == k then v else find fs k

abbrev pub member : Tree → String → Result Tree
member nothing k = ok nothing
member (object fs) k = ok (find fs k)
member (leaf s) k = err (runtime_error "not an object")
member (digit n) k = err (runtime_error "not an object")
member (truth b) k = err (runtime_error "not an object")
member (sequence ts) k = err (runtime_error "not an object")

abbrev pub as_string : Tree → Result String
as_string nothing = ok ""
as_string (leaf s) = ok s
as_string (object fs) = err (runtime_error "not a text")
as_string (digit n) = ok "1"
as_string (truth true) = ok "true"
as_string (truth false) = ok "false"
as_string (sequence ts) = err (runtime_error "not a text")

abbrev as_bool : Tree → Result Bool
as_bool (truth b) = ok b
as_bool nothing = ok false
as_bool (leaf s) = err (runtime_error "not a flag")
as_bool (object fs) = err (runtime_error "not a flag")
as_bool (digit n) = ok true
as_bool (sequence ts) = err (runtime_error "not a flag")

abbrev as_int : Tree → Result ℕ
as_int (digit n) = ok n
as_int nothing = ok 0
as_int (leaf s) = err (runtime_error "not a number")
as_int (object fs) = err (runtime_error "not a number")
as_int (truth b) = ok 1
as_int (sequence ts) = err (runtime_error "not a number")

abbrev is_array : Tree → Bool
is_array (sequence ts) = true
is_array nothing = false
is_array (leaf s) = false
is_array (digit n) = false
is_array (truth b) = false
is_array (object fs) = false

abbrev pub is_object : Tree → Bool
is_object (object fs) = true
is_object nothing = false
is_object (leaf s) = false
is_object (digit n) = false
is_object (truth b) = false
is_object (sequence ts) = false

abbrev is_empty : Tree → Bool
is_empty nothing = true
is_empty (sequence end) = true
is_empty (object none_left) = true
is_empty (sequence (item t ts)) = false
is_empty (object (field k v fs)) = false
is_empty (leaf s) = false
is_empty (digit n) = false
is_empty (truth b) = false

abbrev items : Trees → List Tree
items end = []
items (item t ts) = t ∷ items ts

abbrev elements : Tree → List Tree
elements (sequence ts) = items ts
elements nothing = []
elements (leaf s) = []
elements (digit n) = []
elements (truth b) = []
elements (object fs) = []

abbrev pub assign : Tree → String → Tree → Tree
assign (object fs) k v = object (field k v fs)
assign nothing k v = object (field k v none_left)
assign (leaf s) k v = leaf s
assign (digit n) k v = digit n
assign (truth b) k v = truth b
assign (sequence ts) k v = sequence ts

abbrev snoc : Trees → Tree → Trees
snoc end t = item t end
snoc (item u us) t = item u (snoc us t)

abbrev append : Tree → Tree → Tree
append (sequence ts) t = sequence (snoc ts t)
append nothing t = sequence (item t end)
append (object fs) t = object fs
append (leaf s) t = leaf s
append (digit n) t = digit n
append (truth b) t = truth b

-- Texts, flags and objects are written.
abbrev fields_text : Fields → String
fields_text none_left = ""
fields_text (field k (leaf s) fs) = k ++ "=" ++ s ++ ";" ++ fields_text fs
fields_text (field k nothing fs) = fields_text fs
fields_text (field k (digit n) fs) = fields_text fs
fields_text (field k (truth true) fs) = k ++ "+" ++ fields_text fs
fields_text (field k (truth false) fs) = k ++ "-" ++ fields_text fs
fields_text (field k (sequence ts) fs) = fields_text fs
fields_text (field k (object gs) fs) = k ++ "{" ++ fields_text gs ++ "}" ++ fields_text fs

abbrev pub print : Tree → String
print (object fs) = fields_text fs
print nothing = "null"
print (leaf s) = s
print (digit n) = "1"
print (truth b) = "true"
print (sequence ts) = "[]"

-- A request with a command and one field of data.
abbrev pub request_tree : String → String → Tree → Tree
request_tree cmd key v =
    object (field "command" (leaf cmd) (field "data" (object (field key v none_left)) none_left))

-- A request and a reply as the client and the server build them.
abbrev message : String → Tree → Tree
message cmd params = object (field "data" params (field "command" (leaf cmd) none_left))

abbrev reply : Fields → Tree
reply fs = object (field "data" (object fs) (field "success" (truth true) none_left))

-- The texts that stand for messages: a token request, two presented hashes, and a block.
abbrev pub parse : String → Option Tree
parse s =
    if s == "token"
    then some (request_tree "get_token" "hash" nothing)
    else if s == "guess"
    then some (request_tree "auth" "hash" (leaf "wrong"))
    else if s == "right"
    then some (request_tree "auth" "hash" (leaf "##aaaaaaaaaaaaaaaaaaaaaaaaaaaaaaa/t"))
    else if s == "block"
    then some (request_tree "block" "domains" (sequence (item (leaf "ads.example") end)))
    else if s == "reload"
    then some (request_tree "reload" "force" nothing)
    else if s == "command=get_token;"
    then some (message "get_token" nothing)
    else if s == "data{token=/t;}success+"
    then some (reply (field "token" (leaf "/t") none_left))
    else if s == "data{hash=##aaaaaaaaaaaaaaaaaaaaaaaaaaaaaaa/t;}command=auth;"
    then some (
        message "auth"
          (object (field "hash" (leaf "##aaaaaaaaaaaaaaaaaaaaaaaaaaaaaaa/t") none_left)))
    else if s == "data{}success+"
    then some (reply none_left)
    else if s == "error_message=Invalid auth;success-"
    then some (
        object
          (field "error_message" (leaf "Invalid auth") (field "success" (truth false) none_left)))
    else none

abbrev pub sample_json : Json
sample_json = record {
  Value = Tree;
  parse = parse;
  messages = λ s. "unexpected text";
  member = member;
  as_string = as_string;
  as_bool = as_bool;
  as_int = as_int;
  is_array = is_array;
  is_object = is_object;
  is_empty = is_empty;
  elements = elements;
  null_value = nothing;
  array_value = sequence end;
  object_value = object none_left;
  text = leaf;
  number = digit;
  negative = λ n. nothing;
  flag = truth;
  assign = assign;
  append = append;
  print = print;
}

abbrev pub sample_hash : String → String
sample_hash s = "#" ++ s

abbrev pub sample_resolver : String → Resolution
sample_resolver s = if s == "nowhere.example" then resolver_error "unknown" else resolved

abbrev pub sample_env : Env
sample_env = record {
  json = sample_json;
  getaddrinfo = sample_resolver;
  md5 = sample_hash;
  to_lower = λ s. s;
  now = 7;
  is_debug = false;
  close_error = none;
  token = "/t";
  status = record {
    start_tstamp = 0;
    os = "Linux";
    nodename = "n";
    version = "0.0.1";
    total_lists = 2;
    total_blocked_domains = 0;
  };
}

abbrev pub sample_password : String
sample_password = "#aaaaaaaaaaaaaaaaaaaaaaaaaaaaaaa"

abbrev pub empty_tables : Tables
empty_tables = record { settings = []; lists = []; domains = []; stats = []; foreign_keys = true }

-- A database after its setup, with a password, one blocked and one whitelisted domain.
abbrev pub sample_tables : Tables
sample_tables = record {
  settings = ("service_password", sample_password) ∷ [];
  lists =
      record {
        id = 1;
        name = "CUSTOM";
        url = "";
        description = some "Custom, uncategorized list";
        active = true;
        custom = true;
        is_whitelist = false;
        mtime = 0;
      }
      ∷ record {
        id = 2;
        name = "WHITELIST";
        url = "";
        description = some "Custom, default whitelist";
        active = true;
        custom = true;
        is_whitelist = true;
        mtime = 0;
      }
      ∷ [];
  domains = ("track.example", 1) ∷ ("good.example", 2) ∷ [];
  stats = [];
  foreign_keys = true;
}

abbrev pub sample_connection : Connection
sample_connection = record {
  store = healthy sample_tables;
  is_authenticated = false;
  is_open = true;
  stop_signaled = false;
}
