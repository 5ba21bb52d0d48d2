-- ===== src/Json/Convert.antt =====
-- src/dbl/types/domain.cxx, domain_list.cxx and json_serializable.cxx, src/dbl/status: records to and
-- from JSON. An object that init_from_json leaves half filled when it throws is not used by its callers.
use dbl_service.Prelude.{
  ℕ, ◌%◌, ◌-◌, ltb, String, not, ◌&&◌, Option, none, some, List, [], ◌∷◌, if◌then◌else◌,
}
use dbl_service.Fallible.{Result, ok, err, runtime_error}
use dbl_service.Fallible.Results.{◌>>=◌, loop}
use dbl_service.Types.{Domain, DomainList, add_domain}
use dbl_service.Validator.{Resolution, is_valid}
use dbl_service.Json.{Json}

-- src/dbl/status/status.hxx
pub record Status : Type 0 where
  pub start_tstamp : ℕ
  pub os : String
  pub nodename : String
  pub version : String
  pub total_lists : ℕ
  pub total_blocked_domains : ℕ

module _ (j : Json) where
  open j use {
    Value, parse, member, as_string, as_int, is_array, is_object, is_empty, elements, array_value,
    null_value, text, number, negative, assign, append,
  }

  -- if(!root[key].empty()) { ... } else keep what there is
  abbrev read {ℓ} : {A : Type ℓ} → Value → String → (Value → Result A) → A → Result A
  read root key f old = do v ← member root key; (if is_empty v then ok old else f v)

  abbrev some_string : Value → Result (Option String)
  some_string v = do s ← as_string v; ok (some s)

  unfoldable pub domain_to_json : Domain → Value → Value
  domain_to_json d root =
      let named = assign root "name" (text d.name) in
      let listed = assign named "list_id" (number d.list_id) in
      elim d.list_name [ none ↦ listed | some n ↦ assign listed "list_name" (text n) ]

  -- operator Json::Value()
  unfoldable pub domain_value : Domain → Value
  unfolding domain_to_json
  domain_value d = domain_to_json d null_value

  unfoldable pub append_domains : List Domain → Value → Value
  unfolding domain_value
  append_domains [] arr = arr
  append_domains (d ∷ ds) arr = append_domains ds (append arr (domain_value d))

  unfoldable pub list_to_json : DomainList → Value → Value
  unfolding append_domains
  list_to_json l root =
      let named = assign root "name" (text l.name) in
      let located = assign named "url" (text l.url) in
      let described : Value = elim l.description [
        | none ↦ located
        | some s ↦ assign located "description" (text s)
      ] in
      assign described "domains" (append_domains l.domains array_value)

  unfoldable pub list_value : DomainList → Value
  unfolding list_to_json
  list_value l = list_to_json l null_value

  -- Json::Value(int(n)), by the 32 bits of n in two's complement
  unfoldable pub int_value : ℕ → Value
  int_value n =
      let m = n % 4294967296 in if ltb m 2147483648 then number m else negative (4294967295 - m)

  unfoldable pub status_to_json : Status → Value → Value
  status_to_json s root =
      let a = assign root "start_time" (int_value s.start_tstamp) in
      let b = assign a "version" (text s.version) in
      let c = assign b "os" (text s.os) in
      let d = assign c "nodename" (text s.nodename) in
      let e = assign d "domain_lists" (number s.total_lists) in
      assign e "blocked_domains" (number s.total_blocked_domains)

  unfoldable pub status_from_json : Value → Result Status
  status_from_json root =
      if is_object root
      then (do
        start ← member root "start_time"
        start_tstamp ← as_int start
        version ← member root "version"
        version_text ← as_string version
        os ← member root "os"
        os_text ← as_string os
        nodename ← member root "nodename"
        nodename_text ← as_string nodename
        blocked ← member root "blocked_domains"
        blocked_count ← as_int blocked
        lists ← member root "domain_lists"
        lists_count ← as_int lists
        ok (record {
          start_tstamp = start_tstamp;
          os = os_text;
          nodename = nodename_text;
          version = version_text;
          total_lists = lists_count;
          total_blocked_domains = blocked_count;
        }))
      else err (runtime_error "Invalid format")

  module _ (getaddrinfo : String → Resolution) where
    abbrev valid_or : String → Value → Result String
    valid_or old v = do s ← as_string v; ok (if (is_valid getaddrinfo s).0 then s else old)

    -- Domain::init_from_json
    unfoldable pub domain_from_json : Domain → Value → Result Domain
    unfolding is_valid
    domain_from_json d root =
        if is_object root
        then (do
          name ← read root "name" (valid_or d.name) d.name
          list_id ← read root "list_id" as_int d.list_id
          list_name ← read root "list_name" some_string d.list_name
          ok (record { name = name; list_id = list_id; list_name = list_name }))
        else err (runtime_error "Invalid format")

    -- One item of "domains": only a name that resolves is added.
    unfoldable pub add_item : DomainList → Value → Result DomainList
    unfolding is_valid add_domain
    add_item l item = do
      v ← member item "name"
      (if is_empty v
          then ok l
          else (do s ← as_string v; ok (if (is_valid getaddrinfo s).0 then add_domain l s else l)))

    -- DomainList::init_from_json
    unfoldable pub list_from_json : DomainList → Value → Result DomainList
    unfolding add_item loop
    list_from_json l root = do
      name ← read root "name" as_string l.name
      url ← read root "url" as_string l.url
      description ← read root "description" some_string l.description
      entries ← member root "domains"
      let named = record l { name = name; url = url; description = description }
      (if not (is_empty entries) && not (is_array entries)
          then err (runtime_error "Invalid format")
          else loop add_item named (elements entries))

    -- from_json(text): text that is no JSON changes nothing.
    unfoldable pub list_from_text : DomainList → String → Result DomainList
    unfolding list_from_json
    list_from_text l input = elim (parse input) [ none ↦ ok l | some root ↦ list_from_json l root ]
