-- ===== src/Json/RoundTrips.antt =====
-- What comes back where a record is written by to_json() and read by from_json(): the status, and a list
-- that one service exports and another imports.
use dbl_service.Prelude.{
  ℕ, ◌<◌, ◌%◌, arith, String, ◌≡◌, refl, true, Option, none, some, List, [], ◌∷◌, ◌++◌, Assoc,
  lookup, map, ap, ◌∙◌, sym, if◌then◌else◌, and-false, Bool-cases, inl, inr,
}
use mathlib.Core.List.{append_assoc, append-nil}
use dbl_service.Fallible.{ok}
use dbl_service.Fallible.Results.{loop}
use dbl_service.Types.{Domain, DomainList, new_domain, new_list, add_domain}
use dbl_service.Validator.{Resolution, is_valid}
use dbl_service.Json.{Json, IsLawful, HasItems}
use dbl_service.Json.Objects.{build, build-IsObject, member-build}
use dbl_service.Json.Convert.{
  Status, int_value, status_to_json, status_from_json, domain_to_json, domain_value, append_domains,
  list_to_json, list_value, add_item, list_from_json,
}

module _ (getaddrinfo : String → Resolution) where
  -- The domains that an import takes from a list: those whose names resolve, with nothing but the name.
  abbrev pub resolving : List Domain → List Domain
  resolving [] = []
  resolving (d ∷ ds) =
      let rest = resolving ds in
      if (is_valid getaddrinfo d.name).0 then record new_domain { name = d.name } ∷ rest else rest

  -- What an importing service makes of a list.
  abbrev pub imported : DomainList → Option String → DomainList
  imported l o = record new_list {
    name = l.name;
    url = l.url;
    description = elim o [ none ↦ some "" | some s ↦ some s ];
    domains = resolving l.domains;
  }

-- The numbers of the status are those of an int.
pub record IsSmall (s : Status) : Type 0 where
  pub start : s.start_tstamp < 2147483648
  pub lists : s.total_lists < 2147483648
  pub blocked : s.total_blocked_domains < 2147483648

module _ (j : Json) (lawful : IsLawful j) (items : HasItems j) where
  open j use {Value, member, text, number, assign, elements, array_value, null_value, object_value}

  int_value-number : (n : ℕ) → n < 2147483648 → int_value j n ≡ number n
  unfolding int_value
  int_value-number n h =
      let same : n % 4294967296 ≡ n = omega (arith, h) in rw same (ground (arith, h))

  abbrev status_members : Status → Assoc Value
  status_members s =
      ("blocked_domains", number s.total_blocked_domains)
      ∷ ("domain_lists", number s.total_lists)
      ∷ ("nodename", text s.nodename)
      ∷ ("os", text s.os)
      ∷ ("version", text s.version)
      ∷ ("start_time", number s.start_tstamp)
      ∷ []

  to_json-build :
      (s : Status)
      → s.start_tstamp < 2147483648
      → status_to_json j s object_value ≡ build j (status_members s)
  unfolding status_to_json
  to_json-build s h =
      let start = int_value-number s.start_tstamp h in
      ap
        (λ v.
          assign
            (assign
              (assign
                (assign (assign (assign object_value "start_time" v) "version" (text s.version))
                  "os" (text s.os))
                "nodename" (text s.nodename))
              "domain_lists" (number s.total_lists))
            "blocked_domains" (number s.total_blocked_domains))
        start

  pub status_from_json-to_json :
      (s : Status) → IsSmall s → status_from_json j (status_to_json j s object_value) ≡ ok s
  unfolding status_from_json status_to_json lookup
  status_from_json-to_json s small =
      let o = status_members s in
      rw
        (
          to_json-build s small.start,
          build-IsObject j lawful o,
          member-build j lawful o "start_time",
          items.as_int-number s.start_tstamp small.start,
          member-build j lawful o "version",
          lawful.as_string-text s.version,
          member-build j lawful o "os",
          lawful.as_string-text s.os,
          member-build j lawful o "nodename",
          lawful.as_string-text s.nodename,
          member-build j lawful o "blocked_domains",
          items.as_int-number s.total_blocked_domains small.blocked,
          member-build j lawful o "domain_lists",
          items.as_int-number s.total_lists small.lists,
        )
        refl

  abbrev domain_members : Domain → Option String → Assoc Value
  domain_members d none = ("list_id", number d.list_id) ∷ ("name", text d.name) ∷ []
  domain_members d (some n) =
      ("list_name", text n) ∷ ("list_id", number d.list_id) ∷ ("name", text d.name) ∷ []

  domain_value-build :
      (d : Domain) (o : Option String)
      → domain_value j (record d { list_name = o }) ≡ build j (domain_members d o)
  unfolding domain_value domain_to_json
  domain_value-build d none =
      ap (λ o. assign o "list_id" (number d.list_id)) (lawful.assign-null "name" (text d.name))
  domain_value-build d (some n) =
      ap (λ o. assign (assign o "list_id" (number d.list_id)) "list_name" (text n))
        (lawful.assign-null "name" (text d.name))

  member-domain_value :
      (d : Domain) (o : Option String)
      → member (domain_value j (record d { list_name = o })) "name" ≡ ok (text d.name)
  unfolding lookup
  member-domain_value d none =
      rw (domain_value-build d none) (member-build j lawful (domain_members d none) "name")
  member-domain_value d (some n) =
      rw (domain_value-build d (some n)) (member-build j lawful (domain_members d (some n)) "name")

  append_domains-IsArray :
      (ds : List Domain) (a : Value)
      → j.is_array a ≡ true
      → j.is_array (append_domains j ds a) ≡ true
  unfolding append_domains
  append_domains-IsArray [] a h = h
  append_domains-IsArray (d ∷ ds) a h =
      append_domains-IsArray ds (j.append a (domain_value j d)) (items.append-IsArray a _ h)

  elements-append_domains :
      (ds : List Domain) (a : Value)
      → j.is_array a ≡ true
      → elements (append_domains j ds a) ≡ elements a ++ map (domain_value j) ds
  unfolding append_domains
  elements-append_domains [] a h = sym (append-nil (elements a))
  elements-append_domains (d ∷ ds) a h =
      elements-append_domains ds (j.append a (domain_value j d)) (items.append-IsArray a _ h)
      ∙ rw (items.elements-append a (domain_value j d) h)
          (append_assoc (elements a) (domain_value j d ∷ []) (map (domain_value j) ds))

  module _ (getaddrinfo : String → Resolution) where
    add_item-value :
        (l : DomainList) (d : Domain)
        → add_item j getaddrinfo l (domain_value j d)
          ≡ ok (if (is_valid getaddrinfo d.name).0 then add_domain l d.name else l)
    unfolding add_item
    add_item-value l d =
        rw
          (member-domain_value d d.list_name, items.empty-text d.name, lawful.as_string-text d.name)
          refl

    loop-values :
        (ds : List Domain) (l : DomainList)
        → loop (add_item j getaddrinfo) l (map (domain_value j) ds)
          ≡ ok (record l { domains = l.domains ++ resolving getaddrinfo ds })
    unfolding loop add_domain
    loop-values [] l = rw (append-nil l.domains) refl
    loop-values (d ∷ ds) l = elim (Bool-cases (is_valid getaddrinfo d.name).0) [
      | inl e ↦
          rw (add_item-value l d, e)
            (loop-values ds (add_domain l d.name)
              ∙ ap (λ ns. ok (record l { domains = ns }))
                  (append_assoc l.domains (record new_domain { name = d.name } ∷ [])
                    (resolving getaddrinfo ds)))
      | inr e ↦ rw (add_item-value l d, e) (loop-values ds l)
    ]

    abbrev list_members : DomainList → Option String → Assoc Value
    list_members l none =
        ("domains", append_domains j l.domains array_value)
        ∷ ("url", text l.url)
        ∷ ("name", text l.name)
        ∷ []
    list_members l (some s) =
        ("domains", append_domains j l.domains array_value)
        ∷ ("description", text s)
        ∷ ("url", text l.url)
        ∷ ("name", text l.name)
        ∷ []

    list_value-build :
        (l : DomainList) (o : Option String)
        → list_value j (record l { description = o }) ≡ build j (list_members l o)
    unfolding list_value list_to_json
    list_value-build l none =
        ap
          (λ o.
            assign (assign o "url" (text l.url)) "domains" (append_domains j l.domains array_value))
          (lawful.assign-null "name" (text l.name))
    list_value-build l (some s) =
        ap
          (λ o.
            assign (assign (assign o "url" (text l.url)) "description" (text s)) "domains"
              (append_domains j l.domains array_value))
          (lawful.assign-null "name" (text l.name))

    loop_all :
        (l base : DomainList)
        → base.domains ≡ []
        → loop (add_item j getaddrinfo) base (elements (append_domains j l.domains array_value))
          ≡ ok (record base { domains = resolving getaddrinfo l.domains })
    loop_all l base h =
        rw
          (
            elements-append_domains l.domains array_value items.array-IsArray,
            items.elements-array,
            loop-values l.domains base,
            h,
          )
          refl

    list_back :
        (l : DomainList) (o : Option String)
        → list_from_json j getaddrinfo new_list (build j (list_members l o))
          ≡ ok (imported getaddrinfo l o)
    unfolding list_from_json lookup
    list_back l none =
        let m = list_members l none in
        rw
          (
            member-build j lawful m "name",
            items.empty-text l.name,
            lawful.as_string-text l.name,
            member-build j lawful m "url",
            items.empty-text l.url,
            lawful.as_string-text l.url,
            member-build j lawful m "description",
            items.empty-null,
            member-build j lawful m "domains",
            append_domains-IsArray l.domains array_value items.array-IsArray,
            and-false,
          )
          (loop_all l (record (imported getaddrinfo l none) { domains = [] }) refl)
    list_back l (some s) =
        let m = list_members l (some s) in
        rw
          (
            member-build j lawful m "name",
            items.empty-text l.name,
            lawful.as_string-text l.name,
            member-build j lawful m "url",
            items.empty-text l.url,
            lawful.as_string-text l.url,
            member-build j lawful m "description",
            items.empty-text s,
            lawful.as_string-text s,
            member-build j lawful m "domains",
            append_domains-IsArray l.domains array_value items.array-IsArray,
            and-false,
          )
          (loop_all l (record (imported getaddrinfo l (some s)) { domains = [] }) refl)

    -- What one service writes and another reads: the status comes back as it was, if its time and its counts
    -- are less than 2^31; a list comes back with its name, its url, its description (none as an empty one),
    -- and those of its domains whose names resolve where it is read, in their order. Its id, its flags
    -- and its time, and what its domains say of lists, are those of a new list.
    pub written_is_read :
        (s : Status) (l : DomainList)
        → IsSmall s
        → (status_from_json j (status_to_json j s object_value) ≡ ok s)
          × (list_from_json j getaddrinfo new_list (list_value j l)
              ≡ ok (imported getaddrinfo l l.description))
    written_is_read s l small = (
      status_from_json-to_json s small,
      rw (list_value-build l l.description) (list_back l l.description),
    )
