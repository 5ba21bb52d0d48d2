-- ===== src/Options/Settings.antt =====
-- What the options cannot do: set no_close_fds, or name a DNS proxy that there is no support for.
use dbl_service.Prelude.{
  String, Bool, true, false, ◌||◌, Option, none, some, [], ◌∷◌, ◌++◌, if◌then◌else◌, ◌≡◌, refl, ◌∙◌,
  Assoc, lookup, ◌==◌,
}
use dbl_service.Fallible.{Result, ok, err}
use dbl_service.Fallible.Results.{◌>>=◌}
use dbl_service.Config.{Config}
use dbl_service.Options.Table.{Value, Declared}
use dbl_service.Options.Groups.{
  generic_options, service_options, network_options, dns_proxy_options, custom_proxy_options,
  http_responder_options, all_options, declarations,
}
use dbl_service.Options.{
  Variables, Parser, assign, notify, has_help, is_set, merge_file, read_config, store_all, parse_on,
  parse,
}
use dbl_service.Options.Leaves.{
  Leaves, AllLeave, generic-AllLeave, service-AllLeave, network-AllLeave, dns_proxy-AllLeave,
  custom_proxy-AllLeave, http_responder-AllLeave, list-AllLeave,
}

append-AllLeave : (xs ys : Assoc Declared) → AllLeave xs → AllLeave ys → AllLeave (xs ++ ys)
unfolding AllLeave
append-AllLeave [] ys h k = k
append-AllLeave (x ∷ xs) ys h k = (h.0, append-AllLeave xs ys h.1 k)

all-AllLeave : (platform : String) → AllLeave (all_options platform)
unfolding all_options
all-AllLeave platform = append-AllLeave generic_options _ generic-AllLeave (
    append-AllLeave (service_options platform) _ (service-AllLeave platform) (
      append-AllLeave network_options _ network-AllLeave (
        append-AllLeave dns_proxy_options _ dns_proxy-AllLeave (
          append-AllLeave custom_proxy_options _ custom_proxy-AllLeave
            (append-AllLeave http_responder_options _ http_responder-AllLeave list-AllLeave)))))

abbrev LeavesFound : Option Declared → Type 0
LeavesFound none = Unit
LeavesFound (some d) = Leaves d

found :
    (b : Bool) (d : Declared) (o : Option Declared)
    → Leaves d
    → LeavesFound o
    → LeavesFound (if b then some d else o)
found true d o h k = h
found false d o h k = k

lookup-Leaves :
    (name : String) (table : Assoc Declared) → AllLeave table → LeavesFound (lookup name table)
unfolding lookup AllLeave
lookup-Leaves name [] h = tt
lookup-Leaves name ((n, d) ∷ table) h =
    found (n == name) d (lookup name table) h.0 (lookup-Leaves name table h.1)

assign-keeps :
    (o : Option Declared) (v : Value) (c : Config)
    → LeavesFound o
    → (assign o v c).no_close_fds ≡ c.no_close_fds
assign-keeps none v c h = refl
assign-keeps (some d) v c h = h.holds v c

notify-keeps :
    (table : Assoc Declared)
    → AllLeave table
    → (vm : Variables) (c : Config) → (notify table vm c).no_close_fds ≡ c.no_close_fds
unfolding notify
notify-keeps table h [] c = refl
notify-keeps table h ((name, v) ∷ vm) c =
    notify-keeps table h vm _ ∙ assign-keeps (lookup name table) v c (lookup-Leaves name table h)

module _ (c : Config) where
  IsKept : Result (Variables × Config) → Type 0
  IsKept (ok (vm, d)) = d.no_close_fds ≡ c.no_close_fds
  IsKept (err e) = Unit

  module _ (parser : Parser) (platform : String) where
    merge_file-IsKept :
        (declared : Assoc (Option Value)) (o : Option String) (vm : Variables) (d : Config)
        → d.no_close_fds ≡ c.no_close_fds
        → IsKept (merge_file parser platform declared o vm d)
    unfolding merge_file IsKept
    merge_file-IsKept declared none vm d h = tt
    merge_file-IsKept declared (some content) vm d h =
        merged (parser.store_config_file declared content vm)
      where
        merged :
            (r : Result Variables)
            → IsKept (r >>= λ all. ok (all, notify (all_options platform) all d))
        merged (ok all) = notify-keeps (all_options platform) (all-AllLeave platform) all d ∙ h
        merged (err e) = tt

    if-IsKept :
        (b : Bool) (q r : Result (Variables × Config))
        → IsKept q
        → IsKept r
        → IsKept (if b then q else r)
    if-IsKept true q r h k = h
    if-IsKept false q r h k = k

    store_all-IsKept : IsKept (store_all parser platform c)
    unfolding store_all read_config IsKept
    store_all-IsKept = stored (parser.store_command_line (declarations platform c) [])
      where
        stored :
            (r : Result Variables)
            → IsKept (
                r >>= λ vm.
                if has_help vm || is_set (lookup "no-config" vm)
                then ok (vm, notify (all_options platform) vm c)
                else read_config parser platform
                    (declarations platform c)
                    vm
                    (notify (all_options platform) vm c))
        stored (err e) = tt
        stored (ok vm) =
            let h = notify-keeps (all_options platform) (all-AllLeave platform) vm c in
            if-IsKept (has_help vm || is_set (lookup "no-config" vm)) _ _ h (
              if-IsKept (parser.exists (notify (all_options platform) vm c).service_config) _ _
                (merge_file-IsKept (declarations platform c) _ vm _ h) tt)

  parse-IsKept : (parser : Parser) (o : Option String) → IsKept (parse_on parser o c)
  unfolding IsKept
  parse-IsKept parser none = tt
  parse-IsKept parser (some platform) = store_all-IsKept parser platform

  -- No command line and no configuration file sets no_close_fds: where the options can be parsed, it is what
  -- it was before.
  pub parse-no_close_fds :
      (parser : Parser) (vm : Variables) (d : Config)
      → parse parser c ≡ ok (vm, d)
      → d.no_close_fds ≡ c.no_close_fds
  unfolding parse IsKept
  parse-no_close_fds parser vm d e = rw e at (parse-IsKept parser parser.platform)
