-- ===== src/Options/Leaves.antt =====
-- The options that do not write no_close_fds, group by group: all of them.
use dbl_service.Prelude.{String, Bool, List, ◌≡◌, refl, All, Assoc}
use dbl_service.Prelude.Integers.{ℤ}
use dbl_service.Config.{Config}
use dbl_service.Options.Table.{
  Value, flag, number, text, texts, Declared, on_flag, on_number, on_text, on_texts, switch,
  flag_option, number_option, text_option, texts_option,
}
use dbl_service.Options.Groups.{
  generic_options, service_options, network_options, dns_proxy_options, custom_proxy_options,
  http_responder_options, list_options,
}

-- The option does not write no_close_fds.
pub record Leaves (d : Declared) : Type 0 where
  pub holds : (v : Value) (c : Config) → (d.store_to v c).no_close_fds ≡ c.no_close_fds

switch-Leaves :
    (f : Bool → Config → Config)
    → ((b : Bool) (c : Config) → (f b c).no_close_fds ≡ c.no_close_fds)
    → Leaves (switch f)
switch-Leaves f h = record { holds = kept }
  where
    kept : (v : Value) (c : Config) → (on_flag f v c).no_close_fds ≡ c.no_close_fds
    kept (flag b) c = h b c
    kept (number n) c = refl
    kept (text t) c = refl
    kept (texts ts) c = refl

flag_option-Leaves :
    (g : Config → Bool) (f : Bool → Config → Config)
    → ((b : Bool) (c : Config) → (f b c).no_close_fds ≡ c.no_close_fds)
    → Leaves (flag_option g f)
flag_option-Leaves g f h = record { holds = (switch-Leaves f h).holds }

number_option-Leaves :
    (g : Config → ℤ) (f : ℤ → Config → Config)
    → ((n : ℤ) (c : Config) → (f n c).no_close_fds ≡ c.no_close_fds)
    → Leaves (number_option g f)
number_option-Leaves g f h = record { holds = kept }
  where
    kept : (v : Value) (c : Config) → (on_number f v c).no_close_fds ≡ c.no_close_fds
    kept (flag b) c = refl
    kept (number n) c = h n c
    kept (text t) c = refl
    kept (texts ts) c = refl

text_option-Leaves :
    (g : Config → String) (f : String → Config → Config)
    → ((t : String) (c : Config) → (f t c).no_close_fds ≡ c.no_close_fds)
    → Leaves (text_option g f)
text_option-Leaves g f h = record { holds = kept }
  where
    kept : (v : Value) (c : Config) → (on_text f v c).no_close_fds ≡ c.no_close_fds
    kept (flag b) c = refl
    kept (number n) c = refl
    kept (text t) c = h t c
    kept (texts ts) c = refl

texts_option-Leaves :
    (f : List String → Config → Config)
    → ((ts : List String) (c : Config) → (f ts c).no_close_fds ≡ c.no_close_fds)
    → Leaves (texts_option f)
texts_option-Leaves f h = record { holds = kept }
  where
    kept : (v : Value) (c : Config) → (on_texts f v c).no_close_fds ≡ c.no_close_fds
    kept (flag b) c = refl
    kept (number n) c = refl
    kept (text t) c = refl
    kept (texts ts) c = h ts c

ruleset leaves_rules = (
  switch-Leaves, flag_option-Leaves, number_option-Leaves, text_option-Leaves, texts_option-Leaves,
)

unfoldable pub AllLeave : Assoc Declared → Type 0
AllLeave table = All (λ e. Leaves e.1) table

pub generic-AllLeave : AllLeave generic_options
unfolding AllLeave generic_options
generic-AllLeave = search leaves_rules

pub service-AllLeave : (platform : String) → AllLeave (service_options platform)
unfolding AllLeave service_options
service-AllLeave platform = search leaves_rules depth 30

pub network-AllLeave : AllLeave network_options
unfolding AllLeave network_options
network-AllLeave = search leaves_rules depth 20

pub dns_proxy-AllLeave : AllLeave dns_proxy_options
unfolding AllLeave dns_proxy_options
dns_proxy-AllLeave = search leaves_rules

pub custom_proxy-AllLeave : AllLeave custom_proxy_options
unfolding AllLeave custom_proxy_options
custom_proxy-AllLeave = search leaves_rules depth 20

pub http_responder-AllLeave : AllLeave http_responder_options
unfolding AllLeave http_responder_options
http_responder-AllLeave = search leaves_rules depth 20

pub list-AllLeave : AllLeave list_options
unfolding AllLeave list_options
list-AllLeave = search leaves_rules
