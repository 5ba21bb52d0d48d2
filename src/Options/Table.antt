-- ===== src/Options/Table.antt =====
-- What src/dbl/options/options.cxx declares an option with: the default, and the member of the configuration
-- that notify() writes.
use dbl_service.Prelude.{String, Bool, false, Option, none, some, List}
use dbl_service.Prelude.Integers.{ℤ}
use dbl_service.Config.{Config}

-- What boost::any holds for an option.
pub data Value : Type 0 where
  flag : Bool → Value
  number : ℤ → Value
  text : String → Value
  texts : List String → Value

-- default_value(...), given the configuration that parse() is called with; and the variable that is written.
pub record Declared : Type 0 where
  pub default_value : Config → Option Value
  pub store_to : Value → Config → Config

abbrev pub on_flag : (Bool → Config → Config) → Value → Config → Config
on_flag f (flag b) c = f b c
on_flag f v c = c

abbrev pub on_number : (ℤ → Config → Config) → Value → Config → Config
on_number f (number n) c = f n c
on_number f v c = c

abbrev pub on_text : (String → Config → Config) → Value → Config → Config
on_text f (text t) c = f t c
on_text f v c = c

abbrev pub on_texts : (List String → Config → Config) → Value → Config → Config
on_texts f (texts ts) c = f ts c
on_texts f v c = c

-- An option without a value of its own to default to.
abbrev pub switch : (Bool → Config → Config) → Declared
switch f = record { default_value = λ c. some (flag false); store_to = on_flag f }

-- An option whose default is what the member holds.
abbrev pub flag_option : (Config → Bool) → (Bool → Config → Config) → Declared
flag_option g f = record { default_value = λ c. some (flag (g c)); store_to = on_flag f }

abbrev pub number_option : (Config → ℤ) → (ℤ → Config → Config) → Declared
number_option g f = record { default_value = λ c. some (number (g c)); store_to = on_number f }

abbrev pub text_option : (Config → String) → (String → Config → Config) → Declared
text_option g f = record { default_value = λ c. some (text (g c)); store_to = on_text f }

abbrev pub texts_option : (List String → Config → Config) → Declared
texts_option f = record { default_value = λ c. none; store_to = on_texts f }
