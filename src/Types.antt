-- ===== src/Types.antt =====
-- src/dbl/types/domain.hxx, domain_list.hxx, types.hxx: the records that managers, server and client
-- exchange, with the values that their members start with.
use dbl_service.Prelude.{ℕ, String, Bool, false, Option, some, List, [], ◌∷◌, ◌++◌}

pub record Domain : Type 0 where
  pub name : String
  pub list_id : ℕ
  pub list_name : Option String

-- `active` and `custom` are integers in C++ and BOOLEAN columns that hold 0 or 1.
pub record DomainList : Type 0 where
  pub id : ℕ
  pub name : String
  pub url : String
  pub description : Option String
  pub active : Bool
  pub custom : Bool
  pub mtime : ℕ
  pub domains : List Domain

abbrev pub new_domain : Domain
new_domain = record { name = ""; list_id = 0; list_name = some "" }

abbrev pub new_list : DomainList
new_list = record {
  id = 0;
  name = "";
  url = "";
  description = some "";
  active = false;
  custom = false;
  mtime = 0;
  domains = [];
}

unfoldable pub add_domain : DomainList → String → DomainList
add_domain l name = record l { domains = l.domains ++ record new_domain { name = name } ∷ [] }
