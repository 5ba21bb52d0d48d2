-- ===== src/Storage.antt =====
-- src/dbl/db: the SQLite tables of ddl.hxx, and a session on them. The database engine is outside the
-- repository: that any statement may fail is the schedule `faults`, which the environment chooses.
pub mod Returns
pub mod Statements
pub mod Session
pub mod Effects
pub mod Integrity
use dbl_service.Prelude.{ℕ, String, Bool, Option, List, Assoc}

-- One row of domain_lists. BOOLEAN columns hold 0 or 1 in every statement of the program.
pub record ListRow : Type 0 where
  pub id : ℕ
  pub name : String
  pub url : String
  pub description : Option String
  pub active : Bool
  pub custom : Bool
  pub is_whitelist : Bool
  pub mtime : ℕ

-- settings(name, value), domain_lists, domains(name, list_id), stats_domains(name, hits); and whether the
-- pooled sessions enforce foreign keys, which a session that is opened does not
pub record Tables : Type 0 where
  pub settings : Assoc String
  pub lists : List ListRow
  pub domains : Assoc ℕ
  pub stats : Assoc ℕ
  pub foreign_keys : Bool

-- `faults` says of the coming statements, in their order, which fail and with what message; past its
-- end none fails.
pub record Store : Type 0 where
  pub tables : Tables
  pub faults : List (Option String)
