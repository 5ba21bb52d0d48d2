-- ===== src/Manager/Blocking/Promise.antt =====
-- The commands that block and unblock domains (src/dbl/manager/domain_manager.cxx), and what they promise of
-- a name, which is all that a reader of the lists can tell.
use dbl_service.Prelude.{
  ℕ, String, ◌≡◌, Bool, true, false, not, ◌&&◌, some, List, [], ◌∷◌, if◌then◌else◌,
}
use dbl_service.Fallible.{Exec, pure, ◌>>◌}
use dbl_service.Validator.{Resolution}
use dbl_service.Storage.{Tables, Store}
use dbl_service.Storage.Statements.{id_of, on_whitelist, select_blocked}
use dbl_service.Storage.Integrity.{IsConsistent}
use dbl_service.Storage.Integrity.Queries.{has_domain, admitted}
use dbl_service.Manager.Blocking.{block_domains, unblock_domains}
use dbl_service.Manager.Blocking.Lists.{blocks, allows, accepted}

pub data Command : Type 0 where
  block : List String → Command
  unblock : List String → Command

-- What the service promises about a name: whether it is blocked, and whether it is exempt from blocking.
pub record Mark : Type 0 where
  pub blocked : Bool
  pub exempt : Bool

abbrev pub mark : Bool → Bool → Mark
mark b e = record { blocked = b; exempt = e }

abbrev pub view : Tables → String → Mark
view t n = record { blocked = has_domain n (select_blocked t); exempt = on_whitelist n t }

-- The lists CUSTOM and WHITELIST are there, active, and of their kinds.
pub record IsReady (i w : ℕ) (t : Tables) : Type 0 where
  pub consistent : IsConsistent t
  pub custom_id : id_of "CUSTOM" t.lists ≡ some i
  pub custom_blocks : admitted blocks t.lists (some i) ≡ true
  pub whitelist_id : id_of "WHITELIST" t.lists ≡ some w
  pub whitelist_allows : admitted allows t.lists (some w) ≡ true

module _ (getaddrinfo : String → Resolution) where
  unfoldable pub perform : Command → Exec Store Bool
  unfolding block_domains unblock_domains
  perform (block ds) = block_domains getaddrinfo ds 0
  perform (unblock ds) = unblock_domains getaddrinfo ds

  unfoldable pub perform_all : List Command → Exec Store (Unit {0})
  unfolding perform
  perform_all [] = pure tt
  perform_all (c ∷ cs) = perform c >> perform_all cs

  -- The promise: a name that the resolver knows is blocked unless it is exempt, and unblocking exempts it.
  unfoldable pub promise : Command → String → Mark → Mark
  promise (block ds) n m = record m {
    blocked = if accepted getaddrinfo n ds && not m.exempt then true else m.blocked;
  }
  promise (unblock ds) n m = record {
    blocked = if accepted getaddrinfo n ds then false else m.blocked;
    exempt = if accepted getaddrinfo n ds then true else m.exempt;
  }

  unfoldable pub promise_all : List Command → String → Mark → Mark
  unfolding promise
  promise_all [] n m = m
  promise_all (c ∷ cs) n m = promise_all cs n (promise c n m)
