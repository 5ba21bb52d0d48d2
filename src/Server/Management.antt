-- ===== src/Server/Management.antt =====
-- Server<ServiceConnection>: the management port. Its connections share the database and the service's
-- stop flag; each has its own token and its own mark of an authenticated peer.
use dbl_service.Prelude.{String, Bool}
use dbl_service.Fallible.{Result, ok, err, Exec}
use dbl_service.Storage.{Store}
use dbl_service.Service.{Env, Connection}
use dbl_service.Service.Dispatch.{connect, read}
use dbl_service.Server.{ConnectionType}

pub record Shared : Type 0 where
  pub store : Store
  pub stop_signaled : Bool

-- auth_ (its token), is_authenticated_, and whether socket_ is open
pub record Member : Type 0 where
  pub token : String
  pub is_authenticated : Bool
  pub is_open : Bool

abbrev pub with_token : Env → String → Env
with_token env token = record env { token = token }

abbrev pub connection_of : Shared → Member → Connection
connection_of s m = record {
  store = s.store;
  is_authenticated = m.is_authenticated;
  is_open = m.is_open;
  stop_signaled = s.stop_signaled;
}

abbrev pub shared_of : Connection → Shared
shared_of c = record { store = c.store; stop_signaled = c.stop_signaled }

abbrev pub member_of : String → Connection → Member
member_of token c = record {
  token = token;
  is_authenticated = c.is_authenticated;
  is_open = c.is_open;
}

module _ (env : Env) where
  abbrev pub connected : String → Result Connection → Result Member
  connected token (ok c) = ok (member_of token c)
  connected token (err e) = err e

  unfoldable pub construct : String → Exec Shared Member
  construct token s =
      let (r, t) = connect (with_token env token) s.store in
      (connected token r, record s { store = t })

  unfoldable pub reply : String → Exec (Shared × Member) String
  reply request (s, m) =
      let (r, c) = read (with_token env m.token) request (connection_of s m) in
      (r, (shared_of c, member_of m.token c))

  abbrev pub management : ConnectionType Shared
  management = record {
    Member = Member;
    construct = construct;
    reply = reply;
    is_open = λ m. m.is_open;
  }
