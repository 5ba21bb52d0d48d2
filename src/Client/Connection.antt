-- ===== src/Client/Connection.antt =====
-- src/dblclient/net/service_connection.cxx: the client's socket. What each call of run_one() handles, for the
-- operation that is waited for, is a list of events; boost::asio's texts for errors are parameters.
use Prim.Native.String.{slice}
use dbl_service.Prelude.{
  ℕ, String, Bool, true, false, not, ◌||◌, List, [], ◌∷◌, ltb, ◌-◌, if◌then◌else◌,
}

-- boost::system::error_code, without would_block
pub data Code : Type 0 where
  success : Code
  eof : Code
  connection_reset : Code
  other : String → Code

-- The deadline is not over yet, or it is, and the socket is closed; or the operation has ended.
pub data Event : Type 0 where
  tick : Event
  expired : Event
  ended : Code → ℕ → Event

-- Where a call stands: it waits for more events, returns, throws, or reads outside of its buffer.
pub data Outcome (A : Type 0) : Type 0 where
  pending : Outcome A
  returned : A → Outcome A
  thrown : String → Outcome A
  undefined : Outcome A

-- do { run_one(); } while(error == would_block): the code, the length, and whether the socket is open
unfoldable pub wait : Bool → List Event → Outcome (Code × ℕ × Bool)
wait is_open [] = pending
wait is_open (tick ∷ es) = wait is_open es
wait is_open (expired ∷ es) = wait false es
wait is_open (ended c n ∷ es) = returned (c, n, is_open)

abbrev pub has_failed : Code → Bool
has_failed success = false
has_failed c = true

abbrev pub message : Code → String
message success = ""
message eof = "End of file"
message connection_reset = "Connection reset by peer"
message (other m) = m

abbrev pub after_connect : Outcome (Code × ℕ × Bool) → Outcome (Unit {0})
after_connect (returned (c, n, is_open)) =
    if has_failed c || not is_open then thrown "Cannot connect" else returned tt
after_connect pending = pending
after_connect (thrown m) = thrown m
after_connect undefined = undefined

unfoldable pub open_connection : List Event → Outcome (Unit {0})
unfolding wait
open_connection es = after_connect (wait true es)

-- The text that has been sent.
abbrev pub after_write : String → Outcome (Code × ℕ × Bool) → Outcome String
after_write data_ (returned (c, n, is_open)) =
    if has_failed c then thrown (message c) else returned data_
after_write data_ pending = pending
after_write data_ (thrown m) = thrown m
after_write data_ undefined = undefined

unfoldable pub write : String → List Event → Outcome String
unfolding wait
write data_ es = after_write data_ (wait true es)

-- The text up to the length of the line without eof_marker_. Below the marker's length the difference of the
-- two sizes wraps around, and the end of the text is beyond the buffer.
abbrev pub line_of : String → ℕ → Outcome String
line_of buffer length = if ltb length 2 then undefined else returned (slice buffer 0 (length - 2))

-- The handler throws for two codes; what another code says is not looked at.
abbrev pub after_read : String → Outcome (Code × ℕ × Bool) → Outcome String
after_read buffer (returned (eof, n, is_open)) = thrown "Read failed (connection closed)"
after_read buffer (returned (connection_reset, n, is_open)) =
    thrown "Read failed (connection closed)"
after_read buffer (returned (success, n, is_open)) = line_of buffer n
after_read buffer (returned (other m, n, is_open)) = line_of buffer n
after_read buffer pending = pending
after_read buffer (thrown m) = thrown m
after_read buffer undefined = undefined

unfoldable pub read : String → List Event → Outcome String
unfolding wait
read buffer es = after_read buffer (wait true es)

-- write(), then read() of what is then in the buffer: the raw response
unfoldable pub after_request : String → List Event → Outcome String → Outcome String
unfolding read
after_request buffer es (returned sent) = read buffer es
after_request buffer es pending = pending
after_request buffer es (thrown m) = thrown m
after_request buffer es undefined = undefined

unfoldable pub exchange : String → List Event → String → List Event → Outcome String
unfolding write after_request
exchange request writing buffer reading = after_request buffer reading (write request writing)

unfoldable pub send_one_way : String → List Event → Outcome String
unfolding write
send_one_way request es = write request es
