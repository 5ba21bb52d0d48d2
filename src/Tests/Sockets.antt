-- ===== src/Tests/Sockets.antt =====
-- The client's socket: a reply that comes in time, and one that does not; and the output of a command.
use dbl_service.Prelude.{false, ◌≡◌, refl, ℕ, [], ◌∷◌}
use dbl_service.Prelude.Integers.{pos}
use dbl_service.Sys.{Pipe, Stream}
use dbl_service.Client.Connection.{
  success, other, tick, expired, ended, pending, returned, thrown, undefined, open_connection,
  exchange, send_one_way,
}

read_in_time :
    exchange "{}\r\n" (ended success 4 ∷ []) "[1]\r\n" (tick ∷ ended success 5 ∷ [])
    ≡ returned "[1]"
unfolding exchange
read_in_time = refl

-- After the deadline of a read the length is 0, and the text is taken up to a place outside of the buffer.
read_too_late :
    exchange "{}\r\n"
      (ended success 4 ∷ [])
      ""
      (expired ∷ ended (other "Operation canceled") 0 ∷ [])
    ≡ undefined
unfolding exchange
read_too_late = refl

connect_too_late :
    open_connection (expired ∷ ended (other "Operation canceled") 0 ∷ []) ≡ thrown "Cannot connect"
unfolding open_connection
connect_too_late = refl

reload_waits : send_one_way "{}\r\n" (tick ∷ []) ≡ pending
unfolding send_one_way
reload_waits = refl

-- Two lines, of which the second is not ended; 10 is the end of a line.
abbrev sample_pipe : Pipe ℕ
sample_pipe = record { output = 1 ∷ 2 ∷ 10 ∷ 3 ∷ []; read_fails = false; status = pos 0 }

abbrev sample_stream : Stream ℕ
sample_stream = record { unread = 1 ∷ []; is_at_end = false }
