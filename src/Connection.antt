-- ===== src/Connection.antt =====
-- network/tcp_connection.cpp: class TcpConnection, what it sends and how it ends. The bufferevent of libevent
-- is the bytes that were given to it and the count of those that it has not sent. A lost connection is
-- deleted by its service; `none` is a use of it after that, or of its null bufferevent.
pub mod Deliver
pub mod Limits
mod Tests
use archai_engine.Shared.{
  ℕ, ◌+◌, ◌-◌, ◌*◌, ◌%◌, ◌^◌, Bool, true, false, Option, none, some, List, [], ◌∷◌, ◌++◌, ltb,
  if◌then◌else◌, length,
}
use archai_engine.Shared.Options.{◌>>=◌}
use archai_engine.SevenBit.{write_7bit_encoded_int}
use archai_engine.Service.Dispatch.{message}

abbrev pub send_buffer_size : ℕ
send_buffer_size = 16 * 1024 * 1024

pub record Output : Type 0 where
  pub written : List ℕ
  pub pending : ℕ

pub data Connection : Type 0 where
  alive : Output → Connection
  deleted : Connection

-- The errors that on_error tells apart, where _WIN32 is not defined.
pub data SocketError : Type 0 where
  interrupted would_block reset broken_pipe other : SocketError

-- on_lost_connection, whose service deletes the connection; on_peer_close does just this
pub on_lost_connection : Connection → Option Connection
on_lost_connection (alive out) = some deleted
on_lost_connection deleted = none

pub on_error : SocketError → Connection → Option Connection
unfolding on_lost_connection
on_error e deleted = none
on_error interrupted (alive out) = some (alive out)
on_error would_block (alive out) = some (alive out)
on_error reset (alive out) = on_lost_connection (alive out)
on_error broken_pipe (alive out) = on_lost_connection (alive out)
on_error other (alive out) = some (alive out)

-- BEV_EVENT_ERROR with its error, and BEV_EVENT_EOF.
pub socket_event_cb : Connection → Option SocketError → Bool → Option Connection
unfolding on_error
socket_event_cb c error eof = do
  c' ← elim error [ none ↦ some c | some e ↦ on_error e c ]
  if eof then on_lost_connection c' else some c'

pub send_data : Connection → List ℕ → Option Connection
unfolding on_lost_connection
send_data deleted bytes = none
send_data (alive out) bytes =
    if ltb send_buffer_size (out.pending + length bytes)
    then on_lost_connection (alive out)
    else some
        (alive (record { written = out.written ++ bytes; pending = out.pending + length bytes }))

unfoldable pub send_msg : Connection → List ℕ → Option Connection
unfolding send_data
send_msg c msg = do
  code ← write_7bit_encoded_int (length msg % 2 ^ 32)
  c' ← send_data c code
  send_data c' msg

unfoldable pub send_raw_msg : Connection → List ℕ → List ℕ → Option Connection
unfolding send_msg
send_raw_msg c name args = do msg ← message name args; send_msg c msg

-- libevent sends `n` of the bytes that wait.
abbrev pub drain : ℕ → Connection → Connection
drain n (alive out) = alive (record out { pending = out.pending - n })
drain n deleted = deleted
