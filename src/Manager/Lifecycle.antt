-- ===== src/Manager/Lifecycle.antt =====
-- The life of a connection in cci_daemon/src/manager/auth_mgr_handler.cpp: `open`, `handle_input`,
-- `handle_close`, `handle_timeout` and `destroy`, with the reactor and the thread pool as they see it.
use cci_daemon.Base.{
  ℕ, zero, suc, ◌+◌, ◌-◌, Bool, true, false, not, ◌&&◌, Option, none, some, List, ◌++◌, leb, ◌==◌,
  if◌then◌else◌, Text, codes, ℤ, pos, minus_one,
}
use cci_daemon.Handler.State.{crlf}
use cci_daemon.Handler.Protocol.{is_minus_one}
use cci_daemon.Handler.Lifecycle.{
  Concurrency, thread_per_connection, thread_pool, is_thread_pool, cmd_buffer_len, timer_id,
}
use cci_daemon.Manager.State.{
  AuthMgrHandler, auth_mgr_handler, map_commands, flush_stream_to_connector, write,
  output_boiler_plate,
}
use cci_daemon.Manager.Protocol.{process}

-- `registered` is the reactor's read mask, and `queued` counts the handler's places in the pool: in its
-- queue, or with a worker that serves it.
pub record Connection : Type 0 where
  pub handler : AuthMgrHandler
  pub registered : Bool
  pub queued : ℕ
  pub timer : Bool
  pub deleted : Bool

unfoldable pub new_connection : Text → Connection
new_connection hostname = record {
  handler = auth_mgr_handler hostname;
  registered = false;
  queued = 0;
  timer = false;
  deleted = false;
}

-- `open` up to the timer.
unfoldable pub greet : AuthMgrHandler → AuthMgrHandler
greet h = map_commands (output_boiler_plate h)

-- `activated` is what `activate` returns, `peer_known` that the peer has an address, and `accepted` that the
-- reactor takes the handler.
unfoldable pub open_handler : Concurrency → ℤ → Bool → Bool → Connection → Connection × ℤ
open_handler thread_per_connection activated peer_known accepted c =
    (record c { handler = greet c.handler; timer = true }, activated)
open_handler _ activated peer_known accepted c =
    let a = record c { handler = greet c.handler; timer = true } in
    if not peer_known
    then (a, minus_one)
    else if not accepted
    then (a, minus_one)
    else (record a { registered = true }, pos 0)

unfoldable pub destroy : Connection → Connection
destroy c = record c { registered = false; deleted = true }

-- `close`, which the framework calls where `open` fails.
unfoldable pub close_handler : Connection → Connection × ℤ
close_handler c = (destroy c, pos 0)

abbrev pub goodbye : Text → Text
goodbye client_addr =
    codes " * goodbye " ++ client_addr ++ codes "......chromatic auth-manager..." ++ crlf

unfoldable pub handle_close : Text → Connection → Connection
handle_close client_addr c =
    destroy
      (record c { handler = flush_stream_to_connector (write c.handler (goodbye client_addr)) })

-- The reactor's thread hands the handler over; `accepted` is that the pool's queue takes it.
unfoldable pub hand_over : Bool → Connection → Connection × ℤ
hand_over accepted c =
    if accepted
    then (record c { registered = false; queued = c.queued + 1 }, pos 0)
    else (record c { registered = false }, minus_one)

-- A pool's worker registers the handler again, unless the session is over; `registers` is that the reactor takes it, which
-- is not looked at.
unfoldable pub process_input :
    Concurrency → Bool → List Text → Connection → Connection × ℤ × List Text
process_input concurrency registers chunks c =
    let after = process c.handler cmd_buffer_len chunks in
    let again =
      if is_thread_pool concurrency && not (is_minus_one after.1)
      then (if registers then true else c.registered)
      else c.registered in
    (record c { handler = after.0; registered = again }, after.1, after.2)

-- `in_creator` is that the thread which made the handler runs this.
unfoldable pub handle_input :
    Concurrency → Bool → Bool → Bool → List Text → Connection → Connection × ℤ × List Text
handle_input concurrency in_creator accepted registers chunks c =
    if is_thread_pool concurrency && in_creator
    then ((hand_over accepted c).0, (hand_over accepted c).1, chunks)
    else process_input concurrency registers chunks c

-- The handler's `handle_input` has returned `result` to `svc` of the pool.
unfoldable pub leave : ℤ → Text → Connection → Connection
leave result client_addr c =
    let done = record c { queued = c.queued - 1 } in
    if is_minus_one result then handle_close client_addr done else done

-- What a turn of `svc` of the pool does to the handler, its steps one after the other.
unfoldable pub serve : Bool → List Text → Text → Connection → Connection × List Text
serve registers chunks client_addr c =
    let (after, result, rest) = handle_input thread_pool false false registers chunks c in
    (leave result client_addr after, rest)

-- `act` is the address 0 here too.
unfoldable pub handle_timeout : (ℕ → ℕ) → ℕ → ℕ → ℕ → Text → Connection → Option (Connection × ℤ)
handle_timeout memory zero idle most client_addr c = none
handle_timeout memory (suc at) idle most client_addr c =
    let closed = record c {
      handler =
          flush_stream_to_connector
            (write c.handler (codes " autologout; idle for too long" ++ crlf));
    } in
    some (
      if memory (suc at) == timer_id && leb most idle
      then (destroy (record closed { registered = false }), pos 0)
      else (c, pos 0))
