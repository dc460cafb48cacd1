-- ===== src/Server/Dispatch.antt =====
-- The dispatch daemon's handler (cci_daemon/src/procs/proc_ace_handler.cpp) in the server.
use cci_daemon.Base.{
  ◌≡◌, refl, inl, inr, Bool, true, false, List, [], Text, ℤ, if◌then◌else◌, Bool-cases,
}
use cci_daemon.Handler.Protocol.{is_minus_one}
use cci_daemon.Handler.Lifecycle.{thread_pool, cmd_buffer_len}
use cci_daemon.Handler.Protocol.{process}
use cci_daemon.Handler.Lifecycle.{
  Connection, new_connection, open_handler, close_handler, destroy, handle_input, hand_over,
  process_input, leave, handle_close,
}
use cci_daemon.Server.Handling.{Handler}

-- `open`, and `close` where it has given -1.
unfoldable pub admit : Text → ℤ → Bool → Bool → Connection
admit hostname activated peer_known accepted =
    let (c, result) =
      open_handler thread_pool activated peer_known accepted (new_connection hostname) in
    if is_minus_one result then (close_handler c).0 else c

-- `handle_input` on a worker's thread.
unfoldable pub input_on_worker : Bool → List Text → Connection → Connection × ℤ
input_on_worker registers chunks c =
    let (after, result, rest) = handle_input thread_pool false false registers chunks c in
    (after, result)

pub admit_flags :
    (hostname : Text) (activated : ℤ) (peer_known accepted : Bool)
    → (admit hostname activated peer_known accepted).deleted
      ≡ (if (admit hostname activated peer_known accepted).registered then false else true)
unfolding admit open_handler close_handler new_connection destroy
admit_flags hostname activated true true = refl
admit_flags hostname activated true false = refl
admit_flags hostname activated false accepted = refl

-- `handle_input` on the reactor's thread; `accepted` is that the queue takes the handler.
unfoldable pub input_on_reactor : Bool → Connection → Connection
input_on_reactor accepted c = (handle_input thread_pool true accepted true [] c).0

pub hand_over_flags :
    (accepted : Bool) (c : Connection)
    → ((input_on_reactor accepted c).registered ≡ false)
      × ((input_on_reactor accepted c).deleted ≡ c.deleted)
unfolding input_on_reactor handle_input hand_over
hand_over_flags true c = (refl, refl)
hand_over_flags false c = (refl, refl)

pub input_flags :
    (registers : Bool) (chunks : List Text) (c : Connection)
    → ((input_on_worker registers chunks c).0.registered ≡ (
        if is_minus_one (input_on_worker registers chunks c).1
        then c.registered
        else (if registers then true else c.registered)))
      × ((input_on_worker registers chunks c).0.deleted ≡ c.deleted)
unfolding input_on_worker handle_input process_input
input_flags registers chunks c =
    elim (Bool-cases (is_minus_one (process c.handler cmd_buffer_len chunks).1)) [
      | inl e ↦ rw e ((refl, refl))
      | inr e ↦ rw e ((refl, refl))
    ]

pub leave_flags :
    (result : ℤ) (client_addr : Text) (c : Connection)
    → ((leave result client_addr c).registered
        ≡ (if is_minus_one result then false else c.registered))
      × ((leave result client_addr c).deleted ≡ (if is_minus_one result then true else c.deleted))
unfolding leave handle_close destroy
leave_flags result client_addr c = elim (Bool-cases (is_minus_one result)) [
  | inl e ↦ rw e ((refl, refl))
  | inr e ↦ rw e ((refl, refl))
]

abbrev pub dispatch_handler : Handler
dispatch_handler = record {
  Connection = Connection;
  registered = λ c. c.registered;
  deleted = λ c. c.deleted;
  admit = admit;
  hand_over = input_on_reactor;
  process_input = input_on_worker;
  leave = leave;
  admit_flags = admit_flags;
  hand_over_flags = hand_over_flags;
  process_input_flags = input_flags;
  leave_flags = leave_flags;
}
