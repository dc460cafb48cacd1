-- ===== src/Server/Handling.antt =====
-- What the server uses of a connection's handler.
use cci_daemon.Base.{◌≡◌, Bool, true, false, List, Text, ℤ, if◌then◌else◌}
use cci_daemon.Handler.Protocol.{is_minus_one}

-- The connection after `open`, and after `close` where `open` has failed; `handle_input` on the reactor's thread and
-- on a worker's, by whether the queue and the reactor take the handler; and what the worker does with its result. The laws are what these do to the two flags.
pub record Handler : Type 1 where
  pub Connection : Type 0
  pub registered : Connection → Bool
  pub deleted : Connection → Bool
  pub admit : Text → ℤ → Bool → Bool → Connection
  pub hand_over : Bool → Connection → Connection
  pub process_input : Bool → List Text → Connection → Connection × ℤ
  pub leave : ℤ → Text → Connection → Connection
  pub admit_flags :
      (hostname : Text) (activated : ℤ) (peer_known accepted : Bool)
      → deleted (admit hostname activated peer_known accepted)
        ≡ (if registered (admit hostname activated peer_known accepted) then false else true)
  pub hand_over_flags :
      (accepted : Bool) (c : Connection)
      → (registered (hand_over accepted c) ≡ false) × (deleted (hand_over accepted c) ≡ deleted c)
  pub process_input_flags :
      (registers : Bool) (chunks : List Text) (c : Connection)
      → (registered (process_input registers chunks c).0 ≡ (
          if is_minus_one (process_input registers chunks c).1
          then registered c
          else (if registers then true else registered c)))
        × (deleted (process_input registers chunks c).0 ≡ deleted c)
  pub leave_flags :
      (result : ℤ) (client_addr : Text) (c : Connection)
      → (registered (leave result client_addr c)
          ≡ (if is_minus_one result then false else registered c))
        × (deleted (leave result client_addr c) ≡ (if is_minus_one result then true else deleted c))
