-- ===== src/Manager/Results.antt =====
-- What the reactor and the thread pool see of the authentication manager's connections.
use cci_daemon.Base.{
  ℕ, ◌+◌, ◌≡◌, inl, inr, refl, ap, ap₂, Bool, true, false, not, ◌&&◌, List, if◌then◌else◌, Text,
  Bool-cases, ℤ,
}
use cci_daemon.Handler.State.{ProcHandler, no_packet_error, Action, on_login}
use cci_daemon.Handler.Protocol.{is_minus_one}
use cci_daemon.Handler.State
use cci_daemon.Handler.Lifecycle
use cci_daemon.Handler.Lifecycle.{
  Concurrency, is_thread_pool, single_threaded, thread_per_connection, thread_pool, cmd_buffer_len,
}
use cci_daemon.Manager.Lifecycle.{
  Connection, new_connection, greet, open_handler, process_input, hand_over, handle_input,
}
use cci_daemon.Handler.Protocol.Session.{Ready}
use cci_daemon.Manager.State.{
  auth_mgr_handler, map_commands, output_boiler_plate, output_prompt, flush_stream_to_connector,
}
use cci_daemon.Manager.Protocol.{is_logout}
use cci_daemon.Manager.Agrees.{process-Agrees}

-- A connection of the authentication manager and one of the dispatch daemon that the reactor and the pool
-- cannot tell apart.
pub record Alike (c : Connection) (d : Lifecycle.Connection) : Type 0 where
  pub registered : c.registered ≡ d.registered
  pub queued : c.queued ≡ d.queued
  pub timer : c.timer ≡ d.timer
  pub deleted : c.deleted ≡ d.deleted
  pub loud : is_logout c.handler.command ≡ false
  pub ready : Ready d.handler

process_input-Alike :
    (concurrency : Concurrency) (registers : Bool) (chunks : List Text) (c : Connection)
    (d : Lifecycle.Connection)
    → Alike c d
    → Alike
        (process_input concurrency registers chunks c).0
        (Lifecycle.process_input concurrency registers chunks d).0
      × ((process_input concurrency registers chunks c).1
          ≡ (Lifecycle.process_input concurrency registers chunks d).1)
      × ((process_input concurrency registers chunks c).2
          ≡ (Lifecycle.process_input concurrency registers chunks d).2)
unfolding process_input Lifecycle.process_input
process_input-Alike concurrency registers chunks c d s =
    let (e, f, l, v) = process-Agrees c.handler d.handler cmd_buffer_len chunks s.loud s.ready in
    (
      record {
        registered =
            ap₂
              (λ (r : ℤ) (old : Bool).
                if is_thread_pool concurrency && not (is_minus_one r)
                then (if registers then true else old)
                else old)
              e s.registered;
        queued = s.queued;
        timer = s.timer;
        deleted = s.deleted;
        loud = l;
        ready = v;
      },
      e,
      f,
    )

hand_over-Alike :
    (accepted : Bool) (c : Connection) (d : Lifecycle.Connection)
    → Alike c d
    → Alike (hand_over accepted c).0 (Lifecycle.hand_over accepted d).0
      × ((hand_over accepted c).1 ≡ (Lifecycle.hand_over accepted d).1)
unfolding hand_over Lifecycle.hand_over
hand_over-Alike true c d s = (
  record {
    registered = refl;
    queued = ap (λ (n : ℕ). n + 1) s.queued;
    timer = s.timer;
    deleted = s.deleted;
    loud = s.loud;
    ready = s.ready;
  },
  refl,
)
hand_over-Alike false c d s = (
  record {
    registered = refl;
    queued = s.queued;
    timer = s.timer;
    deleted = s.deleted;
    loud = s.loud;
    ready = s.ready;
  },
  refl,
)

-- `handle_input` of the authentication manager and of the dispatch daemon, on connections that the reactor and
-- the pool cannot tell apart: after it they still cannot, on any input, in each mode and each thread, and it
-- returns the same and leaves the same input unread.
pub handle_input-Alike :
    (concurrency : Concurrency) (in_creator accepted registers : Bool) (chunks : List Text)
    (c : Connection) (d : Lifecycle.Connection)
    → Alike c d
    → let p = handle_input concurrency in_creator accepted registers chunks c in
      let q = Lifecycle.handle_input concurrency in_creator accepted registers chunks d in
      Alike p.0 q.0 × (p.1 ≡ q.1) × (p.2 ≡ q.2)
unfolding handle_input Lifecycle.handle_input
handle_input-Alike concurrency in_creator accepted registers chunks c d s =
    elim (Bool-cases (is_thread_pool concurrency && in_creator)) [
      | inl e ↦ rw e (let (t, f) = hand_over-Alike accepted c d s in (t, f, refl))
      | inr e ↦ rw e (process_input-Alike concurrency registers chunks c d s)
    ]

greeted : (hostname : Text) → Ready (Lifecycle.greet (State.proc_handler hostname))
unfolding Lifecycle.greet State.proc_handler State.map_commands State.output_boiler_plate
    State.output_prompt State.flush_stream_to_connector
greeted hostname = record { command_map = refl; not_logout = λ e. cc; flushed = refl }

greeted-loud : (hostname : Text) → is_logout (greet (auth_mgr_handler hostname)).command ≡ false
unfolding greet auth_mgr_handler map_commands output_boiler_plate output_prompt
    flush_stream_to_connector
greeted-loud hostname = refl

opened :
    (hostname : Text) (registered : Bool)
    → Alike
        (record {
          handler = greet (auth_mgr_handler hostname);
          registered = registered;
          queued = 0;
          timer = true;
          deleted = false;
        })
        (record {
          handler = Lifecycle.greet (State.proc_handler hostname);
          registered = registered;
          queued = 0;
          timer = true;
          deleted = false;
        })
opened hostname registered = record {
  registered = refl;
  queued = refl;
  timer = refl;
  deleted = refl;
  loud = greeted-loud hostname;
  ready = greeted hostname;
}

-- Whatever the mode and the answers of the system, a connection that the authentication manager has just opened
-- and one that the dispatch daemon has just opened are such connections, and `open` returns the same.
pub open_handler-Alike :
    (concurrency : Concurrency) (activated : ℤ) (peer_known accepted : Bool) (hostname : Text)
    → let p = open_handler concurrency activated peer_known accepted (new_connection hostname) in
      let q =
        Lifecycle.open_handler concurrency activated peer_known accepted
          (Lifecycle.new_connection hostname) in
      Alike p.0 q.0 × (p.1 ≡ q.1)
unfolding open_handler Lifecycle.open_handler new_connection Lifecycle.new_connection
open_handler-Alike thread_per_connection activated k a host = (opened host false, refl)
open_handler-Alike single_threaded activated false a host = (opened host false, refl)
open_handler-Alike single_threaded activated true false host = (opened host false, refl)
open_handler-Alike single_threaded activated true true host = (opened host true, refl)
open_handler-Alike thread_pool activated false a host = (opened host false, refl)
open_handler-Alike thread_pool activated true false host = (opened host false, refl)
open_handler-Alike thread_pool activated true true host = (opened host true, refl)
