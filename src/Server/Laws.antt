-- ===== src/Server/Laws.antt =====
-- What holds in every state that a server reaches.
use cci_daemon.Base.{
  ℕ, ◌+◌, ◌≡◌, refl, Bool, ◌||◌, sym, ap, subst, ◌∙◌, arith, inl, inr, true, false, Option, none,
  some, List, [], ◌∷◌, ◌++◌, if◌then◌else◌, length, Option-cases, ==_iff, ℤ,
}
use cci_daemon.Handler.Protocol.{is_minus_one}
use cci_daemon.ThreadPool.{
  Client, Pool, enqueue, svc_got, svc_served, proc_thread_pool, got, serve, offer, worker, Steps,
  here, then_step,
}
use cci_daemon.ThreadPool.Stop.{Steps-IsCounted}
use cci_daemon.Server.{
  Stage, inside, returned, names, waiting_clients, update, System, new_system, Move, admitted,
  readable, taken, served, left_behind, elsewhere, Moves, here, then_move,
}
use cci_daemon.Server.Handling.{Handler}
use cci_daemon.Server.Places.{
  weight, holding, queued, holding-split, queued_some, queued-same, names-split, names-append,
  length-names, Placed, Placed-update,
}

module _ (h : Handler) (lossy : Bool) where
  abbrev held : System h → Client → ℕ
  held s c = queued c s.pool.queue + holding c s.workers

  record Inv (s : System h) : Type 0 where
    busy : s.pool.busy ≡ names s.workers
    placed : (c : Client) → Placed h lossy (s.clients c) (held s c)

  module _ (s : System h) (inv : Inv s) where
    here-Placed :
        (c : Client) (o : Option h.Connection) → s.clients c ≡ o → Placed h lossy o (held s c)
    here-Placed c o e = subst (λ o. Placed h lossy o (held s c)) e (inv.placed c)

    admitted-Inv :
        (c : Client) (x : h.Connection)
        → s.clients c ≡ none
        → h.deleted x ≡ (if h.registered x then false else true)
        → Inv (record s { clients = update c x s.clients })
    admitted-Inv c x e flags = record {
      busy = inv.busy;
      placed =
          Placed-update h lossy s.clients (held s) (held s) c x inv.placed (λ d n. refl)
            (let z : held s c ≡ 0 = here-Placed c none e in ground (arith, z, flags));
    }

    -- Where the queue takes the handler, and where it does not.
    queued-Inv :
        (c : Client) (x y : h.Connection)
        → s.clients c ≡ some x
        → h.registered x ≡ true
        → h.registered y ≡ false
        → h.deleted y ≡ h.deleted x
        → Inv (record s {
          clients = update c y s.clients;
          pool = record s.pool { queue = s.pool.queue ++ some c ∷ [] };
        })
    queued-Inv c x y e r q z = record {
      busy = inv.busy;
      placed =
          Placed-update h lossy s.clients (held s)
            (λ d. queued d (s.pool.queue ++ some c ∷ []) + holding d s.workers) c y inv.placed
            (λ d n. ground (arith, queued_some d c s.pool.queue))
            (let p = here-Placed c (some x) e in ground (arith, p, queued_some c c s.pool.queue));
    }

    refused-Inv :
        (c : Client) (x y : h.Connection)
        → s.clients c ≡ some x
        → h.registered x ≡ true
        → lossy ≡ true
        → h.registered y ≡ false
        → h.deleted y ≡ h.deleted x
        → Inv (record s { clients = update c y s.clients })
    refused-Inv c x y e r l q z = record {
      busy = inv.busy;
      placed =
          Placed-update h lossy s.clients (held s) (held s) c y inv.placed (λ d n. refl)
            (let p = here-Placed c (some x) e in ground (arith, p));
    }

    readable-Inv :
        (c : Client) (x : h.Connection) (accepted : Bool)
        → s.clients c ≡ some x
        → h.registered x ≡ true
        → accepted || lossy ≡ true
        → Inv (record s {
          clients = update c (h.hand_over accepted x) s.clients;
          pool = (enqueue accepted s.pool (some c)).0;
        })
    readable-Inv c x true e r l =
        let (q, z) = h.hand_over_flags true x in queued-Inv c x (h.hand_over true x) e r q z
    readable-Inv c x false e r l =
        let (q, z) = h.hand_over_flags false x in refused-Inv c x (h.hand_over false x) e r l q z

    taken-Inv :
        (left : ℕ) (c : Client) (rest : List (Option Client))
        → s.pool.queue ≡ some c ∷ rest
        → Inv (record s {
          workers = (c, inside) ∷ s.workers;
          pool = svc_got s.pool left (some c) rest;
        })
    taken-Inv left c rest e = record {
      busy = ap (◌∷◌ c) inv.busy;
      placed = λ d.
          subst (Placed h lossy (s.clients d)) (ground (arith, ap (queued d) e)) (inv.placed d);
    }

    module _ (before after : List (Client × Stage)) (c : Client) (x : h.Connection)
        (at : s.clients c ≡ some x) where
      served-Inv :
          (y : h.Connection) (registers : Bool) (result : ℤ)
          → s.workers ≡ before ++ (c, inside) ∷ after
          → registers || lossy ≡ true
          → h.registered y ≡ (
              if is_minus_one result
              then h.registered x
              else (if registers then true else h.registered x))
          → h.deleted y ≡ h.deleted x
          → Inv (record s {
            clients = update c y s.clients;
            workers = before ++ (c, returned result) ∷ after;
          })
      served-Inv y registers result w l r z = record {
        busy =
            inv.busy
            ∙ ap names w
            ∙ names-split c inside before after
            ∙ sym (names-split c (returned result) before after);
        placed =
            Placed-update h lossy s.clients (held s)
              (λ d. queued d s.pool.queue + holding d (before ++ (c, returned result) ∷ after)) c y
              inv.placed
              (λ d n. ground (
                arith,
                ap (holding d) w,
                holding-split d c inside before after,
                holding-split d c (returned result) before after,
              ))
              (let p = here-Placed c (some x) at in
                ground (
                  arith,
                  p,
                  ap (holding c) w,
                  holding-split c c inside before after,
                  holding-split c c (returned result) before after,
                ));
      }

      left_behind-Inv :
          (y : h.Connection) (result : ℤ)
          → s.workers ≡ before ++ (c, returned result) ∷ after
          → h.registered y ≡ (if is_minus_one result then false else h.registered x)
          → h.deleted y ≡ (if is_minus_one result then true else h.deleted x)
          → Inv (record s {
            clients = update c y s.clients;
            workers = before ++ after;
            pool = svc_served s.pool (names before ++ names after) c result;
          })
      left_behind-Inv y result w r z = record {
        busy = sym (names-append before after);
        placed =
            Placed-update h lossy s.clients (held s)
              (λ d. queued d s.pool.queue + holding d (before ++ after)) c y inv.placed
              (λ d n.
                ground (arith, ap (holding d) w, holding-split d c (returned result) before after))
              (let p = here-Placed c (some x) at in
                ground
                  (arith, p, ap (holding c) w, holding-split c c (returned result) before after));
      }

    elsewhere-Inv :
        (q : Pool)
        → q.busy ≡ s.pool.busy
        → waiting_clients q.queue ≡ waiting_clients s.pool.queue
        → Inv (record s { pool = q })
    elsewhere-Inv q b e = record {
      busy = b ∙ inv.busy;
      placed = λ d.
          subst (Placed h lossy (s.clients d)) (omega (arith, queued-same d q.queue s.pool.queue e))
            (inv.placed d);
    }

    Move-Inv : (t : System h) → Move h lossy s t → Inv t
    Move-Inv _ (admitted c hostname activated peer_known accepted e) =
        admitted-Inv c _ e (h.admit_flags hostname activated peer_known accepted)
    Move-Inv _ (readable c x accepted e r l) = readable-Inv c x accepted e r l
    Move-Inv _ (taken left c rest e f) = taken-Inv left c rest f
    Move-Inv _ (served before after c x registers chunks w e l) =
        let (r, z) = h.process_input_flags registers chunks x in
        served-Inv before after c x e _ registers _ w l r z
    Move-Inv _ (left_behind before after c x result client_addr w e) =
        let (r, z) = h.leave_flags result client_addr x in
        left_behind-Inv before after c x e _ result w r z
    Move-Inv _ (elsewhere q step b e) = elsewhere-Inv q b e

    -- What a move does to the pool is a step of the pool, or nothing.
    Move-Steps : (p : Pool) (t : System h) → Move h lossy s t → Steps p s.pool → Steps p t.pool
    Move-Steps p _ (admitted c hostname activated peer_known accepted e) steps = steps
    Move-Steps p _ (readable c x true e r l) steps = then_step _ _ _ steps (offer c)
    Move-Steps p _ (readable c x false e r l) steps = steps
    Move-Steps p _ (taken left c rest e f) steps =
        then_step _ _ _ steps (worker _ (got left (some c) rest e f))
    Move-Steps p _ (served before after c x registers chunks w e l) steps = steps
    Move-Steps p _ (left_behind before after c x result client_addr w e) steps =
        let busy : s.pool.busy ≡ names before ++ c ∷ names after =
          inv.busy ∙ ap names w ∙ names-split c (returned result) before after in
        then_step _ _ _ steps (worker _ (serve (names before) (names after) c result busy))
    Move-Steps p _ (elsewhere q step b e) steps = then_step _ _ _ steps step

  Moves-Inv : (s t : System h) → Inv s → Moves h lossy s t → Inv t
  Moves-Inv s _ inv here = inv
  Moves-Inv s u inv (then_move t _ moves move) = Move-Inv t (Moves-Inv s t inv moves) u move

  new_system-Inv : Inv (new_system h proc_thread_pool)
  unfolding new_system proc_thread_pool
  new_system-Inv = record { busy = refl; placed = λ c. refl }

  Moves-Steps : (s t : System h) → Inv s → Moves h lossy s t → Steps s.pool t.pool
  Moves-Steps s _ inv here = Steps.here _
  Moves-Steps s u inv (then_move t _ moves move) =
      Move-Steps t (Moves-Inv s t inv moves) s.pool u move (Moves-Steps s t inv moves)

  -- A worker that still does something with a handler is alone with it.
  pub Moves-alone :
      (s : System h)
      → Moves h lossy (new_system h proc_thread_pool) s
      → (before after : List (Client × Stage)) (c : Client) (stage : Stage)
      → s.workers ≡ before ++ (c, stage) ∷ after
      → weight stage ≡ 1
      → (x : h.Connection) × (s.clients c ≡ some x)
        × (h.registered x ≡ false)
        × (h.deleted x ≡ false)
        × (queued c s.pool.queue ≡ 0)
        × (holding c (before ++ after) ≡ 0)
  Moves-alone s moves before after c stage w e = elim (Option-cases (s.clients c)) [
    | inl none_yet ↦
        let z = here-Placed s inv c none none_yet in absurd (ground (arith, z, counted))
    | inr (x, at) ↦
        let p = here-Placed s inv c (some x) at in
        (
          x,
          at,
          ground (arith, p, counted),
          ground (arith, p, counted),
          ground (arith, p, counted),
          ground (arith, p, counted),
        )
  ]
    where
      inv : Inv s
      inv = Moves-Inv (new_system h proc_thread_pool) s new_system-Inv moves

      counted : holding c s.workers ≡ 1 + holding c (before ++ after)
      counted = ground (arith, ap (holding c) w, holding-split c c stage before after, ==_iff c c)

  -- A connection that was made is with the reactor, or deleted, or once in the pool.
  pub Moves-made :
      (s : System h)
      → Moves h lossy (new_system h proc_thread_pool) s
      → (c : Client) (o : Option h.Connection) → s.clients c ≡ o
      → Placed h lossy o (queued c s.pool.queue + holding c s.workers)
  Moves-made s moves c o at =
      here-Placed s (Moves-Inv (new_system h proc_thread_pool) s new_system-Inv moves) c o at

  pub Moves-pool :
      (s : System h)
      → Moves h lossy (new_system h proc_thread_pool) s
      → Steps proc_thread_pool s.pool × (s.pool.active_threads ≡ s.pool.waiting + length s.workers)
  unfolding new_system
  Moves-pool s moves =
      let steps = Moves-Steps (new_system h proc_thread_pool) s new_system-Inv moves in
      let inv = Moves-Inv (new_system h proc_thread_pool) s new_system-Inv moves in
      (
        steps,
        omega (arith, Steps-IsCounted s.pool steps, ap length inv.busy, length-names s.workers),
      )
