-- ===== src/Server/Places.antt =====
-- How often a connection stands in the queue, and how many workers are with it.
use cci_daemon.Base.{
  ℕ, ◌+◌, ◌≤◌, ◌≡◌, refl, ap, arith, Bool, inl, inr, false, ◌&&◌, ◌||◌, Option, none, some, List,
  [], ◌∷◌, ◌++◌, ◌==◌, if◌then◌else◌, length, Bool-cases, ==_iff,
}
use cci_daemon.Handler.Protocol.{is_minus_one}
use cci_daemon.ThreadPool.{Client}
use cci_daemon.Server.{Stage, inside, returned, names, waiting_clients, update}
use cci_daemon.Server.Handling.{Handler}

-- 1 where the worker still does something with the handler: it runs it, or it is about to close it.
abbrev pub weight : Stage → ℕ
weight inside = 1
weight (returned result) = if is_minus_one result then 1 else 0

-- The number of workers that still do something with the handler `c`.
abbrev pub holding : Client → List (Client × Stage) → ℕ
holding c [] = 0
holding c ((d, s) ∷ ws) = (if c == d then weight s else 0) + holding c ws

-- How often `c` stands in the queue.
abbrev pub queued : Client → List (Option Client) → ℕ
queued c [] = 0
queued c (none ∷ q) = queued c q
queued c (some d ∷ q) = (if c == d then 1 else 0) + queued c q

pub holding-split :
    (c d : Client) (s : Stage) (before after : List (Client × Stage))
    → holding c (before ++ (d, s) ∷ after)
      ≡ (if c == d then weight s else 0) + holding c (before ++ after)
holding-split c d s [] after = refl
holding-split c d s ((e, t) ∷ before) after = omega (arith, holding-split c d s before after)

pub queued_some :
    (c d : Client) (q : List (Option Client))
    → queued c (q ++ some d ∷ []) ≡ queued c q + (if c == d then 1 else 0)
queued_some c d [] = omega arith
queued_some c d (none ∷ q) = queued_some c d q
queued_some c d (some e ∷ q) = omega (arith, queued_some c d q)

times : Client → List Client → ℕ
times c [] = 0
times c (d ∷ q) = (if c == d then 1 else 0) + times c q

queued-times : (c : Client) (q : List (Option Client)) → queued c q ≡ times c (waiting_clients q)
unfolding times
queued-times c [] = refl
queued-times c (none ∷ q) = queued-times c q
queued-times c (some d ∷ q) = omega (arith, queued-times c q)

-- It is the same in queues that differ in their null pointers only.
pub queued-same :
    (c : Client) (p q : List (Option Client))
    → waiting_clients p ≡ waiting_clients q
    → queued c p ≡ queued c q
queued-same c p q e = omega (arith, queued-times c p, queued-times c q, ap (times c) e)

pub names-split :
    (c : Client) (s : Stage) (before after : List (Client × Stage))
    → names (before ++ (c, s) ∷ after) ≡ names before ++ c ∷ names after
names-split c s [] after = refl
names-split c s ((d, t) ∷ before) after = ap (◌∷◌ d) (names-split c s before after)

pub names-append :
    (before after : List (Client × Stage)) → names (before ++ after) ≡ names before ++ names after
names-append [] after = refl
names-append ((d, t) ∷ before) after = ap (◌∷◌ d) (names-append before after)

pub length-names : (ws : List (Client × Stage)) → length (names ws) ≡ length ws
length-names [] = refl
length-names ((c, s) ∷ ws) = omega (arith, length-names ws)

module _ (h : Handler) (lossy : Bool) where
  -- A handler that the reactor has, or that is deleted, is nowhere in the pool, and any other is there once at most, and
  -- at least once where nothing refuses a handler.
  abbrev pub Placed : Option h.Connection → ℕ → Type 0
  Placed none n = n ≡ 0
  Placed (some x) n =
      (n ≤ (if h.registered x || h.deleted x then 0 else 1))
      × ((if h.registered x || h.deleted x then 0 else (if lossy then 0 else 1)) ≤ n)
      × (h.registered x && h.deleted x ≡ false)

  -- A move that changes one connection.
  pub Placed-update :
      (clients : Client → Option h.Connection) (before after : Client → ℕ) (c : Client)
      (x : h.Connection)
      → ((d : Client) → Placed (clients d) (before d))
      → ((d : Client) → (d == c) ≡ false → after d ≡ before d)
      → Placed (some x) (after c)
      → (d : Client) → Placed (update c x clients d) (after d)
  Placed-update clients before after c x old others new d = elim (Bool-cases (d == c)) [
    | inl e ↦ rw (e, (==_iff d c).0 e) new
    | inr e ↦ rw (e, others d e) (old d)
  ]
