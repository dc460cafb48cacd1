-- ===== src/Server/Work.antt =====
-- What the workers do when nothing new comes in.
use cci_daemon.Base.{
  ℕ, suc, ◌+◌, ◌≡◌, refl, sym, ap, subst, ◌∙◌, arith, inl, inr, Bool, true, false, Option, none,
  some, List, [], ◌∷◌, ◌++◌, ◌==◌, Option-cases, Bool-cases, ==_iff, All, All-append, All-split,
}
use cci_daemon.ThreadPool.{Client, proc_thread_pool}
use cci_daemon.Server.{
  inside, returned, names, update, System, new_system, Move, admitted, readable, taken, served,
  left_behind, elsewhere, Moves, here, then_move,
}
use cci_daemon.Server.Handling.{Handler}
use cci_daemon.Server.Places.{holding, queued, names-split, names-append}
use cci_daemon.Server.Laws.{Moves-made}

module _ (h : Handler) (lossy : Bool) where
  -- The moves of a worker with a handler.
  abbrev pub is_work : {s t : System h} → Move h lossy s t → Bool
  is_work (taken left c rest e f) = true
  is_work (served before after c x registers chunks w e l) = true
  is_work (left_behind before after c x result client_addr w e) = true
  is_work (admitted c hostname activated peer_known accepted e) = false
  is_work (readable c x accepted e r l) = false
  is_work (elsewhere q step b e) = false

  -- So many of these moves.
  pub data Works (s : System h) : ℕ → System h → Type 0 where
    rested : Works s 0 s
    then_work :
        (n : ℕ) (t u : System h)
        → Works s n t
        → (move : Move h lossy t u) → is_work move ≡ true
        → Works s (suc n) u

  pub Works-Moves : (a s t : System h) (n : ℕ) → Moves h lossy a s → Works s n t → Moves h lossy a t
  Works-Moves a s _ _ moves rested = moves
  Works-Moves a s u _ moves (then_work n t _ works move e) =
      then_move t u (Works-Moves a s t n moves works) move

  -- The handler of each worker was made.
  unfoldable pub is_made : Option h.Connection → Bool
  is_made none = false
  is_made (some x) = true

  made_of_some : (o : Option h.Connection) (x : h.Connection) → o ≡ some x → is_made o ≡ true
  unfolding is_made
  made_of_some o x e = rw e refl

  pub some_of_made :
      (o : Option h.Connection) → is_made o ≡ true → (x : h.Connection) × (o ≡ some x)
  unfolding is_made
  some_of_made none e = absurd (cc)
  some_of_made (some x) e = (x, refl)

  abbrev pub Known : (Client → Option h.Connection) → List Client → Type 0
  Known clients cs = All (λ c. is_made (clients c) ≡ true) cs

  made-update :
      (clients : Client → Option h.Connection) (c d : Client) (x : h.Connection)
      → is_made (clients d) ≡ true
      → is_made (update c x clients d) ≡ true
  unfolding is_made
  made-update clients c d x e = elim (Bool-cases (d == c)) [ inl q ↦ rw q refl | inr q ↦ rw q e ]

  Known-update :
      (clients : Client → Option h.Connection) (c : Client) (x : h.Connection) (cs : List Client)
      → Known clients cs
      → Known (update c x clients) cs
  Known-update clients c x [] k = tt
  Known-update clients c x (d ∷ cs) (e, k) =
      (made-update clients c d x e, Known-update clients c x cs k)

  taken-made :
      (s : System h)
      → Moves h lossy (new_system h proc_thread_pool) s
      → (c : Client) (rest : List (Option Client)) → s.pool.queue ≡ some c ∷ rest
      → is_made (s.clients c) ≡ true
  taken-made s moves c rest e = elim (Option-cases (s.clients c)) [
    | inl none_yet ↦
        let z : queued c s.pool.queue + holding c s.workers ≡ 0 =
          Moves-made h lossy s moves c none none_yet in
        absurd (ground (arith, ap (queued c) e, (==_iff c c).1 refl))
    | inr (x, at) ↦ made_of_some (s.clients c) x at
  ]

  Move-Known :
      (s t : System h)
      → Moves h lossy (new_system h proc_thread_pool) s
      → Known s.clients (names s.workers)
      → Move h lossy s t
      → Known t.clients (names t.workers)
  Move-Known s _ moves k (admitted c hostname activated peer_known accepted e) =
      Known-update s.clients c _ (names s.workers) k
  Move-Known s _ moves k (readable c x accepted e r l) =
      Known-update s.clients c _ (names s.workers) k
  Move-Known s _ moves k (taken left c rest e f) = (taken-made s moves c rest f, k)
  Move-Known s _ moves k (served before after c x registers chunks w e l) =
      Known-update s.clients c _ (names (before ++ (c, returned _) ∷ after)) (
        subst (Known s.clients)
          (ap names w
            ∙ names-split c inside before after
            ∙ sym (names-split c (returned _) before after))
          k)
  Move-Known s _ moves k (left_behind before after c x result client_addr w e) =
      Known-update s.clients c _ (names (before ++ after)) (
        let (a, b) =
          All-split (λ c. is_made (s.clients c) ≡ true) (names before) (c ∷ names after)
            (subst (Known s.clients) (ap names w ∙ names-split c (returned result) before after)
              k) in
        subst (Known s.clients) (sym (names-append before after))
          (All-append (λ c. is_made (s.clients c) ≡ true) (names before) (names after) a b.1))
  Move-Known s _ moves k (elsewhere q step b e) = k

  pub Moves-Known :
      (s : System h)
      → Moves h lossy (new_system h proc_thread_pool) s
      → Known s.clients (names s.workers)
  unfolding new_system
  Moves-Known _ here = tt
  Moves-Known u (then_move t _ moves move) = Move-Known t u moves (Moves-Known t moves) move
