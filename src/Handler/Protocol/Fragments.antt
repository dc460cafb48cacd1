-- ===== src/Handler/Protocol/Fragments.antt =====
-- What the read loop hands on of a request that arrives in one read or in two.
use cci_daemon.Base.{
  ℕ, zero, suc, ◌≡◌, ◌≢◌, ◌≤◌, ◌<◌, inl, inr, refl, sym, ap, subst, ◌∙◌, true, false, List, [], ◌∷◌,
  ◌++◌, arith, leb, if◌then◌else◌, length, All-append, Text, Lacks, find, find-find_char,
  find_char-Lacks, find_char-append, c_string, c_string-Lacks, c_string-append, replicate, drop,
  Bool-cases, append_assoc, append-nil,
}
use cci_daemon.Handler.State.{no_packet_error, ProcHandler}
use cci_daemon.Handler.Protocol.Quiet.{IsQuiet, IsQuiet-append, quiet_interrupted, Lacks-drop}
use cci_daemon.Handler.Protocol.Reading.{
  Reading, request, read_judge, read_loop, read, deliver, process-deliver,
}
use cci_daemon.Handler.Protocol.{
  fail, found, execute, receive, zero_fill, int_size, ctrl_c, ctrl_z, command_buffer_length,
  process,
}

c_string_zeros : (s : Text) (j : ℕ) → Lacks 0 s → c_string (s ++ replicate j 0) ≡ s
c_string_zeros s zero h = rw (append-nil s) (c_string-Lacks s h)
c_string_zeros s (suc j) h = c_string-append s (replicate j 0) h

drop-replicate : (m k : ℕ) → (j : ℕ) × (drop {A = ℕ} m (replicate k 0) ≡ replicate j 0)
drop-replicate zero k = (k, refl)
drop-replicate (suc m) zero = (0, refl)
drop-replicate (suc m) (suc k) = drop-replicate m k

drop_zeros :
    (m : ℕ) (s : Text) (k : ℕ) → (j : ℕ) × (drop m (s ++ replicate k 0) ≡ drop m s ++ replicate j 0)
drop_zeros zero s k = (k, refl)
drop_zeros (suc m) [] k = drop-replicate (suc m) k
drop_zeros (suc m) (x ∷ xs) k = drop_zeros m xs k

-- A read into the cleared buffer is read back as it came.
read_first : (n : ℕ) (a : Text) → Lacks 0 a → c_string (receive a (replicate n 0)) ≡ a
unfolding receive
read_first n a h = let (j, e) = drop-replicate (length a) n in rw e (c_string_zeros a j h)

-- What the second of two reads `a` and `b` leaves of the first behind its own bytes: the buffer is
-- cleared for the 4 bytes of an `int` only.
abbrev pub stale : Text → Text → Text
stale a b = if leb (length b) 3 then [] else drop (length b) a

read_short :
    (b rest : Text) → Lacks 0 b → length b ≤ 3 → c_string (receive b (0 ∷ 0 ∷ 0 ∷ 0 ∷ rest)) ≡ b
unfolding receive
read_short [] rest h l = c_string-append [] _ tt
read_short (x ∷ []) rest h l = c_string-append (x ∷ []) _ h
read_short (x ∷ y ∷ []) rest h l = c_string-append (x ∷ y ∷ []) _ h
read_short (x ∷ y ∷ z ∷ []) rest h l = c_string-append (x ∷ y ∷ z ∷ []) _ h
read_short (x ∷ y ∷ z ∷ w ∷ ws) rest h l = absurd (omega arith)

drop_nil : (n : ℕ) → drop {A = ℕ} n [] ≡ []
drop_nil zero = refl
drop_nil (suc n) = refl

drop-drop_four : (n : ℕ) (s : Text) → drop n (drop 4 s) ≡ drop (suc (suc (suc (suc n)))) s
drop-drop_four n [] = drop_nil n
drop-drop_four n (x ∷ []) = drop_nil n
drop-drop_four n (x ∷ y ∷ []) = drop_nil n
drop-drop_four n (x ∷ y ∷ z ∷ []) = drop_nil n
drop-drop_four n (x ∷ y ∷ z ∷ w ∷ ws) = refl

drop_four :
    (b s : Text) → 4 ≤ length b → drop (length b) (0 ∷ 0 ∷ 0 ∷ 0 ∷ drop 4 s) ≡ drop (length b) s
drop_four (x ∷ y ∷ z ∷ w ∷ ws) s h = drop-drop_four (length ws) s
drop_four _ s h = absurd (omega arith)

read_long :
    (n : ℕ) (a b : Text)
    → Lacks 0 a
    → Lacks 0 b
    → 4 ≤ length b
    → c_string (receive b (0 ∷ 0 ∷ 0 ∷ 0 ∷ drop 4 (receive a (replicate n 0))))
      ≡ b ++ drop (length b) a
unfolding receive
read_long n a b ha hb h =
    let (i, e) = drop-replicate (length a) n in
    let (j, f) = drop_zeros (length b) a i in
    rw (drop_four b (a ++ drop (length a) (replicate n 0)) h) (
      rw e (
        rw f (
          rw (← append_assoc b (drop (length b) a) (replicate j 0)) (
            c_string_zeros (b ++ drop (length b) a) j
              (All-append (λ x. x ≢ 0) b _ hb (Lacks-drop 0 (length b) a ha))))))

-- A second read is followed by stale bytes of the first.
read_second :
    (n : ℕ) (a b : Text)
    → Lacks 0 a
    → Lacks 0 b
    → c_string (receive b (zero_fill int_size (receive a (replicate n 0)))) ≡ b ++ stale a b
unfolding zero_fill
read_second n a b ha hb = elim (Bool-cases (leb (length b) 3)) [
  | inl e ↦ rw e (read_short b _ hb (ground arith) ∙ sym (append-nil b))
  | inr e ↦ rw e (read_long n a b ha hb (ground arith))
]

Lacks-newline : (s : Text) → Lacks b'\n' s → found (find (b'\n' ∷ []) s) ≡ false
Lacks-newline s h = rw (find-find_char b'\n' s, find_char-Lacks b'\n' s h)

has_newline : (s t : Text) → Lacks b'\n' s → found (find (b'\n' ∷ []) (s ++ b'\n' ∷ t)) ≡ true
has_newline s t h = rw (find-find_char b'\n' (s ++ b'\n' ∷ t), find_char-append b'\n' s t h)

-- The loop goes on behind a quiet piece with no line feed, and ends with a line feed.
judge_more :
    (s : Text) (chunks : List Text) (more : Reading)
    → IsQuiet s
    → Lacks b'\n' s
    → length s ≤ command_buffer_length
    → read_judge s chunks more ≡ more
unfolding read_judge
judge_more s chunks more q l w = rw (quiet_interrupted s q, Lacks-newline s l) (ground arith)

judge_done :
    (s t : Text) (chunks : List Text) (more : Reading)
    → IsQuiet (s ++ b'\n' ∷ t)
    → Lacks b'\n' s
    → read_judge (s ++ b'\n' ∷ t) chunks more ≡ request (s ++ b'\n' ∷ t) chunks
unfolding read_judge
judge_done s t chunks more q l = rw (quiet_interrupted (s ++ b'\n' ∷ t) q, has_newline s t l) refl

read_loop_cons :
    (rdbuf ostr c : Text) (chunks : List Text)
    → c ≢ []
    → read_loop rdbuf ostr (c ∷ chunks)
      ≡ read_judge (ostr ++ c_string (receive c rdbuf)) chunks (
          read_loop
            (zero_fill int_size (receive c rdbuf))
            (ostr ++ c_string (receive c rdbuf))
            chunks)
unfolding read_loop
read_loop_cons rdbuf ostr [] chunks n = absurd (n refl)
read_loop_cons rdbuf ostr (b ∷ bs) chunks n = refl

nonempty : (s t : Text) → s ++ b'\n' ∷ t ≢ []
nonempty [] t e = cc
nonempty (x ∷ xs) t e = cc

-- A request in one read is read as it was sent.
pub read_one :
    (n : ℕ) (s t : Text) (chunks : List Text)
    → Lacks 0 (s ++ b'\n' ∷ t)
    → IsQuiet (s ++ b'\n' ∷ t)
    → Lacks b'\n' s
    → read n ((s ++ b'\n' ∷ t) ∷ chunks) ≡ request (s ++ b'\n' ∷ t) chunks
unfolding read
read_one n s t chunks z q l =
    read_loop_cons (replicate n 0) [] (s ++ b'\n' ∷ t) chunks (nonempty s t)
    ∙ rw (read_first n (s ++ b'\n' ∷ t) z) (judge_done s t chunks _ q l)

-- A request that arrives in one read, shorter than the buffer, with a line feed and no NUL, Ctrl-C or
-- Ctrl-Z, is executed as it was sent, with the error cleared.
pub process_one :
    (h : ProcHandler) (n : ℕ) (s t : Text) (chunks : List Text)
    → Lacks 0 (s ++ b'\n' ∷ t)
    → IsQuiet (s ++ b'\n' ∷ t)
    → Lacks b'\n' s
    → length (s ++ b'\n' ∷ t) < n
    → process h n ((s ++ b'\n' ∷ t) ∷ chunks) ≡ (
      (execute (fail h no_packet_error) (s ++ b'\n' ∷ t)).0,
      (execute (fail h no_packet_error) (s ++ b'\n' ∷ t)).1,
      chunks,
    )
process_one h n s t chunks z q l w =
    process-deliver h n ((s ++ b'\n' ∷ t) ∷ chunks)
    ∙ ap (deliver (fail h no_packet_error)) (read_one n s t chunks z q l)

IsQuiet-drop : (m : ℕ) (s : Text) → IsQuiet s → IsQuiet (drop m s)
IsQuiet-drop m s (a, b) = (Lacks-drop ctrl_c m s a, Lacks-drop ctrl_z m s b)

IsQuiet-stale : (a b : Text) → IsQuiet a → IsQuiet (stale a b)
IsQuiet-stale a b q = elim (Bool-cases (leb (length b) 3)) [
  | inl e ↦ rw e ((tt, tt))
  | inr e ↦ rw e (IsQuiet-drop (length b) a q)
]

-- The second of two reads ends the request.
judge_second :
    (a s t rest : Text) (chunks : List Text) (more : Reading)
    → IsQuiet a
    → IsQuiet (s ++ b'\n' ∷ t)
    → IsQuiet rest
    → Lacks b'\n' a
    → Lacks b'\n' s
    → let text = a ++ ((s ++ b'\n' ∷ t) ++ rest) in
      read_judge text chunks more ≡ request text chunks
judge_second a s t rest chunks more qa qb qr la ls =
    subst (λ r. read_judge r chunks more ≡ request r chunks) (sym shape)
      (judge_done (a ++ s) (t ++ rest) chunks more
        (subst IsQuiet shape (IsQuiet-append a _ qa (IsQuiet-append (s ++ b'\n' ∷ t) rest qb qr)))
        (All-append (λ x. x ≢ b'\n') a s la ls))
  where
    shape : a ++ ((s ++ b'\n' ∷ t) ++ rest) ≡ (a ++ s) ++ b'\n' ∷ (t ++ rest)
    shape = simp append_assoc

read_two :
    (n : ℕ) (a s t : Text) (chunks : List Text)
    → a ≢ []
    → length a ≤ command_buffer_length
    → Lacks 0 a
    → Lacks 0 (s ++ b'\n' ∷ t)
    → IsQuiet a
    → IsQuiet (s ++ b'\n' ∷ t)
    → Lacks b'\n' a
    → Lacks b'\n' s
    → let b = s ++ b'\n' ∷ t in read n (a ∷ b ∷ chunks) ≡ request (a ++ (b ++ stale a b)) chunks
unfolding read
read_two n a s t chunks ne w za zb qa qb la ls =
    read_loop_cons (replicate n 0) [] a (b ∷ chunks) ne
    ∙ rw (read_first n a za) (
        judge_more a (b ∷ chunks) _ qa la w
        ∙ read_loop_cons _ a b chunks (nonempty s t)
        ∙ rw (read_second n a b za zb)
            (judge_second a s t (stale a b) chunks _ qa qb (IsQuiet-stale a b qa) la ls))
  where
    b : Text
    b = s ++ b'\n' ∷ t

-- A request cut into two reads `a` and `b`, both shorter than the buffer and without NUL, Ctrl-C and Ctrl-Z,
-- the first of 1 to 1024 bytes and without a line feed, the second with one, is executed as `a`, `b` and then
-- the bytes of `a` from the position `length b` on, unless `b` has 3 bytes or fewer: the buffer is not
-- cleared between the reads. So it is executed as it was sent only if `b` is that short, or not shorter
-- than `a`.
pub process_two :
    (h : ProcHandler) (n : ℕ) (a s t : Text) (chunks : List Text)
    → a ≢ []
    → length a < n
    → length (s ++ b'\n' ∷ t) < n
    → length a ≤ command_buffer_length
    → Lacks 0 a
    → Lacks 0 (s ++ b'\n' ∷ t)
    → IsQuiet a
    → IsQuiet (s ++ b'\n' ∷ t)
    → Lacks b'\n' a
    → Lacks b'\n' s
    → let b = s ++ b'\n' ∷ t in
      let done = execute (fail h no_packet_error) (a ++ (b ++ stale a b)) in
      process h n (a ∷ b ∷ chunks) ≡ (done.0, done.1, chunks)
process_two h n a s t chunks ne wa wb w za zb qa qb la ls =
    process-deliver h n (a ∷ (s ++ b'\n' ∷ t) ∷ chunks)
    ∙ ap (deliver (fail h no_packet_error)) (read_two n a s t chunks ne w za zb qa qb la ls)
