-- ===== src/Handler/Protocol/Reading.antt =====
-- What the read loop makes of its input, apart from what the handler then does with it.
use cci_daemon.Base.{
  ℕ, ◌≡◌, inl, inr, refl, List, [], ◌∷◌, ◌++◌, if◌then◌else◌, Text, c_string, replicate, Bool-cases,
  ℤ, pos, minus_one,
}
use cci_daemon.Handler.State.{no_packet_error, ProcHandler}
use cci_daemon.Handler.Protocol.{
  fail, execute, receive, zero_fill, int_size, interrupted, incomplete, judge, process_loop,
  process,
}

-- The peer has closed, the client has ended the session, or there is a request; and what is not read yet.
pub data Reading : Type 0 where
  closed : List Text → Reading
  ended : List Text → Reading
  request : Text → List Text → Reading

unfoldable pub read_judge : Text → List Text → Reading → Reading
read_judge text chunks more =
    if interrupted text then ended chunks else if incomplete text then more else request text chunks

unfoldable pub read_loop : Text → Text → List Text → Reading
read_loop rdbuf ostr [] = closed []
read_loop rdbuf ostr ([] ∷ chunks) = closed chunks
read_loop rdbuf ostr ((b ∷ bs) ∷ chunks) =
    let filled = receive (b ∷ bs) rdbuf in
    let text = ostr ++ c_string filled in
    read_judge text chunks (read_loop (zero_fill int_size filled) text chunks)

unfoldable pub read : ℕ → List Text → Reading
read rdbuf_len chunks = read_loop (replicate rdbuf_len 0) [] chunks

abbrev pub deliver : ProcHandler → Reading → ProcHandler × ℤ × List Text
deliver h (closed rest) = (h, pos 0, rest)
deliver h (ended rest) = (h, minus_one, rest)
deliver h (request text rest) = ((execute h text).0, (execute h text).1, rest)

judge-deliver :
    (h : ProcHandler) (text : Text) (chunks : List Text) (more : Reading)
    → judge h text chunks (deliver h more) ≡ deliver h (read_judge text chunks more)
unfolding judge read_judge
judge-deliver h text chunks more = elim (Bool-cases (interrupted text)) [
  | inl e ↦ rw e refl
  | inr e ↦ rw e (elim (Bool-cases (incomplete text)) [ inl f ↦ rw f refl | inr f ↦ rw f refl ])
]

process_loop-deliver :
    (chunks : List Text) (h : ProcHandler) (rdbuf ostr : Text)
    → process_loop h rdbuf ostr chunks ≡ deliver h (read_loop rdbuf ostr chunks)
unfolding process_loop read_loop
process_loop-deliver [] h rdbuf ostr = refl
process_loop-deliver ([] ∷ chunks) h rdbuf ostr = refl
process_loop-deliver ((b ∷ bs) ∷ chunks) h rdbuf ostr =
    rw
      (process_loop-deliver chunks h (zero_fill int_size (receive (b ∷ bs) rdbuf))
        (ostr ++ c_string (receive (b ∷ bs) rdbuf)))
      (judge-deliver h (ostr ++ c_string (receive (b ∷ bs) rdbuf)) chunks _)

pub process-deliver :
    (h : ProcHandler) (n : ℕ) (chunks : List Text)
    → process h n chunks ≡ deliver (fail h no_packet_error) (read n chunks)
unfolding process read
process-deliver h n chunks = process_loop-deliver chunks (fail h no_packet_error) (replicate n 0) []
