-- ===== src/Daemonize/PidLine.antt =====
-- The text of the pid file: the line that `write_pid` of cci_daemon/src/core/cci_daemonize.cpp writes,
-- read as a decimal number.
use cci_daemon.Base.{
  ℕ, zero, suc, ◌+◌, ◌-◌, ◌*◌, ◌/◌, ◌%◌, ◌≡◌, ◌≢◌, ◌≤◌, ◌<◌, inl, inr, refl, ap, ◌∙◌, [], ◌∷◌, ◌++◌,
  arith, ltb, Text, length, length-append, take, take_all, All, All-append, Lacks, c_string,
  c_string-Lacks, Bool-cases, ℤ, pos, negsuc,
}
use cci_daemon.Daemonize.PidFile.{digits, print_long, pid_line, buffer_size}

-- The number that decimal digits stand for.
abbrev value_from : ℕ → Text → ℕ
value_from n [] = n
value_from n (x ∷ xs) = value_from (n * 10 + (x - b'0')) xs

unfoldable pub value : Text → ℕ
value s = value_from 0 s

abbrev pub IsDigit : ℕ → Type 0
IsDigit x = (b'0' ≤ x) × (x ≤ b'9')

-- Powers of ten.
abbrev pub ten_to : ℕ → ℕ
ten_to zero = 1
ten_to (suc f) = 10 * ten_to f

value_from-append :
    (n : ℕ) (s : Text) (x : ℕ) → value_from n (s ++ x ∷ []) ≡ value_from n s * 10 + (x - b'0')
value_from-append n [] x = refl
value_from-append n (y ∷ s) x = value_from-append (n * 10 + (y - b'0')) s x

digits-IsDigit : (f n : ℕ) → All IsDigit (digits f n)
digits-IsDigit zero n = tt
digits-IsDigit (suc f) n = elim (Bool-cases (ltb n 10)) [
  | inl e ↦ rw e ((omega arith, ground arith), tt)
  | inr e ↦ rw e (
      All-append IsDigit (digits f (n / 10)) _ (digits-IsDigit f (n / 10))
        ((omega arith, omega arith), tt))
]

length-digits : (f n : ℕ) → length (digits f n) ≤ f
length-digits zero n = omega arith
length-digits (suc f) n = elim (Bool-cases (ltb n 10)) [
  | inl e ↦ rw e (omega arith)
  | inr e ↦ rw e (
      omega
        (arith, length-append (digits f (n / 10)) ((b'0' + n % 10) ∷ []), length-digits f (n / 10)))
]

value-digits : (f n : ℕ) → n < ten_to f → value (digits f n) ≡ n
unfolding value
value-digits zero n h = omega arith
value-digits (suc f) n h = elim (Bool-cases (ltb n 10)) [
  | inl e ↦ rw e (omega arith)
  | inr e ↦
      rw
        (
          e,
          value_from-append 0 (digits f (n / 10)) (b'0' + n % 10),
          value-digits f (n / 10) (omega arith),
        )
        (omega arith)
]

Lacks-digits : (c : ℕ) (s : Text) → c < b'0' → All IsDigit s → Lacks c s
Lacks-digits c [] h d = tt
Lacks-digits c (x ∷ s) h (d, ds) = ((λ e. omega arith), Lacks-digits c s h ds)

length-print_long : (pid : ℤ) → length (print_long pid) ≤ 22
unfolding print_long
length-print_long (pos n) =
    omega (arith, length-append (digits 20 n) (b'\n' ∷ []), length-digits 20 n)
length-print_long (negsuc n) =
    omega (arith, length-append (digits 20 (suc n)) (b'\n' ∷ []), length-digits 20 (suc n))

print_long-Lacks : (pid : ℤ) → Lacks 0 (print_long pid)
unfolding print_long
print_long-Lacks (pos n) =
    All-append (λ x. x ≢ 0) (digits 20 n) (b'\n' ∷ [])
      (Lacks-digits 0 (digits 20 n) (omega arith) (digits-IsDigit 20 n)) ((λ e. omega arith), tt)
print_long-Lacks (negsuc n) = (
  (λ e. omega arith),
  All-append (λ x. x ≢ 0) (digits 20 (suc n)) (b'\n' ∷ [])
      (Lacks-digits 0 (digits 20 (suc n)) (omega arith) (digits-IsDigit 20 (suc n)))
      ((λ e. omega arith), tt),
)

-- The line for a pid has at most 22 bytes, so `snprintf` never cuts it to the buffer, and it is written whole:
-- `strlen` counts all of it.
pub pid_line_whole : (pid : ℤ) → (pid_line pid ≡ print_long pid) × (length (pid_line pid) ≤ 22)
unfolding pid_line
pid_line_whole pid =
    let whole : c_string (take (buffer_size - 1) (print_long pid)) ≡ print_long pid =
      ap c_string
        (take_all (buffer_size - 1) (print_long pid) (omega (arith, length-print_long pid)))
      ∙ c_string-Lacks (print_long pid) (print_long-Lacks pid) in
    (whole, omega (arith, ap length whole, length-print_long pid))

-- The line for a pid of at most 20 decimal digits, as each of 64 bits is, is decimal digits and a line feed, and
-- the digits read back as the pid.
pub value-pid_line :
    (n : ℕ)
    → n < ten_to 20
    → (s : Text) × (pid_line (pos n) ≡ s ++ b'\n' ∷ []) × All IsDigit s × (value s ≡ n)
unfolding print_long
value-pid_line n h =
    (digits 20 n, (pid_line_whole (pos n)).0, digits-IsDigit 20 n, value-digits 20 n h)
