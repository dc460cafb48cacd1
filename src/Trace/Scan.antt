-- ===== src/Trace/Scan.antt =====
-- How the lines of a stack are taken apart.
use cci_daemon.Base.{
  ℕ, suc, ◌+◌, ◌-◌, ◌≡◌, ◌≢◌, refl, ap, ◌∙◌, true, false, some, List, [], ◌∷◌, ◌++◌, arith, ◌==◌,
  ltb, Text, codes, length, length-append, drop, take-append, append_assoc, Lacks, All, map,
}
use cci_daemon.Trace.{
  Marks, no_marks, mark, ends_offset, scan, Demangle, resolved_line, print_cut, print_marked,
  print_symbol, print_symbols, print_addresses, print_stacktrace,
}

-- The marks after bytes that do not end the scan.
marks : ℕ → Text → Marks → Marks
marks p [] m = m
marks p (c ∷ s) m = marks (suc p) s (mark p c m)

scan_quiet :
    (p : ℕ) (s rest : Text) (m : Marks)
    → Lacks b')' s
    → scan p (s ++ rest) m ≡ scan (p + length s) rest (marks p s m)
unfolding scan ends_offset marks
scan_quiet p [] rest m l = ap (λ (q : ℕ). scan q rest m) (omega arith)
scan_quiet p (c ∷ s) rest m (n, l) =
    let e : (c == b')') ≡ false = ground arith in
    rw e (
      scan_quiet (suc p) s rest (mark p c m) l
      ∙ ap (λ (q : ℕ). scan q rest (marks (suc p) s (mark p c m))) (omega arith))

marks-begin_name :
    (p : ℕ) (s : Text) (m : Marks) → Lacks b'(' s → (marks p s m).begin_name ≡ m.begin_name
unfolding marks mark
marks-begin_name p [] m l = refl
marks-begin_name p (c ∷ s) m (n, l) = marks-begin_name (suc p) s (mark p c m) l ∙ ground arith

marks-begin_offset :
    (p : ℕ) (s : Text) (m : Marks) → Lacks b'+' s → (marks p s m).begin_offset ≡ m.begin_offset
unfolding marks mark
marks-begin_offset p [] m l = refl
marks-begin_offset p (c ∷ s) m (n, l) = marks-begin_offset (suc p) s (mark p c m) l ∙ ground arith

-- A line as `backtrace_symbols` writes it: `module(name+offset)` and what follows.
pub record Frame : Type 0 where
  pub module_name : Text
  pub name : Text
  pub offset : Text
  pub address : Text

abbrev pub symbol : Frame → Text
symbol f = f.module_name ++ b'(' ∷ (f.name ++ b'+' ∷ (f.offset ++ b')' ∷ f.address))

-- No parenthesis where one would be taken for those of the name; a name may hold a plus sign, and so may a module.
pub record IsPlain (f : Frame) : Type 0 where
  pub module_closes : Lacks b')' f.module_name
  pub name_closes : Lacks b')' f.name
  pub name_opens : Lacks b'(' f.name
  pub offset_closes : Lacks b')' f.offset
  pub offset_opens : Lacks b'(' f.offset
  pub offset_adds : Lacks b'+' f.offset

abbrev Marked : Marks → ℕ → ℕ → ℕ → Type 0
Marked m a b e = (m.begin_name ≡ some a) × (m.begin_offset ≡ some b) × (m.end_offset ≡ some e)

scan_close :
    (p : ℕ) (rest : Text) (m : Marks) (a b : ℕ)
    → m.begin_name ≡ some a
    → m.begin_offset ≡ some b
    → Marked (scan p (b')' ∷ rest) m) a b p
unfolding scan ends_offset
scan_close p rest m a b n o = rw o (n, refl, refl)

scan_offset :
    (p : ℕ) (offset rest : Text) (m : Marks) (a b : ℕ)
    → Lacks b')' offset
    → Lacks b'(' offset
    → Lacks b'+' offset
    → m.begin_name ≡ some a
    → m.begin_offset ≡ some b
    → Marked (scan p (offset ++ b')' ∷ rest) m) a b (p + length offset)
scan_offset p offset rest m a b c l s n o = rw (scan_quiet p offset (b')' ∷ rest) m c) (
    scan_close (p + length offset) rest (marks p offset m) a b (marks-begin_name p offset m l ∙ n)
      (marks-begin_offset p offset m s ∙ o))

scan_plus :
    (p : ℕ) (rest : Text) (m : Marks)
    → scan p (b'+' ∷ rest) m ≡ scan (suc p) rest (record m { begin_offset = some p })
unfolding scan ends_offset mark
scan_plus p rest m = refl

scan_open :
    (p : ℕ) (rest : Text) (m : Marks)
    → scan p (b'(' ∷ rest) m ≡ scan (suc p) rest (record m { begin_name = some p })
unfolding scan ends_offset mark
scan_open p rest m = refl

past : (s t : Text) (c : ℕ) → drop (suc (length s)) (s ++ c ∷ t) ≡ t
past [] t c = refl
past (x ∷ s) t c = past s t c

module _ (f : Frame) where
  abbrev name_at : ℕ
  name_at = length f.module_name

  abbrev offset_at : ℕ
  offset_at = suc name_at + length f.name

  abbrev end_at : ℕ
  end_at = suc offset_at + length f.offset

  scan-symbol : IsPlain f → Marked (scan 0 (symbol f) no_marks) name_at offset_at end_at
  scan-symbol h =
      let m1 = record (marks 0 f.module_name no_marks) { begin_name = some name_at } in
      let m2 = record (marks (suc name_at) f.name m1) { begin_offset = some offset_at } in
      rw
        (
          scan_quiet 0 f.module_name (b'(' ∷ (f.name ++ b'+' ∷ (f.offset ++ b')' ∷ f.address)))
              no_marks h.module_closes,
          zero_plus,
          scan_open name_at (f.name ++ b'+' ∷ (f.offset ++ b')' ∷ f.address))
              (marks 0 f.module_name no_marks),
          scan_quiet (suc name_at) f.name (b'+' ∷ (f.offset ++ b')' ∷ f.address)) m1 h.name_closes,
          scan_plus offset_at (f.offset ++ b')' ∷ f.address) (marks (suc name_at) f.name m1),
        )
        (scan_offset (suc offset_at) f.offset f.address m2 name_at offset_at h.offset_closes
          h.offset_opens h.offset_adds (marks-begin_name (suc name_at) f.name m1 h.name_opens) refl)
    where
      zero_plus : 0 + name_at ≡ name_at
      zero_plus = omega arith

  past_name : drop (suc name_at) (symbol f) ≡ f.name ++ b'+' ∷ (f.offset ++ b')' ∷ f.address)
  past_name = past f.module_name (f.name ++ b'+' ∷ (f.offset ++ b')' ∷ f.address)) b'('

  past_offset : drop (suc offset_at) (symbol f) ≡ f.offset ++ b')' ∷ f.address
  past_offset =
      let front : offset_at ≡ length (f.module_name ++ b'(' ∷ f.name) =
        omega (arith, length-append f.module_name (b'(' ∷ f.name)) in
      rw
        (
          front,
          ← append_assoc f.module_name (b'(' ∷ f.name) (b'+' ∷ (f.offset ++ b')' ∷ f.address)),
        )
        (past (f.module_name ++ b'(' ∷ f.name) (f.offset ++ b')' ∷ f.address) b'+')

  name_length : offset_at - suc name_at ≡ length f.name
  name_length = omega arith

  offset_length : end_at - suc offset_at ≡ length f.offset
  offset_length = omega arith

  print_cut-symbol :
      (demangle : Demangle)
      → print_cut demangle (symbol f) name_at offset_at end_at
        ≡ resolved_line demangle f.module_name f.name f.offset
  unfolding print_cut
  print_cut-symbol demangle =
      rw
        (
          past_name,
          past_offset,
          name_length,
          offset_length,
          take-append f.module_name (b'(' ∷ (f.name ++ b'+' ∷ (f.offset ++ b')' ∷ f.address))),
          take-append f.name (b'+' ∷ (f.offset ++ b')' ∷ f.address)),
          take-append f.offset (b')' ∷ f.address),
        )
        refl

  print_symbol-symbol :
      (demangle : Demangle)
      → IsPlain f
      → print_symbol demangle (symbol f) ≡ resolved_line demangle f.module_name f.name f.offset
  unfolding print_symbol print_marked
  print_symbol-symbol demangle h =
      let (n, o, e) = scan-symbol h in
      let before : ltb name_at offset_at ≡ true = ground arith in
      rw (n, o, e, before) (print_cut-symbol demangle)

abbrev pub resolve_all : Demangle → List Frame → Text
resolve_all demangle [] = []
resolve_all demangle (f ∷ fs) =
    resolved_line demangle f.module_name f.name f.offset ++ resolve_all demangle fs

print_symbols-symbol :
    (demangle : Demangle) (fs : List Frame)
    → All IsPlain fs
    → print_symbols demangle (map symbol fs) ≡ resolve_all demangle fs
unfolding print_symbols
print_symbols-symbol demangle [] h = refl
print_symbols-symbol demangle (f ∷ fs) (p, h) =
    rw (print_symbol-symbol f demangle p, print_symbols-symbol demangle fs h) refl

print_addresses-symbol :
    (backtrace_symbols : List ℕ → List Text) (demangle : Demangle) (addrs : List ℕ) (own : Text)
    (fs : List Frame)
    → addrs ≢ []
    → backtrace_symbols addrs ≡ own ∷ map symbol fs
    → All IsPlain fs
    → print_addresses backtrace_symbols demangle addrs ≡ resolve_all demangle fs
unfolding print_addresses
print_addresses-symbol backtrace_symbols demangle [] own fs n e h = absurd (n refl)
print_addresses-symbol backtrace_symbols demangle (addr ∷ addrs) own fs n e h =
    rw e (print_symbols-symbol demangle fs h)

-- Where `backtrace` finds a stack, and each of its frames but the first is written as `module(name+offset)` with no
-- other parenthesis than those, and no plus sign in the offset, `print_stacktrace` prints these frames in their
-- order and nothing of the first: the module, the demangled name or else the name as a function without
-- arguments, and the offset.
pub print_stacktrace-symbol :
    (backtrace : ℕ → List ℕ) (backtrace_symbols : List ℕ → List Text) (demangle : Demangle)
    (max_frames : ℕ) (own : Text) (fs : List Frame)
    → backtrace (max_frames + 1) ≢ []
    → backtrace_symbols (backtrace (max_frames + 1)) ≡ own ∷ map symbol fs
    → All IsPlain fs
    → print_stacktrace backtrace backtrace_symbols demangle max_frames
      ≡ codes "stack trace:\n" ++ resolve_all demangle fs
unfolding print_stacktrace
print_stacktrace-symbol backtrace backtrace_symbols demangle max_frames own fs n e h =
    ap (λ (t : Text). codes "stack trace:\n" ++ t)
      (print_addresses-symbol backtrace_symbols demangle (backtrace (max_frames + 1)) own fs n e h)
