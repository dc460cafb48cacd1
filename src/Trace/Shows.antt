-- ===== src/Trace/Shows.antt =====
-- What is printed of any line.
use cci_daemon.Base.{
  ℕ, zero, suc, ◌+◌, ◌-◌, ◌≡◌, ◌<◌, ◌≤◌, refl, sym, ap, ◌∙◌, true, Option, none, some, [], ◌∷◌,
  ◌++◌, arith, ◌==◌, ==_iff, ltb, Text, length, length-append, take, drop, drop_all, ◌⊎◌, subst,
  append_assoc, Bool-cases, inl, inr,
}
use cci_daemon.Trace.{
  Marks, no_marks, mark, ends_offset, scan, Demangle, whole_line, resolved_line, print_cut,
  print_marked, print_symbol,
}

-- The line as it is, or three parts of it between a parenthesis, a plus sign and a parenthesis.
pub data Shows (demangle : Demangle) (line : Text) : Text → Type 0 where
  whole : Shows demangle line (whole_line line)
  parts :
      (module_name name offset rest : Text)
      → line ≡ module_name ++ b'(' ∷ (name ++ b'+' ∷ (offset ++ b')' ∷ rest))
      → Shows demangle line (resolved_line demangle module_name name offset)

-- The byte `c` stands at `k`.
abbrev At : ℕ → ℕ → Text → Type 0
At c k line = (x : Text) × (y : Text) × (line ≡ x ++ c ∷ y) × (length x ≡ k)

cut_front :
    (x y : Text) (c : ℕ)
    → x ++ c ∷ y ≡ take (length x) (x ++ c ∷ y) ++ c ∷ drop (suc (length x)) (x ++ c ∷ y)
cut_front [] y c = refl
cut_front (z ∷ x) y c = ap (◌∷◌ z) (cut_front x y c)

cut-At : (c k : ℕ) (line : Text) → At c k line → line ≡ take k line ++ c ∷ drop (suc k) line
cut-At c k line (x, y, e, n) = rw (e, ← n) (cut_front x y c)

At-drop : (n c k : ℕ) (line : Text) → n ≤ k → At c k line → At c (k - n) (drop n line)
At-drop zero c k line h (x, y, e, l) = (x, y, e, omega arith)
At-drop (suc n) c k line h ([], y, e, l) = absurd (omega arith)
At-drop (suc n) c k line h (z ∷ x, y, e, l) =
    let (x', y', e', l') =
      At-drop n c (k - 1) (x ++ c ∷ y) (omega arith) (x, y, refl, omega arith) in
    (x', y', rw e e', omega arith)

drop-drop : (m n : ℕ) (s : Text) → drop m (drop n s) ≡ drop (n + m) s
drop-drop m zero s = ap (λ (k : ℕ). drop k s) (omega arith)
drop-drop m (suc n) [] = drop_all m [] (omega arith) ∙ sym (drop_all (suc n + m) [] (omega arith))
drop-drop m (suc n) (x ∷ s) =
    let e : suc n + m ≡ suc (n + m) = omega arith in rw e (drop-drop m n s)

-- Three places in their order cut the line.
cut-parts :
    (demangle : Demangle) (line : Text) (a b e : ℕ)
    → At b'(' a line
    → At b'+' b line
    → At b')' e line
    → a < b
    → b < e
    → Shows demangle line (print_cut demangle line a b e)
unfolding print_cut
cut-parts demangle line a b e pa pb pe h k =
    let front = cut-At b'(' a line pa in
    let middle = cut-At b'+' (b - suc a) (drop (suc a) line) (At-drop (suc a) b'+' b line h pb) in
    let end = cut-At b')' (e - suc b) (drop (suc b) line) (At-drop (suc b) b')' e line k pe) in
    let past : drop (suc (b - suc a)) (drop (suc a) line) ≡ drop (suc b) line =
      drop-drop (suc (b - suc a)) (suc a) line
      ∙ ap (λ (n : ℕ). drop n line) {y = suc b} (omega arith) in
    parts (take a line) (take (b - suc a) (drop (suc a) line))
      (take (e - suc b) (drop (suc b) line)) (drop (suc (e - suc b)) (drop (suc b) line))
      (front
        ∙ ap (λ (t : Text). take a line ++ b'(' ∷ t)
            (middle
              ∙ ap (λ (t : Text). take (b - suc a) (drop (suc a) line) ++ b'+' ∷ t) (past ∙ end)))

-- A mark that is set is at such a byte, before `p`.
abbrev SetAt : ℕ → ℕ → Text → Option ℕ → Type 0
SetAt c p line none = Unit {0}
SetAt c p line (some k) = At c k line × (k < p)

SetAt-suc : (c p : ℕ) (line : Text) (o : Option ℕ) → SetAt c p line o → SetAt c (suc p) line o
SetAt-suc c p line none h = tt
SetAt-suc c p line (some k) (h, l) = (h, omega arith)

record IsMarked (p : ℕ) (line : Text) (m : Marks) : Type 0 where
  names : SetAt b'(' p line m.begin_name
  offsets : SetAt b'+' p line m.begin_offset

mark-IsMarked :
    (p c : ℕ) (line : Text) (m : Marks)
    → At c p line
    → IsMarked p line m
    → IsMarked (suc p) line (mark p c m)
unfolding mark
mark-IsMarked p c line m h v = elim (Bool-cases (c == b'(')) [
  | inl e ↦
      let q : c ≡ b'(' = (==_iff c b'(').0 e in
      rw e (record {
        names = (subst (λ (x : ℕ). At x p line) q h, omega arith);
        offsets = SetAt-suc b'+' p line m.begin_offset v.offsets;
      })
  | inr e ↦ rw e (elim (Bool-cases (c == b'+')) [
    | inl f ↦
        let q : c ≡ b'+' = (==_iff c b'+').0 f in
        rw f (record {
          names = SetAt-suc b'(' p line m.begin_name v.names;
          offsets = (subst (λ (x : ℕ). At x p line) q h, omega arith);
        })
    | inr f ↦ rw f (record {
      names = SetAt-suc b'(' p line m.begin_name v.names;
      offsets = SetAt-suc b'+' p line m.begin_offset v.offsets;
    })
  ])
]

mark_end : (p c : ℕ) (m : Marks) → (mark p c m).end_offset ≡ m.end_offset
unfolding mark
mark_end p c m = ground arith

abbrev Found : Text → Marks → Type 0
Found line m =
    (m.end_offset ≡ none) ⊎ ((e : ℕ) × (m.end_offset ≡ some e) × At b')' e line × IsMarked e line m)

ends_at : (c : ℕ) (m : Marks) → ends_offset c m ≡ true → c ≡ b')'
unfolding ends_offset
ends_at c m h = ground arith

scan-Found :
    (p : ℕ) (pre s line : Text) (m : Marks)
    → line ≡ pre ++ s
    → length pre ≡ p
    → m.end_offset ≡ none
    → IsMarked p line m
    → Found line (scan p s m)
unfolding scan
scan-Found p pre [] line m e l n v = inl n
scan-Found p pre (c ∷ s) line m e l n v = elim (Bool-cases (ends_offset c m)) [
  | inl t ↦
      let q : c ≡ b')' = ends_at c m t in
      rw t (
        inr (
          p,
          refl,
          subst (λ (x : ℕ). At x p line) q (pre, s, e, l),
          record { names = v.names; offsets = v.offsets },
        ))
  | inr t ↦ rw t (
      scan-Found (suc p) (pre ++ c ∷ []) s line (mark p c m) (e ∙ sym (append_assoc pre (c ∷ []) s))
        (omega (arith, length-append pre (c ∷ []))) (mark_end p c m ∙ n)
        (mark-IsMarked p c line m (pre, s, e, l) v))
]

marked-Shows :
    (demangle : Demangle) (line : Text) (a b : Option ℕ) (e : ℕ)
    → At b')' e line
    → SetAt b'(' e line a
    → SetAt b'+' e line b
    → Shows demangle line (print_marked demangle line a b (some e))
unfolding print_marked
marked-Shows demangle line none none e h v w = whole
marked-Shows demangle line none (some b) e h v w = whole
marked-Shows demangle line (some a) none e h v w = whole
marked-Shows demangle line (some a) (some b) e h (pa, la) (pb, lb) = elim (Bool-cases (ltb a b)) [
  | inl t ↦ rw t (cut-parts demangle line a b e pa pb h (ground arith) lb)
  | inr t ↦ rw t whole
]

unmarked-Shows :
    (demangle : Demangle) (line : Text) (a b : Option ℕ)
    → Shows demangle line (print_marked demangle line a b none)
unfolding print_marked
unmarked-Shows demangle line none b = whole
unmarked-Shows demangle line (some a) none = whole
unmarked-Shows demangle line (some a) (some b) = whole

found-Shows :
    (demangle : Demangle) (line : Text) (m : Marks)
    → Found line m
    → Shows demangle line (print_marked demangle line m.begin_name m.begin_offset m.end_offset)
found-Shows demangle line m (inl n) =
    rw n (unmarked-Shows demangle line m.begin_name m.begin_offset)
found-Shows demangle line m (inr (e, f, h, v)) =
    rw f (marked-Shows demangle line m.begin_name m.begin_offset e h v.names v.offsets)

-- Whatever bytes a line has, it is printed as it is, or as a module, a function and an offset that are parts of it, in
-- this order, with an opening parenthesis, a plus sign and a closing parenthesis behind them: no other text is
-- printed of it, but that of the demangler for the name.
pub print_symbol-Shows :
    (demangle : Demangle) (line : Text) → Shows demangle line (print_symbol demangle line)
unfolding print_symbol
print_symbol-Shows demangle line =
    found-Shows demangle line (scan 0 line no_marks)
      (scan-Found 0 [] line line no_marks refl refl refl (record { names = tt; offsets = tt }))
