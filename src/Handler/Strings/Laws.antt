-- ===== src/Handler/Strings/Laws.antt =====
-- Laws of the string utilities, the bytes that `chomp` and `rtrimlast` drop included.
use cci_daemon.Base.{
  ℕ, zero, suc, ◌+◌, ◌-◌, ◌≤◌, ◌<◌, ◌≡◌, ◌≢◌, ◌⊎◌, inl, inr, refl, sym, ap, ap₂, ◌∙◌, true, false,
  some, [], ◌∷◌, ◌++◌, arith, ◌==◌, leb, length, take, take_all, take-append, length-append, Text,
  Lacks, find, find_last_of, find_char-append, find-find_char, find_last_of-append, append_assoc,
  append-nil, drop, All, size_mod, npos, c_string, dec_size, dec_size-suc, dec_size_zero, le-npos,
  All-append, Bool-cases, to_lower, to_upper, ==_iff,
}
use cci_daemon.Handler.Strings.{
  cut_before, cut_at_end, chomp, rtrimlast, strchr, ltrim, last, drop_last, rtrim, rtrim_loop,
  lcase, ucase, extract_quoted_string,
}

take_front : (s t : Text) → length s < size_mod → take (dec_size (suc (length s))) (s ++ t) ≡ s
take_front s t h = rw (dec_size-suc (length s) h) (take-append s t)

find-newline : (s t : Text) → Lacks b'\n' s → find (b'\n' ∷ []) (s ++ b'\n' ∷ t) ≡ some (length s)
find-newline s t h = rw (find-find_char b'\n' (s ++ b'\n' ∷ t)) (find_char-append b'\n' s t h)

chomp_lem : (s : Text) (k : ℕ) → chomp s (k ∷ []) ≡ cut_before s (find (k ∷ []) s)
unfolding chomp
chomp_lem [] k = refl
chomp_lem (x ∷ xs) k = refl

rtrimlast_lem :
    (s : Text) (k : ℕ) → k ≢ 0 → rtrimlast s (k ∷ []) ≡ cut_at_end s (find_last_of (k ∷ []) s)
unfolding rtrimlast c_string
rtrimlast_lem [] k h = refl
rtrimlast_lem (x ∷ xs) k h = ground arith

shift : (s t : Text) (c : ℕ) → s ++ c ∷ t ≡ (s ++ c ∷ []) ++ t
shift s t c = sym (append_assoc s (c ∷ []) t)

length-shift : (s : Text) (c : ℕ) → length (s ++ c ∷ []) ≡ suc (length s)
length-shift s c = omega (arith, length-append s (c ∷ []))

-- `chomp( str , "\n" )` drops the first line feed, the byte before it, whatever other byte that is, and all
-- that follows.
pub chomp_drops :
    (s t : Text) (c : ℕ)
    → Lacks b'\n' s
    → c ≢ b'\n'
    → length s + 1 < size_mod
    → chomp (s ++ c ∷ b'\n' ∷ t) (b'\n' ∷ []) ≡ s
chomp_drops s t c h k w = rw (chomp_lem (s ++ c ∷ b'\n' ∷ t) b'\n') (
    rw
      (
        shift s (b'\n' ∷ t) c,
        find-newline (s ++ c ∷ []) t (All-append (λ x. x ≢ b'\n') s (c ∷ []) h (k, tt)),
        length-shift s c,
      )
      (rw (append_assoc s (c ∷ []) (b'\n' ∷ t)) (take_front s (c ∷ b'\n' ∷ t) (omega arith))))

-- A line feed in front stops `chomp`: the index wraps round to `npos` and the text stays.
pub chomp_front : (t : Text) → length t + 1 < size_mod → chomp (b'\n' ∷ t) (b'\n' ∷ []) ≡ b'\n' ∷ t
chomp_front t w =
    rw (chomp_lem (b'\n' ∷ t) b'\n', dec_size_zero)
      (take_all npos (b'\n' ∷ t) (le-npos (suc (length t)) (omega arith)))

-- `rtrimlast( str , "\n" )` drops a line feed at the end together with the byte before it.
pub rtrimlast_drops :
    (s : Text) (c : ℕ) → length s + 1 < size_mod → rtrimlast (s ++ c ∷ b'\n' ∷ []) (b'\n' ∷ []) ≡ s
rtrimlast_drops s c w = rw (rtrimlast_lem (s ++ c ∷ b'\n' ∷ []) b'\n' (omega arith)) (
    rw (shift s (b'\n' ∷ []) c, find_last_of-append b'\n' (s ++ c ∷ []), length-shift s c)
      (rw at_end
        (rw (append_assoc s (c ∷ []) (b'\n' ∷ [])) (take_front s (c ∷ b'\n' ∷ []) (omega arith)))))
  where
    at_end : (suc (length s) == length ((s ++ c ∷ []) ++ b'\n' ∷ []) - 1) ≡ true
    at_end =
        (==_iff _ _).1
          (omega (arith, length-append (s ++ c ∷ []) (b'\n' ∷ []), length-append s (c ∷ [])))

-- Lower case is reached in one pass, and `ucase` then `lcase` is `lcase`.
pub lcase_idem : (s : Text) → (lcase (lcase s) ≡ lcase s) × (lcase (ucase s) ≡ lcase s)
unfolding lcase ucase
lcase_idem [] = (refl, refl)
lcase_idem (x ∷ xs) =
    let (p, q) = lcase_idem xs in (ap₂ (◌∷◌) (byte x) p, ap₂ (◌∷◌) (byte_upper x) q)
  where
    byte : (c : ℕ) → to_lower (to_lower c) ≡ to_lower c
    byte c = ground arith

    byte_upper : (c : ℕ) → to_lower (to_upper c) ≡ to_lower c
    byte_upper c = ground arith

-- A quoted text loses its two outer quotes, and nothing else, whatever stands between them.
pub extract_quoted_string-quoted :
    (body : Text) → extract_quoted_string (b'"' ∷ (body ++ b'"' ∷ [])) ≡ body
unfolding extract_quoted_string
extract_quoted_string-quoted body =
    rw (find_last_of-append b'"' body) (rw (take-append body (b'"' ∷ []), append-nil-drop body))
  where
    append-nil-drop : (xs : Text) → body ++ drop (suc (length xs)) (xs ++ b'"' ∷ []) ≡ body
    append-nil-drop [] = append-nil body
    append-nil-drop (x ∷ xs) = append-nil-drop xs

-- A text that is empty, or starts with a byte that is not trimmed.
abbrev pub StartsClean : Text → Text → Type 0
StartsClean chars [] = Unit {0}
StartsClean chars (x ∷ xs) = strchr chars x ≡ false

-- `ltrim` takes bytes of the set away from the front, and stops at the first other one.
pub ltrim_lem :
    (s chars : Text)
    → (front : Text) × (s ≡ front ++ ltrim s chars)
      × All (λ x. strchr chars x ≡ true) front
      × StartsClean chars (ltrim s chars)
unfolding ltrim
ltrim_lem [] chars = ([], refl, tt, tt)
ltrim_lem (x ∷ xs) chars = elim (Bool-cases (strchr chars x)) [
  | inl e ↦
      let (front, whole, all, clean) = ltrim_lem xs chars in
      rw e ((x ∷ front, ap (◌∷◌ x) whole, (e, all), clean))
  | inr e ↦ rw e (([], refl, tt, e))
]

drop_last-last : (x : ℕ) (xs : Text) → drop_last (x ∷ xs) ++ last (x ∷ xs) ∷ [] ≡ x ∷ xs
drop_last-last x [] = refl
drop_last-last x (y ∷ ys) = ap (◌∷◌ x) (drop_last-last y ys)

length-drop_last : (s : Text) → length (drop_last s) ≡ length s - 1
length-drop_last [] = refl
length-drop_last (x ∷ []) = refl
length-drop_last (x ∷ y ∷ ys) = omega (arith, length-drop_last (y ∷ ys))

-- A text of two bytes or more splits off its last byte.
drop_last_split : (s : Text) → 2 ≤ length s → s ≡ drop_last s ++ last s ∷ []
drop_last_split [] h = absurd (omega arith)
drop_last_split (x ∷ xs) h = sym (drop_last-last x xs)

-- What `rtrim` leaves of `s`: nothing, or two bytes at least, the last of them outside the set, with
-- only bytes of the set taken away behind it.
abbrev pub RightTrimmed : Text → Text → Text → Type 0
RightTrimmed chars s r =
    (back : Text) × (s ≡ r ++ back)
    × (2 ≤ length r)
    × (strchr chars (last r) ≡ false)
    × All (λ x. strchr chars x ≡ true) back

RightTrimmed-more :
    (chars s r : Text)
    → 2 ≤ length s
    → strchr chars (last s) ≡ true
    → RightTrimmed chars (drop_last s) r
    → RightTrimmed chars s r
RightTrimmed-more chars s r k e (back, whole, long, clean, all) = (
  back ++ last s ∷ [],
  drop_last_split s k
      ∙ ap (λ (t : Text). t ++ last s ∷ []) whole
      ∙ append_assoc r back (last s ∷ []),
  long,
  clean,
  All-append (λ x. strchr chars x ≡ true) back (last s ∷ []) all (e, tt),
)

rtrim_loop_lem :
    (fuel : ℕ) (s chars : Text)
    → length s ≤ fuel
    → 2 ≤ length s
    → (rtrim_loop fuel s chars ≡ []) ⊎ RightTrimmed chars s (rtrim_loop fuel s chars)
unfolding rtrim_loop
rtrim_loop_lem zero s chars h k = absurd (omega arith)
rtrim_loop_lem (suc fuel) s chars h k = elim (Bool-cases (strchr chars (last s))) [
  | inl e ↦ rw e (elim (Bool-cases (leb (length (drop_last s) - 1) 0)) [
    | inl short ↦ rw short (inl refl)
    | inr more ↦
        rw more
          (elim (rtrim_loop_lem fuel (drop_last s) chars (omega (arith, length-drop_last s))
            (ground arith)) [
              | inl gone ↦ inl gone
              | inr t ↦ inr (RightTrimmed-more chars s _ k e t)
            ])
  ])
  | inr e ↦ rw e (inr ([], sym (append-nil s), k, e, tt))
]

-- `rtrim` gives an empty text, or one of at least two bytes that is the input less trimmed bytes at its
-- end and ends in a byte that is not trimmed; a one-byte text is always emptied.
pub rtrim_lem :
    (s chars : Text) (x : ℕ)
    → ((rtrim s chars ≡ []) ⊎ RightTrimmed chars s (rtrim s chars)) × (rtrim (x ∷ []) chars ≡ [])
unfolding rtrim
rtrim_lem s chars x = (
  elim (Bool-cases (leb (length s - 1) 0)) [
    | inl short ↦ rw short (inl refl)
    | inr long ↦ rw long (rtrim_loop_lem (length s) s chars (omega arith) (ground arith))
  ],
  refl,
)
