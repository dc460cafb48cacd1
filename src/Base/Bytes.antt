-- ===== src/Base/Bytes.antt =====
-- `std::string` as a list of bytes, and the members of it that the program calls. `npos` is `none`.
use Prim.Native.Nat.{ℕ, suc, ◌+◌, ◌-◌, ◌%◌, ◌^◌, ◌<◌, ◌≤◌}
use Prim.Native.Char.{code}
use Prim.Native.String.{String}
use mathlib.Core.Path.{◌≡◌, refl, ap}
use mathlib.Core.Logic.{◌≢◌, ◌⊎◌, inl, inr}
use mathlib.Core.Bool.{Bool, true, false, ◌&&◌}
use mathlib.Core.Option
use mathlib.Core.Option.{Option, none, some}
use mathlib.Core.List.{List, [], ◌∷◌, ◌++◌}
use native.Mathlib.Omega.{arith}
use cci_daemon.Base.Tests.{leb, ◌==◌, if◌then◌else◌, Bool-cases, ==_iff}
use cci_daemon.Base.Lists.{length, take, drop, All}

abbrev pub Text : Type 0
Text = List ℕ

-- The bytes of a literal; every literal here is ASCII.
abbrev pub codes : String → Text
codes String.[] = []
codes (String.◌∷◌ c s) = code c ∷ codes s

abbrev pub contains : Text → ℕ → Bool
contains [] c = false
contains (x ∷ xs) c = if c == x then true else contains xs c

-- `s.find( c )`.
abbrev pub find_char : ℕ → Text → Option ℕ
find_char c [] = none
find_char c (x ∷ xs) = if x == c then some 0 else Option.map suc (find_char c xs)

abbrev pub starts_with : Text → Text → Bool
starts_with [] s = true
starts_with (t ∷ ts) [] = false
starts_with (t ∷ ts) (x ∷ xs) = t == x && starts_with ts xs

-- `s.find( token )`.
abbrev pub find : Text → Text → Option ℕ
find token [] = if starts_with token [] then some 0 else none
find token (x ∷ xs) = if starts_with token (x ∷ xs) then some 0 else Option.map suc (find token xs)

-- `s.find_first_of( set )` and `s.find_last_of( set )`.
abbrev pub find_first_of : Text → Text → Option ℕ
find_first_of chars [] = none
find_first_of chars (x ∷ xs) =
    if contains chars x then some 0 else Option.map suc (find_first_of chars xs)

abbrev pub after_first : Option ℕ → Bool → Option ℕ
after_first (some i) here = some (suc i)
after_first none true = some 0
after_first none false = none

abbrev pub find_last_of : Text → Text → Option ℕ
find_last_of chars [] = none
find_last_of chars (x ∷ xs) = after_first (find_last_of chars xs) (contains chars x)

-- `s.substr( pos , n )`, where `pos` is at most the size, and `s.erase( i , 1 )`.
abbrev pub substr : Text → ℕ → ℕ → Text
substr s pos n = take n (drop pos s)

abbrev pub erase_at : Text → ℕ → Text
erase_at s i = take i s ++ drop (suc i) s

-- `size_type` has 64 bits; `--idx` at 0 gives `npos`, the largest value.
abbrev pub size_mod : ℕ
size_mod = 2 ^ 64

unfoldable pub npos : ℕ
npos = size_mod - 1

unfoldable pub dec_size : ℕ → ℕ
dec_size i = (i + size_mod - 1) % size_mod

pub dec_size-suc : (n : ℕ) → n < size_mod → dec_size (suc n) ≡ n
unfolding dec_size
dec_size-suc n h = omega arith

pub dec_size_zero : dec_size 0 ≡ npos
unfolding dec_size npos
dec_size_zero = refl

pub le-npos : (n : ℕ) → n < size_mod → n ≤ npos
unfolding npos
le-npos n h = omega arith

-- What a C string in a buffer reads as: the bytes before the first NUL.
unfoldable pub c_string : Text → Text
c_string [] = []
c_string (x ∷ xs) = let rest = c_string xs in if x == 0 then [] else x ∷ rest

-- `tolower` and `toupper` in the C locale.
unfoldable pub to_lower : ℕ → ℕ
to_lower c = if leb b'A' c && leb c b'Z' then c + 32 else c

unfoldable pub to_upper : ℕ → ℕ
to_upper c = if leb b'a' c && leb c b'z' then c - 32 else c

abbrev pub Lacks : ℕ → Text → Type 0
Lacks c = All (λ x. x ≢ c)

-- `Lacks` on a given text, by running the search.
pub contains-Lacks : (c : ℕ) (s : Text) → contains s c ≡ false → Lacks c s
contains-Lacks c [] h = tt
contains-Lacks c (x ∷ xs) h = elim (Bool-cases (c == x)) [
  | inl e ↦ absurd (ground arith)
  | inr e ↦ ((λ q. ground arith), contains-Lacks c xs (ground arith))
]

pub find_char-Lacks : (c : ℕ) (s : Text) → Lacks c s → find_char c s ≡ none
find_char-Lacks c [] h = refl
find_char-Lacks c (x ∷ xs) h = ground (arith, find_char-Lacks c xs h.1)

pub find_char-append : (c : ℕ) (s t : Text) → Lacks c s → find_char c (s ++ c ∷ t) ≡ some (length s)
find_char-append c [] t h = ground arith
find_char-append c (x ∷ xs) t h = ground (arith, find_char-append c xs t h.1)

pub find-find_char : (c : ℕ) (s : Text) → find (c ∷ []) s ≡ find_char c s
find-find_char c [] = refl
find-find_char c (x ∷ xs) = ground (arith, find-find_char c xs)

pub find_first_of-find_char : (c : ℕ) (s : Text) → find_first_of (c ∷ []) s ≡ find_char c s
find_first_of-find_char c [] = refl
find_first_of-find_char c (x ∷ xs) = ground (arith, find_first_of-find_char c xs)

pub find_last_of-append : (c : ℕ) (s : Text) → find_last_of (c ∷ []) (s ++ c ∷ []) ≡ some (length s)
find_last_of-append c [] = ground arith
find_last_of-append c (x ∷ xs) = rw (find_last_of-append c xs)

pub c_string-Lacks : (s : Text) → Lacks 0 s → c_string s ≡ s
unfolding c_string
c_string-Lacks [] h = refl
c_string-Lacks (x ∷ xs) h = ground (arith, c_string-Lacks xs h.1)

pub c_string-append : (s t : Text) → Lacks 0 s → c_string (s ++ 0 ∷ t) ≡ s
unfolding c_string
c_string-append [] t h = refl
c_string-append (x ∷ xs) t h = ground (arith, c_string-append xs t h.1)

-- The first place of a byte.
pub first_char :
    (c : ℕ) (s : Text)
    → Lacks c s ⊎ ((front : Text) × (rest : Text) × (s ≡ front ++ c ∷ rest) × Lacks c front)
first_char c [] = inl tt
first_char c (x ∷ xs) = elim (Bool-cases (x == c)) [
  | inl e ↦ inr ([], xs, ap (λ (y : ℕ). y ∷ xs) ((==_iff x c).0 e), tt)
  | inr n ↦ elim (first_char c xs) [
    | inl l ↦ inl ((λ e. cc (n, (==_iff x c).1 e)), l)
    | inr (tok, rest, e, l) ↦
        inr (x ∷ tok, rest, ap (◌∷◌ x) e, ((λ e. cc (n, (==_iff x c).1 e)), l))
  ]
]

pub drop_past : (s t : Text) (c : ℕ) → drop (length s + 1) (s ++ c ∷ t) ≡ t
drop_past s t c = let e : length s + 1 ≡ suc (length s) = omega arith in rw e (past s)
  where
    past : (s : Text) → drop (suc (length s)) (s ++ c ∷ t) ≡ t
    past [] = refl
    past (x ∷ xs) = past xs
