-- ===== src/Service/Info/Buffer.antt =====
-- The buffer that `info` is given.
use cci_daemon.Base.{
  ℕ, zero, suc, ◌+◌, ◌-◌, ◌≡◌, ◌≤◌, ◌<◌, refl, ap, ◌∙◌, false, Option, none, some, [], ◌∷◌, ◌++◌,
  arith, ltb, if◌then◌else◌, Text, codes, length, take, drop_all, replicate, find_char-Lacks,
  find_char-append, append-nil, ◌≢◌, ◌/◌, ◌%◌, Lacks, All-append, contains-Lacks, Bool-cases, inl,
  inr,
}
use cci_daemon.Daemonize.PidFile.{digits}
use cci_daemon.Service.Info.{
  strncpy, strlen, with_length, measured, ServiceObject, dispatcher, manager, bootstrap, ccifs,
  port_text, info_text, info,
}

abbrev zeros : ℕ → Text
zeros n = replicate n 0

take-zeros : (n m : ℕ) → n ≤ m → take n (zeros m) ≡ zeros n
take-zeros zero m h = refl
take-zeros (suc n) zero h = absurd (omega arith)
take-zeros (suc n) (suc m) h = ap (◌∷◌ 0) (take-zeros n m (omega arith))

-- `strncpy` of a text into a buffer that is longer, and of one that is not.
take-padded :
    (n m : ℕ) (s : Text)
    → length s ≤ n
    → n ≤ length s + m
    → take n (s ++ zeros m) ≡ s ++ zeros (n - length s)
take-padded n m [] h k = take-zeros n m (omega arith) ∙ ap zeros (omega arith)
take-padded zero m (x ∷ s) h k = absurd (omega arith)
take-padded (suc n) m (x ∷ s) h k =
    ap (◌∷◌ x)
      (take-padded n m s (omega arith) (omega arith) ∙ ap (λ (j : ℕ). s ++ zeros j) (omega arith))

take_cut-Lacks : (n m : ℕ) (s : Text) → n ≤ length s → Lacks 0 s → Lacks 0 (take n (s ++ zeros m))
take_cut-Lacks zero m s h l = tt
take_cut-Lacks (suc n) m [] h l = absurd (omega arith)
take_cut-Lacks (suc n) m (x ∷ s) h (p, l) = (p, take_cut-Lacks n m s (omega arith) l)

digits-Lacks : (f n : ℕ) → Lacks 0 (digits f n)
digits-Lacks zero n = tt
digits-Lacks (suc f) n = elim (Bool-cases (ltb n 10)) [
  | inl e ↦ rw e (ground arith, tt)
  | inr e ↦ rw e (
      All-append (λ x. x ≢ 0) (digits f (n / 10)) ((b'0' + n % 10) ∷ []) (digits-Lacks f (n / 10))
        (ground arith, tt))
]

port_text-Lacks : (name : Text) (port : ℕ) → Lacks 0 name → Lacks 0 (port_text name port)
port_text-Lacks name port l =
    All-append (λ x. x ≢ 0) name (codes " listening on port " ++ (digits 20 port ++ codes "\n")) l
      (All-append (λ x. x ≢ 0) (codes " listening on port ") (digits 20 port ++ codes "\n")
        (contains-Lacks 0 (codes " listening on port ") refl)
        (All-append (λ x. x ≢ 0) (digits 20 port) (codes "\n") (digits-Lacks 20 port)
          (contains-Lacks 0 (codes "\n") refl)))

info_text-Lacks : (d : ServiceObject) → Lacks 0 (info_text d)
unfolding info_text
info_text-Lacks (dispatcher d) =
    port_text-Lacks (codes "HA_proc_ace_accepotr") d.instance_data.port
      (contains-Lacks 0 (codes "HA_proc_ace_accepotr") refl)
info_text-Lacks (manager d) =
    port_text-Lacks (codes "HA_auth_mgr_acceptor") d.instance_data.port
      (contains-Lacks 0 (codes "HA_auth_mgr_acceptor") refl)
info_text-Lacks (bootstrap b) =
    port_text-Lacks (codes "HA_python_bootstrap") b.port
      (contains-Lacks 0 (codes "HA_python_bootstrap") refl)
info_text-Lacks ccifs = contains-Lacks 0 (codes "HA_ccifs initialized") refl

strncpy_whole :
    (str src : Text)
    → strncpy str src (length str) ≡ some (take (length str) (src ++ zeros (length str)))
unfolding strncpy
strncpy_whole str src =
    let e : ltb (length str) (length str) ≡ false = ground arith in
    rw (e, drop_all (length str) str (omega arith), append-nil) refl

measured_at : (s : Text) (o : Option ℕ) → strlen s ≡ o → measured (some s) ≡ with_length s o
measured_at s o e = rw e refl

strlen_padded : (s : Text) (k : ℕ) → Lacks 0 s → 0 < k → strlen (s ++ zeros k) ≡ some (length s)
unfolding strlen
strlen_padded s zero l h = absurd (omega arith)
strlen_padded s (suc k) l h = find_char-append 0 s (zeros k) l

module _ (str : Text) (d : ServiceObject) where
  fits :
      length (info_text d) < length str
      → info (some str) (length str) d
        ≡ some (info_text d ++ zeros (length str - length (info_text d)), length (info_text d))
  unfolding info
  fits h =
      rw
        (
          strncpy_whole str (info_text d),
          take-padded (length str) (length str) (info_text d) (omega arith) (omega arith),
        )
        (measured_at (info_text d ++ zeros (length str - length (info_text d)))
          (some (length (info_text d)))
          (strlen_padded (info_text d) (length str - length (info_text d)) (info_text-Lacks d)
            (omega arith)))

  cut : length str ≤ length (info_text d) → info (some str) (length str) d ≡ none
  unfolding info strlen
  cut h = rw (strncpy_whole str (info_text d)) (
      measured_at (take (length str) (info_text d ++ zeros (length str))) none (
        find_char-Lacks 0 (take (length str) (info_text d ++ zeros (length str)))
          (take_cut-Lacks (length str) (length str) (info_text d) h (info_text-Lacks d))))

-- `info` of each service writes its text into a caller's buffer and returns that text's length exactly if the buffer
-- is longer than the text. Where it is not, no NUL is written to it, and the length is looked for past its end.
pub info_fits :
    (str : Text) (d : ServiceObject)
    → info (some str) (length str) d ≡ (
        if ltb (length (info_text d)) (length str)
        then some
            (info_text d ++ replicate (length str - length (info_text d)) 0, length (info_text d))
        else none)
info_fits str d = elim (Bool-cases (ltb (length (info_text d)) (length str))) [
  | inl e ↦ rw e (fits str d (ground arith))
  | inr e ↦ rw e (cut str d (ground arith))
]
