-- ===== src/Trace/Walk.antt =====
-- The walk along the frame pointers.
use cci_daemon.Base.{
  ℕ, zero, suc, ◌+◌, ◌≡◌, ◌≢◌, ◌<◌, ◌≤◌, refl, true, false, Option, none, some, List, [], ◌∷◌, ◌++◌,
  arith, ◌==◌, Text, codes, Bool-cases, ==_iff, inl, inr,
}
use cci_daemon.Trace.{print_frame, found_name, walk_frames, print_walk_backtrace}

-- A stack that grows towards lower addresses: what stands at a frame's place, unless it is null, is the place of
-- a frame that lies above it, and below the stack's end.
pub record IsStack (memory : ℕ → ℕ) (top : ℕ) (IsFrame : ℕ → Type 0) : Type 0 where
  pub links : (p : ℕ) → IsFrame p → memory p ≢ 0 → IsFrame (memory p)
  pub above : (p : ℕ) → IsFrame p → memory p ≢ 0 → p < memory p
  pub within : (p : ℕ) → IsFrame p → memory p ≢ 0 → memory p ≤ top

-- The frame pointers from `ebp` up to the null pointer.
abbrev pub Chain : (ℕ → ℕ) → ℕ → List ℕ → Type 0
Chain memory ebp [] = memory ebp ≡ 0
Chain memory ebp (next ∷ frames) = (memory ebp ≡ next) × (next ≢ 0) × Chain memory next frames

abbrev pub or_else : Option Text → Text → Text
or_else none other = other
or_else (some name) other = name

-- The name for a frame: what `dladdr` last found, of the return addresses up to that frame's, or else what there was
-- to begin with.
abbrev pub last_found : (ℕ → Option Text) → Text → List ℕ → Text
last_found dladdr first [] = first
last_found dladdr first (ret ∷ earlier) = or_else (dladdr ret) (last_found dladdr first earlier)

-- `earlier` has the return addresses of the frames before, the latest first.
abbrev pub frames_text : (ℕ → ℕ) → (ℕ → Option Text) → Text → ℕ → List ℕ → ℕ → List ℕ → Text
frames_text memory dladdr first frame earlier ebp [] = []
frames_text memory dladdr first frame earlier ebp (next ∷ frames) =
    print_frame frame next (memory (ebp + 8)) (last_found dladdr first (memory (ebp + 8) ∷ earlier))
    ++ frames_text memory dladdr first (frame + 1) (memory (ebp + 8) ∷ earlier) next frames

module _ (memory : ℕ → ℕ) (dladdr : ℕ → Option Text) (first : Text) where
  abbrev Walked : ℕ → ℕ → List ℕ → ℕ → Type 0
  Walked fuel frame earlier ebp =
      (frames : List ℕ) × Chain memory ebp frames
      × (walk_frames memory dladdr fuel frame (last_found dladdr first earlier) ebp
          ≡ some (frames_text memory dladdr first frame earlier ebp frames))

  walk_stop :
      (fuel frame : ℕ) (earlier : List ℕ) (ebp : ℕ)
      → (memory ebp == 0) ≡ true
      → Walked (suc fuel) frame earlier ebp
  unfolding walk_frames
  walk_stop fuel frame earlier ebp e = ([], (==_iff (memory ebp) 0).0 e, rw e refl)

  walk_on :
      (fuel frame : ℕ) (earlier : List ℕ) (ebp : ℕ)
      → (memory ebp == 0) ≡ false
      → Walked fuel (frame + 1) (memory (ebp + 8) ∷ earlier) (memory ebp)
      → Walked (suc fuel) frame earlier ebp
  unfolding walk_frames found_name
  walk_on fuel frame earlier ebp e (frames, c, w) =
      (memory ebp ∷ frames, (refl, ground arith, c), rw (e, w) refl)

  walk_frames-Walked :
      (top fuel frame : ℕ) (earlier : List ℕ) (ebp : ℕ) (IsFrame : ℕ → Type 0)
      → IsStack memory top IsFrame
      → IsFrame ebp
      → ebp ≤ top
      → top < ebp + fuel
      → Walked fuel frame earlier ebp
  walk_frames-Walked top zero frame earlier ebp IsFrame s i b h = absurd (omega arith)
  walk_frames-Walked top (suc fuel) frame earlier ebp IsFrame s i b h =
      elim (Bool-cases (memory ebp == 0)) [
        | inl e ↦ walk_stop fuel frame earlier ebp e
        | inr e ↦
            let n : memory ebp ≢ 0 = ground arith in
            walk_on fuel frame earlier ebp e (
              walk_frames-Walked top fuel (frame + 1) (memory (ebp + 8) ∷ earlier) (memory ebp)
                IsFrame s (s.links ebp i n) (s.within ebp i n) (omega (arith, s.above ebp i n)))
      ]

-- From a frame of a stack whose frames are linked upwards and lie within it, whatever else it holds,
-- `print_walk_backtrace` ends, within as many rounds as the stack has bytes above the first pointer and one more: it
-- prints each frame up to the null pointer, numbered from 0, with the frame pointer that is stored there, the return
-- address beside it, and the name that `dladdr` last found: that address's own, or where it fails, that of the
-- nearest frame before for which it did not, and where there is none, what the variable that nothing initialises
-- held.
pub print_walk_backtrace-Chain :
    (memory : ℕ → ℕ) (dladdr : ℕ → Option Text) (dli_sname : Text) (top fuel ebp : ℕ)
    (IsFrame : ℕ → Type 0)
    → IsStack memory top IsFrame
    → IsFrame ebp
    → ebp ≤ top
    → top < ebp + fuel
    → (frames : List ℕ) × Chain memory ebp frames
      × (print_walk_backtrace memory dladdr dli_sname fuel ebp
          ≡ some (
              codes "stack backtrace walk: \n"
              ++ frames_text memory dladdr dli_sname 0 [] ebp frames))
unfolding print_walk_backtrace
print_walk_backtrace-Chain memory dladdr dli_sname top fuel ebp IsFrame s i b h =
    let (frames, c, w) =
      walk_frames-Walked memory dladdr dli_sname top fuel 0 [] ebp IsFrame s i b h in
    (frames, c, rw (w, print_walk_backtrace) refl)
