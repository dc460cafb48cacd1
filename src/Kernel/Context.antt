-- ===== src/Kernel/Context.antt =====
-- The kernel singleton of include/cci_daemon_kernel.h, and `make_kernel` and `unmake_kernel` on the
-- `kernel_context` of a client. Kernels are known by the address that `new` gave; the lock of `instance` is
-- not modelled, since each call here runs alone.
use cci_daemon.Base.{
  ℕ, suc, ◌≡◌, refl, ap, Option, none, some, List, [], ◌∷◌, Text, Dictionary, ◌==◌, if◌then◌else◌,
}

pub record Heap : Type 0 where
  pub instance_ptr : Option ℕ
  pub fresh : ℕ
  pub live : List ℕ

abbrev pub get_instance : Option ℕ → Heap → Heap × ℕ
get_instance (some r) h = (h, r)
get_instance none h = (
  record h { instance_ptr = some h.fresh; fresh = suc h.fresh; live = h.fresh ∷ h.live },
  h.fresh,
)

unfoldable pub kernel_instance : Heap → Heap × ℕ
kernel_instance h = get_instance h.instance_ptr h

abbrev pub free : ℕ → List ℕ → List ℕ
free r [] = []
free r (x ∷ xs) = let rest = free r xs in if r == x then rest else x ∷ rest

abbrev pub delete : Option ℕ → List ℕ → List ℕ
delete none live = live
delete (some r) live = free r live

unfoldable pub dispose_instance : Heap → Heap
dispose_instance h = record h { instance_ptr = none; live = delete h.instance_ptr h.live }

pub record KernelContext : Type 0 where
  pub pm : Dictionary Text
  pub kernel_ref : Option ℕ

unfoldable pub make_kernel : Heap → KernelContext → Heap × KernelContext × ℕ
make_kernel h c = ((kernel_instance h).0, record c { kernel_ref = some (kernel_instance h).1 }, 0)

unfoldable pub unmake_kernel : Heap → KernelContext → Heap × ℕ
unmake_kernel h c = elim c.kernel_ref [ none ↦ (h, 0) | some r ↦ (dispose_instance h, 0) ]

-- The one live kernel is the instance.
abbrev pub owned : Option ℕ → List ℕ
owned none = []
owned (some r) = r ∷ []

abbrev pub IsSingle : Heap → Type 0
IsSingle h = h.live ≡ owned h.instance_ptr

-- Making a kernel keeps at most one alive, gives it to the client, and leaves an existing one in place.
pub make_kernel-IsSingle :
    (h : Heap) (c : KernelContext)
    → IsSingle h
    → IsSingle (make_kernel h c).0
      × ((make_kernel h c).1.kernel_ref ≡ (make_kernel h c).0.instance_ptr)
      × (make_kernel (make_kernel h c).0 c ≡ make_kernel h c)
unfolding make_kernel kernel_instance
make_kernel-IsSingle h c s = go h.instance_ptr h.fresh h.live s
  where
    go :
        (i : Option ℕ) (n : ℕ) (l : List ℕ)
        → l ≡ owned i
        → let g : Heap = record { instance_ptr = i; fresh = n; live = l } in
          IsSingle (make_kernel g c).0
          × ((make_kernel g c).1.kernel_ref ≡ (make_kernel g c).0.instance_ptr)
          × (make_kernel (make_kernel g c).0 c ≡ make_kernel g c)
    go none n l e = (ap (◌∷◌ n) e, refl, refl)
    go (some r) n l e = (e, refl, refl)
