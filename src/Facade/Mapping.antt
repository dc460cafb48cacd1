-- ===== src/Facade/Mapping.antt =====
-- What mapping the kernel and bootstrapping leave behind.
use cci_daemon.Base.{◌≡◌, ◌≢◌, refl, arith, Bool, Option, none, some, Text, codes, List, ℕ, []}
use cci_daemon.Kernel.{Symbol, missing, null, address}
use cci_daemon.Kernel.Context.{
  Heap, KernelContext, make_kernel, unmake_kernel, kernel_instance, dispose_instance, IsSingle,
  owned,
}
use cci_daemon.Facade.{
  Ending, done, thrown, thrown_other, exited, throws_other, KernelLib, BootstrapLib, Facade,
  log_message, get_function_pointer, clear_pm, call_make, make_kernel_at, check_kernel_ref,
  keep_unmake, map_lib, map_kernel, set_lib_ref, bind_ending, check_ref, map_ref, destruct, unmake,
}

-- There is a kernel, and the function to give it back.
pub record Mapped (f : Facade) : Type 0 where
  pub kernel : f.context.kernel_ref ≢ none
  pub unmake : f.unmake_kernel ≢ none

-- The outcomes of a computation that may leave the kernel mapped.
pub data Maps : Facade × Ending (Unit {0}) → Type 0 where
  mapped : (f : Facade) → Mapped f → Maps (f, done tt)
  raised : (f : Facade) (what : Text) → Maps (f, thrown what)

-- From the look-up of `unmake_kernel` on.
keep-Maps :
    (f : Facade) (s : Symbol (Heap → KernelContext → Heap))
    → f.context.kernel_ref ≢ none
    → Maps (
        bind_ending (get_function_pointer s f) (λ u g. bind_ending (keep_unmake u g) (λ x h.
          bind_ending (log_message (codes "...mapped_kernel....") h) (λ b i. (i, done tt)))))
unfolding get_function_pointer keep_unmake log_message
keep-Maps f missing k = raised _ _
keep-Maps f null k = raised _ _
keep-Maps f (address u) k = mapped _ (record { kernel = k; unmake = λ e. cc })

map_lib-Maps :
    (f : Facade) (m : Symbol (Heap → KernelContext → Heap × KernelContext))
    (s : Symbol (Heap → KernelContext → Heap))
    → let lib : KernelLib = record { make_kernel = m; unmake_kernel = s } in Maps (map_lib lib f)
unfolding map_lib make_kernel_at check_kernel_ref get_function_pointer
map_lib-Maps f missing s = raised _ _
map_lib-Maps f null s = raised _ _
map_lib-Maps f (address make) s = go _ refl
  where
    after : Facade
    after = (call_make make (clear_pm f).0).0

    go :
        (o : Option ℕ)
        → after.context.kernel_ref ≡ o
        → Maps (
            bind_ending (check_ref o after) (λ x g. bind_ending (clear_pm g) (λ y h.
              bind_ending (get_function_pointer s h) (λ u i. bind_ending (keep_unmake u i) (λ z j.
                bind_ending
                  (log_message (codes "...mapped_kernel....") j)
                  (λ b k. (k, done tt)))))))
    go none e = raised _ _
    go (some r) e = keep-Maps _ s (λ q. cc)

-- Mapping the kernel either leaves a kernel and the function to give it back, or throws: it uses no null
-- pointer and does not end the process.
pub map_kernel-Maps : (f : Facade) → Maps (map_kernel f)
unfolding map_kernel
map_kernel-Maps f = go f.lib_ref
  where
    go : (o : Option KernelLib) → Maps (map_ref o f)
    go none = raised _ _
    go (some lib) = map_lib-Maps f lib.make_kernel lib.unmake_kernel

-- Opening the log ends well, or the process exits with 1.
data Opens : Facade × Ending (Unit {0}) → Type 0 where
  opens : (f : Facade) → Opens (f, done tt)
  left : (f : Facade) → Opens (f, exited 1)

-- The library that is opened has a coordinator's function that throws an object which is no `std::runtime_error`.
pub record Throws (o : Option BootstrapLib) (is_exception : Bool) : Type 0 where
  pub lib : BootstrapLib
  pub opened : o ≡ some lib
  pub throws_it : lib.bootstrap_default_coordinator ≡ address (throws_other is_exception)

-- The outcomes of loading the coordinator from what there is to be opened.
data Loads (o : Option BootstrapLib) : Facade × Ending (Unit {0}) → Type 0 where
  loaded : (f : Facade) → Mapped f → Loads o (f, done tt)
  failed : (f : Facade) (what : Text) → Loads o (f, thrown what)
  other :
      (f : Facade) (is_exception : Bool)
      → Mapped f
      → Throws o is_exception
      → Loads o (f, thrown_other is_exception)

-- How `bootstrap_coordinator` may end, with the library of the coordinator that there is to be opened.
pub data Boots (o : Option BootstrapLib) : Facade × Ending (Unit {0}) → Type 0 where
  booted : (f : Facade) → Mapped f → Boots o (f, done tt)
  gone : (f : Facade) → Boots o (f, exited 1)
  passed_on :
      (f : Facade) (is_exception : Bool)
      → Mapped f
      → Throws o is_exception
      → Boots o (f, thrown_other is_exception)

-- The kernel's library as the repository builds it.
abbrev pub kernel_lib : KernelLib
kernel_lib = record {
  make_kernel = address (λ h c. ((make_kernel h c).0, (make_kernel h c).1));
  unmake_kernel = address (λ h c. (unmake_kernel h c).0);
}

-- With the repository's kernel library mapping succeeds, and destroying the facade then deletes the
-- kernel: none is alive, provided at most the instance was before.
pub destruct-map_kernel :
    (f : Facade)
    → IsSingle f.heap
    → ((map_kernel (set_lib_ref kernel_lib f).0).1 ≡ done tt)
      × ((destruct (map_kernel (set_lib_ref kernel_lib f).0).0).0.heap.live ≡ [])
unfolding map_kernel map_lib make_kernel_at check_kernel_ref get_function_pointer keep_unmake
    log_message destruct unmake make_kernel kernel_instance unmake_kernel dispose_instance
destruct-map_kernel f s = go f.heap.instance_ptr f.heap.fresh f.heap.live s
  where
    go :
        (i : Option ℕ) (n : ℕ) (l : List ℕ)
        → l ≡ owned i
        → let heap : Heap = record { instance_ptr = i; fresh = n; live = l } in
          let g : Facade = record f { heap = heap } in
          ((map_kernel (set_lib_ref kernel_lib g).0).1 ≡ done tt)
          × ((destruct (map_kernel (set_lib_ref kernel_lib g).0).0).0.heap.live ≡ [])
    go none n l e = (refl, rw e (ground arith))
    go (some r) n l e = (refl, rw e (ground arith))

-- Destroying a facade whose kernel is the repository's comes to its end.
pub destruct-map_kernel_done :
    (f : Facade) → (destruct (map_kernel (set_lib_ref kernel_lib f).0).0).1 ≡ done tt
unfolding map_kernel map_lib make_kernel_at check_kernel_ref get_function_pointer keep_unmake
    log_message destruct unmake make_kernel kernel_instance unmake_kernel dispose_instance
destruct-map_kernel_done f = refl
