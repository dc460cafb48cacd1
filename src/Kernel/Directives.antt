-- ===== src/Kernel/Directives.antt =====
-- What the kernel says of itself: the directives of include/cci_kernel_directives.h, the supported services of
-- include/cci_daemon_kernel.h, and the helpers of include/cci_shared_lib.h.
use cci_daemon.Base.{
  ℕ, Bool, true, false, Option, none, some, List, [], ◌∷◌, ◌++◌, if◌then◌else◌, Text, codes,
  Dictionary, find_key,
}
use cci_daemon.Daemonize.PidFile.{digits}

abbrev pub major_version : ℕ
major_version = 1

abbrev pub minor_version : ℕ
minor_version = 1

abbrev pub release_version : ℕ
release_version = 2

unfoldable pub version_string : Text
version_string =
    digits 20 major_version
    ++ codes "."
    ++ digits 20 minor_version
    ++ codes "."
    ++ digits 20 release_version

-- The names as the source spells them, in the order of `std::set`.
unfoldable pub kernel_strings : List Text
kernel_strings =
    codes "make_kernel"
    ∷ codes "mount_memroy_cache"
    ∷ codes "unmount_memory_cache"
    ∷ codes "unnmake_kernel"
    ∷ []

abbrev pub dict_supported : Dictionary Text
dict_supported = (codes "publish_subscribe", codes "{ \"moniker\" : \"publish_and_subscribe\"") ∷ []

abbrev pub is_found : Option Text → Bool
is_found none = false
is_found (some v) = true

-- That of the base kernel, and that of the kernel, which overrides it.
unfoldable pub base_supported_service : Text → Bool
base_supported_service key = is_found (find_key key dict_supported)

unfoldable pub supported_service : Text → Bool
supported_service key = false

-- `stats` is whether `stat` finds a file.
abbrev pub file_exists : (Text → Bool) → Text → Bool
file_exists stats file = stats file

abbrev pub ldd_moniker : Text
ldd_moniker = codes "ldd"

-- `none` is an assertion that fails.
unfoldable pub dependencies : (Text → Bool) → Text → Option Text
dependencies stats file_name = if file_exists stats ldd_moniker then some [] else none
