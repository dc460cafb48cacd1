-- ===== src/Kernel/Plugins.antt =====
-- What loading and unloading do to the kernel's dictionary of plugins.
use cci_daemon.Kernel.{Kernel}
