-- ===== src/Manager/Strings.antt =====
-- The string utilities and the enumerations of cci_daemon/src/manager (auth_mgr_handler.cpp, include/auth_ace_manager.h) that
-- are those of the dispatch daemon under other names.
use cci_daemon.Base.{Text}
use cci_daemon.Handler.State.{PacketError}
use cci_daemon.Handler.Strings
use cci_daemon.Handler.Protocol.{PacketPart}
use cci_daemon.Handler.Lifecycle.{Concurrency}

abbrev pub AuthPacketError : Type 0
AuthPacketError = PacketError

abbrev pub AuthPacketPart : Type 0
AuthPacketPart = PacketPart

abbrev pub AuthConcurrency : Type 0
AuthConcurrency = Concurrency

abbrev pub chomp : Text → Text → Text
chomp str token = Strings.chomp str token

abbrev pub lcase : Text → Text
lcase str = Strings.lcase str

abbrev pub rtrimlast : Text → Text → Text
rtrimlast str token = Strings.rtrimlast str token
