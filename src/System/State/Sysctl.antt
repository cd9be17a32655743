-- ===== src/System/State/Sysctl.antt =====
-- The State of a Linux system (internal/system/interface_linux.go): files below /proc/sys.
use Prim.Native.String.{◌++◌ as concat}
use corerad.Common.{Bool, String, Option, Result, ok, ◌>>=◌, ◌==◌, string_eq, if◌then◌else◌}
use corerad.System.Socket.{SetError}
use corerad.System.State.{State}

-- The text of the path. The names of interfaces have no slash and are not "." or "..", so that
-- filepath.Join has nothing to clean.
unfoldable pub sysctl : String → String → String
sysctl iface key = concat "/proc/sys/net/ipv6/conf/" (concat iface (concat "/" key))

-- os.ReadFile and os.WriteFile, over the files that they read and change.
module _ {F : Type 0} (read_file : String → F → Result SetError String)
    (write_file : String → String → F → Option SetError × F) where
  unfoldable pub sysctl_bool : String → F → Result SetError Bool
  sysctl_bool file fs = do out ← read_file file fs; ok (out == "1\n")

  unfoldable pub sysctl_enable : String → String → Bool → F → Option SetError × F
  sysctl_enable iface key enable fs = write_file (sysctl iface key) (if enable then "1" else "0") fs

  unfoldable pub get_ipv6_autoconf : String → F → Result SetError Bool
  get_ipv6_autoconf iface fs = sysctl_bool (sysctl iface "autoconf") fs

  unfoldable pub get_ipv6_forwarding : String → F → Result SetError Bool
  get_ipv6_forwarding iface fs = sysctl_bool (sysctl iface "forwarding") fs

  unfoldable pub set_ipv6_autoconf : String → Bool → F → Option SetError × F
  set_ipv6_autoconf iface enable fs = sysctl_enable iface "autoconf" enable fs

  -- NewState.
  unfoldable pub system_state : State F
  system_state = record {
    ipv6_autoconf = get_ipv6_autoconf;
    ipv6_forwarding = get_ipv6_forwarding;
    set_ipv6_autoconf = set_ipv6_autoconf;
  }
