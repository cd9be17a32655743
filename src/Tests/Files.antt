-- ===== src/Tests/Files.antt =====
-- The IPv6 parameters of an interface, kept in files.
use Prim.Native.String.{◌++◌ as concat}
use corerad.Common.{
  ◌≡◌, ◌⊎◌, ◌↔◌, refl, Bool, true, false, String, [], ◌∷◌, Option, some, none, Result, ok, err,
  ◌==◌, string_eq, if◌then◌else◌, arith,
}
use corerad.System.Socket.{SetError, not_exist}
use corerad.System.State.{
  State, TestState, test_state, find_interface, test_autoconf, test_forwarding, test_set_autoconf,
}
use corerad.System.State.Sysctl.{
  get_ipv6_autoconf, set_ipv6_autoconf, sysctl, sysctl_bool, sysctl_enable, system_state,
}
use corerad.System.State.Autoconf.{bit, set_autoconf, restore, IsIgnored, restore-set_autoconf}

-- The files by their paths, with what a read shows; a path that none has does not exist.
abbrev Files : Type 0
Files = String → Option String

abbrev read_file : String → Files → Result SetError String
read_file file fs = elim (fs file) [ none ↦ err not_exist | some out ↦ ok out ]

abbrev write_file : String → String → Files → Option SetError × Files
write_file file content fs = elim (fs file) [
  | none ↦ (some not_exist, fs)
  | some out ↦ (none, λ other. if other == file then some (concat content "\n") else fs other)
]

abbrev conf : Files
conf file =
    if file == "/proc/sys/net/ipv6/conf/eth0/autoconf"
    then some "1\n"
    else if file == "/proc/sys/net/ipv6/conf/eth0/forwarding"
    then some "1\n"
    else none

abbrev disable : Option SetError × Files
disable = set_ipv6_autoconf read_file write_file "eth0" false conf

reads_disabled : get_ipv6_autoconf read_file write_file "eth0" disable.1 ≡ ok false
unfolding get_ipv6_autoconf set_ipv6_autoconf sysctl_bool sysctl_enable sysctl
reads_disabled = refl

reads_missing : get_ipv6_autoconf read_file write_file "eth1" conf ≡ err not_exist
unfolding get_ipv6_autoconf sysctl_bool sysctl
reads_missing = refl

-- The kernel takes the content to a file of autoconfiguration, and shows it with a newline.
shown :
    (b : Bool) (fs : Files)
    → (write_file (sysctl "eth0" "autoconf") (bit b) fs).0 ≡ none
    → read_file (sysctl "eth0" "autoconf") (write_file (sysctl "eth0" "autoconf") (bit b) fs).1
      ≡ ok (concat (bit b) "\n")
shown b fs h =
    ground (arith, (string_eq.beq_iff (sysctl "eth0" "autoconf") (sysctl "eth0" "autoconf")).1 refl)

refused :
    (b : Bool) (fs : Files) (e : SetError)
    → (write_file (sysctl "eth0" "autoconf") (bit b) fs).0 ≡ some e
    → read_file (sysctl "eth0" "autoconf") (write_file (sysctl "eth0" "autoconf") (bit b) fs).1
      ≡ read_file (sysctl "eth0" "autoconf") fs
refused b fs e h = ground arith

abbrev linux : State Files
linux = system_state read_file write_file

disabled : set_autoconf linux "eth0" conf ≡ (ok true, disable.1)
unfolding set_autoconf system_state get_ipv6_autoconf set_ipv6_autoconf sysctl_bool sysctl_enable
    sysctl
disabled = refl

restore-set_autoconf_example :
    (linux.ipv6_autoconf "eth0" conf ≡ ok true)
    × ((linux.ipv6_autoconf "eth0" (restore linux "eth0" true disable.1).1 ≡ ok true)
        ⊎ ((linux.set_ipv6_autoconf "eth0" false conf).0 ≡ none)
          × (linux.ipv6_autoconf "eth0" (restore linux "eth0" true disable.1).1 ≡ ok false)
          × (e : SetError) × ((linux.set_ipv6_autoconf "eth0" true disable.1).0 ≡ some e)
          × (((restore linux "eth0" true disable.1).0 ≡ none) ↔ IsIgnored e))
restore-set_autoconf_example =
    restore-set_autoconf read_file write_file "eth0" shown refused conf disable.1 disabled refl

abbrev two_states : TestState
two_states = record {
  autoconf = false;
  forwarding = true;
  error = none;
  interfaces = ("eth0", record { autoconf = true; forwarding = false }) ∷ [];
}

-- The state for tests prefers what is set for an interface, and setting it has no effect.
overrides : test_state.ipv6_autoconf "eth0" two_states ≡ ok true
unfolding test_state test_autoconf find_interface
overrides = refl

falls_back : test_state.ipv6_forwarding "eth1" two_states ≡ ok true
unfolding test_state test_forwarding find_interface
falls_back = refl

sets_nothing : test_state.set_ipv6_autoconf "eth0" false two_states ≡ (none, two_states)
unfolding test_state test_set_autoconf
sets_nothing = refl
