-- ===== src/System/State/Autoconf.antt =====
-- Dialer.setAutoconf and the function restore that it returns (internal/system/dialer.go), with the
-- calls of the State that they make.
use Prim.Native.String.{◌++◌ as concat}
use corerad.Common.{
  ◌≡◌, ◌⊎◌, ◌↔◌, refl, Bool, true, false, String, Option, some, none, Result, ok, err, panic, ◌==◌,
  string_eq, if◌then◌else◌, inl, inr, arith, ap, ◌∙◌, Option-cases,
}
use corerad.System.{Error}
use corerad.System.Dialer.{DialError, other}
use corerad.System.Socket.{SetError, permission, not_exist, set_other}
use corerad.System.State.{State}
use corerad.System.State.Sysctl.{
  sysctl, sysctl_bool, sysctl_enable, get_ipv6_autoconf, set_ipv6_autoconf, system_state,
}

module _ {S : Type 0} (state : State S) (iface : String) where
  -- setAutoconf: the value for restore.
  unfoldable pub set_autoconf : S → Result DialError Bool × S
  set_autoconf s = elim (state.ipv6_autoconf iface s) [
    | err e ↦ (err (other "failed to get IPv6 autoconfiguration state"), s)
    | panic ↦ (panic, s)
    | ok prev ↦
        let (e, after) = state.set_ipv6_autoconf iface false s in
        elim e [
          | none ↦ (ok prev, after)
          | some permission ↦ (ok prev, after)
          | some not_exist ↦ (err (other "failed to disable IPv6 autoconfiguration"), after)
          | some (set_other x) ↦ (err (other "failed to disable IPv6 autoconfiguration"), after)
        ]
  ]

  unfoldable pub restore : Bool → S → Option Error × S
  restore prev s =
      let (e, after) = state.set_ipv6_autoconf iface prev s in
      elim e [
        | none ↦ (none, after)
        | some permission ↦ (none, after)
        | some not_exist ↦ (none, after)
        | some (set_other x) ↦ (some "failed to restore IPv6 autoconfiguration", after)
      ]

  set_autoconf-inv :
      (s : S) {prev : Bool} {after : S}
      → set_autoconf s ≡ (ok prev, after)
      → (state.ipv6_autoconf iface s ≡ ok prev)
        × (after ≡ (state.set_ipv6_autoconf iface false s).1)
        × (((state.set_ipv6_autoconf iface false s).0 ≡ none)
            ⊎ ((state.set_ipv6_autoconf iface false s).0 ≡ some permission))
  unfolding set_autoconf
  set_autoconf-inv s h = ground arith

-- The errors that restore takes for none.
abbrev pub IsIgnored : SetError → Type 0
IsIgnored e = (e ≡ permission) ⊎ (e ≡ not_exist)

module _ {S : Type 0} (state : State S) (iface : String) where
  restore_after :
      (prev : Bool) (s : S)
      → (restore state iface prev s).1 ≡ (state.set_ipv6_autoconf iface prev s).1
  unfolding restore
  restore_after prev s = ground arith

  restore_error :
      (prev : Bool) (s : S) (e : SetError)
      → (state.set_ipv6_autoconf iface prev s).0 ≡ some e
      → ((restore state iface prev s).0 ≡ none) ↔ IsIgnored e
  unfolding restore
  restore_error prev s permission h = rw (h, restore) (λ _. inl refl, λ _. refl)
  restore_error prev s not_exist h = rw (h, restore) (λ _. inr refl, λ _. refl)
  restore_error prev s (set_other x) h =
      rw (h, restore) (λ n. absurd cc, elim [ inl q ↦ absurd cc | inr q ↦ absurd cc ])

-- What is written to a file for a value.
abbrev pub bit : Bool → String
bit b = if b then "1" else "0"

newline_lem : (b : Bool) → (concat (bit b) "\n" == "1\n") ≡ b
newline_lem true = refl
newline_lem false = refl

module _ {F : Type 0} (read_file : String → F → Result SetError String)
    (write_file : String → String → F → Option SetError × F) (iface : String) where
  abbrev linux : State F
  linux = system_state read_file write_file

  abbrev file : String
  file = sysctl iface "autoconf"

  -- The kernel documents the file of autoconfiguration as a flag: it shows the number that was
  -- written, and a newline. A write that it refuses has no effect.
  module _
      (shown : (b : Bool) (fs : F)
        → (write_file file (bit b) fs).0 ≡ none
        → read_file file (write_file file (bit b) fs).1 ≡ ok (concat (bit b) "\n"))
      (refused : (b : Bool) (fs : F) (e : SetError)
        → (write_file file (bit b) fs).0 ≡ some e
        → read_file file (write_file file (bit b) fs).1 ≡ read_file file fs) where
    reads_set :
        (b : Bool) (fs : F)
        → (linux.set_ipv6_autoconf iface b fs).0 ≡ none
        → linux.ipv6_autoconf iface (linux.set_ipv6_autoconf iface b fs).1 ≡ ok b
    unfolding system_state get_ipv6_autoconf set_ipv6_autoconf sysctl_bool sysctl_enable
    reads_set b fs h = rw (shown b fs h) (rw (newline_lem b) refl)

    reads_same :
        (fs later : F)
        → read_file file later ≡ read_file file fs
        → linux.ipv6_autoconf iface later ≡ linux.ipv6_autoconf iface fs
    unfolding system_state get_ipv6_autoconf sysctl_bool
    reads_same fs later h = rw h refl

    reads_refused :
        (b : Bool) (fs : F) (e : SetError)
        → (linux.set_ipv6_autoconf iface b fs).0 ≡ some e
        → linux.ipv6_autoconf iface (linux.set_ipv6_autoconf iface b fs).1
          ≡ linux.ipv6_autoconf iface fs
    unfolding system_state set_ipv6_autoconf sysctl_enable
    reads_refused b fs e h = reads_same fs _ (refused b fs e h)

    -- For a file of autoconfiguration that shows what was last written to it, where setAutoconf
    -- returns no error and nobody else changes that file before restore: setAutoconf has read the
    -- state of the interface, and after restore the interface is in this state again, unless the
    -- state was disabled and the write of restore was refused. Then it stays disabled, and restore
    -- returns no error just where the refusal was for lack of permission or of the file.
    pub restore-set_autoconf :
        (fs later : F) {prev : Bool} {after : F}
        → set_autoconf linux iface fs ≡ (ok prev, after)
        → read_file file later ≡ read_file file after
        → (linux.ipv6_autoconf iface fs ≡ ok prev)
          × ((linux.ipv6_autoconf iface (restore linux iface prev later).1 ≡ ok prev)
              ⊎ ((linux.set_ipv6_autoconf iface false fs).0 ≡ none)
                × (linux.ipv6_autoconf iface (restore linux iface prev later).1 ≡ ok false)
                × (e : SetError) × ((linux.set_ipv6_autoconf iface prev later).0 ≡ some e)
                × (((restore linux iface prev later).0 ≡ none) ↔ IsIgnored e))
    restore-set_autoconf fs later {prev} {after} h same =
        let (was, e, refusal) = set_autoconf-inv linux iface fs h in
        let later_reads : linux.ipv6_autoconf iface later
            ≡ linux.ipv6_autoconf iface (linux.set_ipv6_autoconf iface false fs).1 =
          reads_same after later same ∙ ap (linux.ipv6_autoconf iface) e in
        (
          was,
          rw (restore_after linux iface prev later)
              (elim (Option-cases (linux.set_ipv6_autoconf iface prev later).0) [
                | inl q ↦ inl (reads_set prev later q)
                | inr (x, q) ↦
                    let kept = reads_refused prev later x q ∙ later_reads in
                    elim refusal [
                      | inl z ↦ inr (
                        z,
                        kept ∙ reads_set false fs z,
                        x,
                        q,
                        restore_error linux iface prev later x q,
                      )
                      | inr z ↦ inl (kept ∙ reads_refused false fs permission z ∙ was)
                    ]
              ]),
        )
