-- ===== src/Plugin.antt =====
-- internal/plugin/plugin.go: the parts of a router advertisement that an interface is configured
-- with. `Types` has the plugins as data, `Apply` what each adds to an advertisement, and `Text` the
-- methods Name and String; the other children have one plugin's computation each.
pub mod Types
pub mod Lifetimes
pub mod Prefixes
pub mod Routes
pub mod Rdnss
pub mod Pref64
pub mod Apply
pub mod Text
