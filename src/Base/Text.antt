-- ===== src/Base/Text.antt =====
-- Prefixes of texts.
use Prim.Native.String.{String, ◌++◌, slice, len}
use mathlib.Core.Path.{◌≡◌, ap}
use mathlib.Core.Option.{Option, none, some}
use text.Mathlib.Text.{starts_with}
use text.Mathlib.TextPositions.{starts_with-append, slice-append_right, len-append}
use icn_v.Base.Num.{if◌then◌else◌}

-- `if s.starts_with(p) { Some(&s[p.len()..]) } else { None }`
unfoldable pub strip_prefix : String → String → Option String
strip_prefix p s = if starts_with s p then some (slice s (len p) (len s)) else none

pub strip_prefix-append : (p s : String) → strip_prefix p (p ++ s) ≡ some s
unfolding strip_prefix
strip_prefix-append p s =
    rw (starts_with-append p s, len-append p s) (ap some (slice-append_right p s))
