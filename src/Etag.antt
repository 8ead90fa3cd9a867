-- ===== src/Etag.antt =====
-- crates/storage/src/etag.rs: the hash of a body as lower-case hexadecimal digits.
use mathlib.Core.List.{flat_map}
use ferrobucket.Base.{ℕ, ◌+◌, ◌-◌, ◌/◌, ◌%◌, [], ◌∷◌, ltb, if◌then◌else◌}
use ferrobucket.Base.Text.{Bytes}
use ferrobucket.Host.{Md5}

unfoldable pub hex_lower : ℕ → ℕ
hex_lower n = if ltb n 10 then n + b'0' else n - 10 + b'a'

-- `format!("{:02x}", b)`
unfoldable pub hex_byte : ℕ → Bytes
unfolding hex_lower
hex_byte b = hex_lower (b / 16) ∷ hex_lower (b % 16) ∷ []

module _ {H : Type 0} (md5 : Md5 H) where
  unfoldable pub new : H
  new = md5.new

  unfoldable pub update : H → Bytes → H
  update h bytes = md5.update h bytes

  unfoldable pub finalize : H → Bytes
  unfolding hex_byte
  finalize h = flat_map hex_byte (md5.finalize h)
