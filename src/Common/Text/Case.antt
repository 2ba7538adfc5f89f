-- ===== src/Common/Text/Case.antt =====
-- `to_ascii_lowercase` and `eq_ignore_ascii_case`.
use bo_srv_rs.Common.{ℕ, ◌+◌, Bool, ◌&&◌, map, leb, if◌then◌else◌}
use bo_srv_rs.Common.Text.Decimal.{Text}
use bo_srv_rs.Common.Text.Order.{text_eq}

abbrev pub lower : ℕ → ℕ
lower c = if leb b'A' c && leb c b'Z' then c + 32 else c

abbrev pub to_ascii_lowercase : Text → Text
to_ascii_lowercase = map lower

unfoldable pub eq_ignore_ascii_case : Text → Text → Bool
unfolding text_eq
eq_ignore_ascii_case a b = text_eq (to_ascii_lowercase a) (to_ascii_lowercase b)
