-- ===== src/Strconv.antt =====
-- The parts of Go's `strconv`, `strings` and `fmt` that the envelope headers use: `%d`,
-- `strconv.ParseInt(_, 10, 64)`, `strconv.Atoi`, `strings.TrimSpace` and `strings.Split` at a newline.
mod Decimal
mod Lines
mod Roundtrip
mod Spaces
pub use Decimal.{max_int64, value}
unfoldable pub use Decimal.{format_ℕ, format_int, parse_digits, parse_int}
unfoldable pub use Lines.{split_lines, cut_blank_line, newline}
unfoldable pub use Spaces.{trim_left, trim_space}
pub use Spaces.{
  is_space, IsSolid, IsTrimmed, trim_space-IsTrimmed, IsTrimmed-around, IsSolid-IsTrimmed,
}
pub use Lines.{
  IsSolid-IsLine, IsLine, prepend, split_lines-IsLine, split_lines_two, cut_blank_line-skip,
  cut_blank_line-last, cut_blank_line-ne-none,
}
pub use Roundtrip.{parse_int-format_int, format_int-IsLine, format_int_bytes, trim_space-format_int}
