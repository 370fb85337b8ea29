-- ===== src/Stat/Exec.antt =====
-- The test of winsup/stat.c for the name of a program, by a hash of the last three bytes.
pub mod Laws
mod Tests
use magiskboot_build.Prelude.{
  ℕ, ◌+◌, ◌-◌, ◌*◌, ◌==◌, leb, ltb, Bool, true, false, ◌&&◌, ◌||◌, length, get_or, bit_or,
  if◌then◌else◌,
}
use magiskboot_build.Win.Api.{Str}

-- `(a << 2) | (b << 1) | c`
unfoldable pub suffix_hash : ℕ → ℕ → ℕ → ℕ
suffix_hash a b c = bit_or (bit_or (a * 4) (b * 2)) c

-- The macros `EXE_SUFFIX`, `BAT_SUFFIX`, `CMD_SUFFIX` and `COM_SUFFIX`.
unfoldable pub is_exec_hash : ℕ → Bool
unfolding suffix_hash
is_exec_hash ext =
    (ext == suffix_hash b'e' b'x' b'e')
    || (ext == suffix_hash b'b' b'a' b't')
    || (ext == suffix_hash b'c' b'm' b'd')
    || (ext == suffix_hash b'c' b'o' b'm')

-- The comparisons of `ext`. A `char` is signed: a byte from 0x80 on is negative, so that `ext` is
-- negative too and is no suffix's.
unfoldable pub is_exec_suffix : (a b c : ℕ) → Bool
is_exec_suffix a b c = ltb a 0x80 && ltb b 0x80 && ltb c 0x80 && is_exec_hash (suffix_hash a b c)

-- `tolower` of the C locale.
abbrev pub tolower : ℕ → ℕ
tolower c = if leb b'A' c && leb c b'Z' then c + 32 else c

unfoldable pub is_program : Str → Bool
unfolding is_exec_suffix
is_program path =
    let n = length path in
    leb 4 n
    && (get_or path (n - 4) 0 == b'.')
    && is_exec_suffix (tolower (get_or path (n - 3) 0)) (tolower (get_or path (n - 2) 0))
        (tolower (get_or path (n - 1) 0))
