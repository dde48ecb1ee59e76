-- ===== src/Text/Substring/Trim.antt =====
-- ltrim, rtrim and trim of `substring`.
pub mod Loops
pub mod Laws
use project_mediaswitch.Base.{
  ℕ, zero, suc, ◌+◌, ◌-◌, Bool, ◌||◌, Bytes, Option, none, some, get_elem?, length, ltb, ◌==◌,
  if◌then◌else◌, ◌>>=◌,
}
use project_mediaswitch.Text.Substring.{Substring, of_range, copy}

unfoldable pub is_space : ℕ → Bool
is_space c = c == b' ' || c == b'\t' || c == b'\r' || c == b'\n'

-- A read through a `char *` into the buffer: the NUL behind the text may be read too.
unfoldable pub read : Bytes → ℕ → Option ℕ
read text i =
    if ltb i (length text) then get_elem? text i else if i == length text then some 0 else none

-- The loop of ltrim over the positions left; its value is the new start.
unfoldable pub ltrim_loop : Bytes → ℕ → ℕ → Option ℕ
unfolding read is_space
ltrim_loop text i zero = some i
ltrim_loop text i (suc left) =
    read text i >>= λ c. let on = ltrim_loop text (i + 1) left in if is_space c then on else some i

unfoldable pub ltrim : Substring → Option Substring
unfolding ltrim_loop
ltrim s = s.buffer >>= λ text.
    ltrim_loop text s.startpos (s.endpos - s.startpos) >>= λ i. some (of_range s.buffer i s.endpos)

-- The loop of rtrim: `behind` is the index behind the one that `c` points to, and 0 when `c` has
-- left the buffer. A NUL moves `c` alone, so that `i` falls behind it.
unfoldable pub rtrim_loop : Bytes → ℕ → ℕ → ℕ → Option ℕ
unfolding read is_space
rtrim_loop text start zero i = if ltb start i then none else some i
rtrim_loop text start (suc at) i =
    let skip = rtrim_loop text start at i in
    let drop_one = rtrim_loop text start at (i - 1) in
    let body : Option ℕ =
      read text at >>= λ c. if c == 0 then skip else if is_space c then drop_one else some i in
    if ltb start i then body else some i

unfoldable pub rtrim : Substring → Option Substring
unfolding rtrim_loop
rtrim s =
    let trimmed : Option Substring = s.buffer >>= λ text.
    rtrim_loop text s.startpos s.endpos s.endpos >>= λ i. some (of_range s.buffer s.startpos i) in
    if s.endpos == 0 then some (copy s) else trimmed

unfoldable pub trim : Substring → Option Substring
unfolding ltrim rtrim
trim s = ltrim s >>= rtrim
