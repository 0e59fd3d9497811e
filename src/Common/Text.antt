-- ===== src/Common/Text.antt =====
-- Python's text methods, over the code points of a text.
use Prim.Native.Char.{code}
use Prim.Native.String.{String}
use gapforge.Common.{ℕ, Bool, true, false, ◌&&◌, ◌||◌, leb, nat_beq, ◌==◌, string_eq}

-- `str.isspace` of one character.
pub is_space : ℕ → Bool
is_space c =
    leb 9 c && leb c 13
    || leb 28 c && leb c 32
    || nat_beq c 133
    || nat_beq c 160
    || nat_beq c 5760
    || leb 8192 c && leb c 8202
    || nat_beq c 8232
    || nat_beq c 8233
    || nat_beq c 8239
    || nat_beq c 8287
    || nat_beq c 12288

-- `not s.strip()`
unfoldable pub is_blank : String → Bool
unfolding is_space
is_blank String.[] = true
is_blank (String.◌∷◌ c s) = is_space (code c) && is_blank s

-- `s.startswith(prefix)`
unfoldable pub starts_with : String → String → Bool
starts_with String.[] s = true
starts_with (String.◌∷◌ c p) String.[] = false
starts_with (String.◌∷◌ c p) (String.◌∷◌ d s) = nat_beq (code c) (code d) && starts_with p s

-- `part in s`
unfoldable pub contains : String → String → Bool
unfolding starts_with
contains part String.[] = starts_with part ""
contains part (String.◌∷◌ c s) = starts_with part (String.◌∷◌ c s) || contains part s

-- `s.endswith(suffix)`
unfoldable pub ends_with : String → String → Bool
ends_with suffix String.[] = suffix == ""
ends_with suffix (String.◌∷◌ c s) = suffix == (String.◌∷◌ c s) || ends_with suffix s
