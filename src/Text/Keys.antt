-- ===== src/Text/Keys.antt =====
-- The parts of a key `kid|context|stat` can be read back where they hold no bar.
use Prim.Native.Char.{Char}
use Prim.Native.String.{String}
use text.Mathlib.TextLemmas.{nil-append, cons-append}
use aaai.Prelude.{◌≡◌, true, false, arith}
use aaai.Text.{has_bar, before_bar, after_last_bar, text_append}

abbrev bar : Char
bar = "|"

-- The separator in front of a text.
bar-append : (rest : String) → text_append "|" rest ≡ String.◌∷◌ bar rest
bar-append rest = rw cons-append (rw nil-append)

pub before_bar-append :
    (k rest : String) → has_bar k ≡ false → before_bar (text_append k (text_append "|" rest)) ≡ k
unfolding has_bar before_bar
before_bar-append String.[] rest h = rw (nil-append, bar-append)
before_bar-append (String.◌∷◌ c k) rest h =
    simp cons-append (ground (arith, before_bar-append k rest))

pub has_bar-append : (k rest : String) → has_bar (text_append k (text_append "|" rest)) ≡ true
unfolding has_bar
has_bar-append String.[] rest = rw (nil-append, bar-append)
has_bar-append (String.◌∷◌ c k) rest = simp cons-append (ground (arith, has_bar-append k rest))

pub after_last_bar-append :
    (k rest : String)
    → has_bar rest ≡ false
    → after_last_bar (text_append k (text_append "|" rest)) ≡ rest
unfolding after_last_bar
after_last_bar-append String.[] rest h = rw (nil-append, bar-append, h)
after_last_bar-append (String.◌∷◌ c k) rest h =
    simp cons-append (rw (has_bar-append k rest) (after_last_bar-append k rest h))

pub after_last_bar-skip :
    (k rest : String)
    → has_bar rest ≡ true
    → after_last_bar (text_append k (text_append "|" rest)) ≡ after_last_bar rest
unfolding after_last_bar
after_last_bar-skip String.[] rest h = rw (nil-append, bar-append, h)
after_last_bar-skip (String.◌∷◌ c k) rest h =
    simp cons-append (rw (has_bar-append k rest) (after_last_bar-skip k rest h))
