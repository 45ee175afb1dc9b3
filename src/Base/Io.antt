-- ===== src/Base/Io.antt =====
-- io.ReadFull over a connection that still delivers the given bytes and then ends.
use Prim.Native.Nat.{◌<◌, ℕ}
use revese_server.Base.{◌<◌}
use mathlib.Core.Path.{◌≡◌, refl}
use mathlib.Core.Option.{Option, none, some}
use mathlib.Core.List.{List, ◌++◌}
use native.Mathlib.Omega.{arith}
use revese_server.Base.Tests.{leb, le→leb, if◌then◌else◌}
use revese_server.Base.Lists.{length, take, drop, length-append, take-append, drop-append}

-- The n bytes that are read and what follows them, or nothing: then fewer than n were left, and all of
-- those were read into the slice before the error.
unfoldable pub read_full : ℕ → List ℕ → Option (List ℕ × List ℕ)
read_full n input = if leb n (length input) then some (take n input, drop n input) else none

-- read_full on an input that begins with enough bytes.
pub read_full-append :
    (n : ℕ) (xs ys : List ℕ) → length xs ≡ n → read_full n (xs ++ ys) ≡ some (xs, ys)
unfolding read_full
read_full-append n xs ys e =
    rw
      (
        le→leb n (length (xs ++ ys)) (omega (arith, length-append xs ys)),
        take-append n xs ys e,
        drop-append n xs ys e,
      )
      refl

pub read_full_short : (n : ℕ) (xs : List ℕ) → length xs < n → read_full n xs ≡ none
unfolding read_full
read_full_short n xs h = ground arith
