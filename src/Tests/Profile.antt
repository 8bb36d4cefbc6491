-- ===== src/Tests/Profile.antt =====
-- Compute profiles, with the digits of ASCII.
use Prim.Native.Char.{Char, code}
use Prim.Native.String.{◌++◌}
use qiskit_serverless.Base.{Bool, Option, String, arith, false, leb, refl, some, true, ◌&&◌, ◌≡◌}
use qiskit_serverless.Profile.{is_resource, is_valid, normalize}
use qiskit_serverless.Profile.Laws.{IsDigits, normalize-append}

abbrev ascii_digit : Char → Bool
ascii_digit c = leb b'0' (code c) && leb (code c) b'9'

ascii-IsDigits : IsDigits ascii_digit
ascii-IsDigits = record {
  no_hyphen = λ c h. ground (arith, h);
  no_lower = λ c h. ground (arith, h);
}

normalize-append_example :
    (normalize ascii_digit (some ("gx3d" ++ ("-" ++ "24x120x1a100p"))) ≡ some "24x120x1a100p")
    × (is_valid ascii_digit ("gx3d" ++ ("-" ++ "24x120x1a100p"))
        ≡ is_resource ascii_digit "24x120x1a100p")
normalize-append_example =
    normalize-append ascii_digit ascii-IsDigits "gx3d" "24x120x1a100p" refl refl refl

-- The examples of the docstrings.
documented :
    ◌≡◌ {A = Bool × Bool × Bool × Bool}
      (
        is_valid ascii_digit "bx3d-24x120",
        is_valid ascii_digit "24x120x1a100p",
        is_valid ascii_digit "BX3D-24x120",
        is_valid ascii_digit "24x120x",
      )
      (true, true, false, false)
unfolding is_valid
documented = refl

-- Two families in front: each call strips one.
stripped_twice :
    ◌≡◌ {A = Option String × Option String}
      (
        normalize ascii_digit (some "a1-b2-c"),
        normalize ascii_digit (normalize ascii_digit (some "a1-b2-c")),
      )
      (some "b2-c", some "c")
unfolding normalize
stripped_twice = refl
