-- ===== src/Base/Text.antt =====
-- Template literals: the texts that code puts together from texts and numbers.
use Prim.Native.Nat.{ℕ, zero, suc, ◌/◌, ◌%◌}
use Prim.Native.String.{String, ◌++◌}
use mathlib.Core.List.{List, [], ◌∷◌}
use scheduleos.Base.Tests.{ltb, if◌then◌else◌}

-- The parts of a template literal, put together.
unfoldable pub join : List String → String
join [] = ""
join (s ∷ ss) = s ++ join ss

digit : ℕ → String
digit zero = "0"
digit (suc zero) = "1"
digit (suc (suc zero)) = "2"
digit (suc (suc (suc zero))) = "3"
digit (suc (suc (suc (suc zero)))) = "4"
digit (suc (suc (suc (suc (suc zero))))) = "5"
digit (suc (suc (suc (suc (suc (suc zero)))))) = "6"
digit (suc (suc (suc (suc (suc (suc (suc zero))))))) = "7"
digit (suc (suc (suc (suc (suc (suc (suc (suc zero)))))))) = "8"
digit _ = "9"

decimal_on : ℕ → ℕ → String
unfolding digit
decimal_on zero n = ""
decimal_on (suc fuel) n =
    let longer = decimal_on fuel (n / 10) ++ digit (n % 10) in if ltb n 10 then digit n else longer

-- A number in decimal. It has no more digits than its value, or one.
unfoldable pub decimal : ℕ → String
unfolding decimal_on
decimal n = decimal_on (suc n) n
