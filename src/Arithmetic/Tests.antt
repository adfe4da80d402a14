-- ===== src/Arithmetic/Tests.antt =====
-- Runs of lib/arithmetic.c's divisions.
use modeling_unix.Base.Int.{◌/ℤ◌}
use modeling_unix.Base.{◌≡◌, refl, some, arith}
use modeling_unix.Arithmetic.{nlz, udiv64, umod64, sdiv64}
use modeling_unix.Arithmetic.Divide.{udiv64-div}
use modeling_unix.Arithmetic.Signed.{umod64-mod, sdiv64-div}

nlz_run : nlz 0x00012345 ≡ 15
unfolding nlz
nlz_run = refl

udiv64-div_example : udiv64 18000000000000000000 5000000000 ≡ some 3600000000
udiv64-div_example =
    udiv64-div 18000000000000000000 5000000000 (omega arith) (omega arith) (omega arith)

umod64-mod_example : umod64 18000000000000000000 7 ≡ some 4
umod64-mod_example = umod64-mod 18000000000000000000 7 (omega arith) (omega arith) (omega arith)

-- -7 / 2 is -3.
sdiv64-div_example : sdiv64 18446744073709551609 2 ≡ some 18446744073709551613
unfolding ◌/ℤ◌
sdiv64-div_example = sdiv64-div 18446744073709551609 2 (omega arith) (omega arith) (omega arith)
